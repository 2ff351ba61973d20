-- ===== src/Aslib/RoundTrip/Parsing.antt =====
-- The parser reads a line of the syntax from its tokens.
use smol_gpu.Prelude.{
  ℕ, suc, ◌<◌, ◌≤◌, ◌≡◌, ◌^◌, refl, ap, Bool, false, Option, none, some, List, [], ◌∷◌, Text, arith,
  bool_eq, not,
}
use smol_gpu.Prelude.Int.{ℤ, pos, ltb_pos}
use smol_gpu.Isa.Register.{Register}
use smol_gpu.Isa.Mnemonic
use smol_gpu.Isa.Mnemonic.{MnemonicName, Mnemonic, name_eq}
use smol_gpu.Aslib.Error.{Error}
use smol_gpu.Aslib.Token
use smol_gpu.Aslib.Token.{TokenType, Token, Kind, register_kind, comma_kind, is_of_type, holds}
use smol_gpu.Aslib.Syntax.{
  Operands, Instruction, Line, ImmediateOrLabelref, itype, rtype, stype, utype, jtype, jalr,
  just_label, blocks_directive, warps_directive, instruction,
}
use smol_gpu.Aslib.Parser.{
  Parser, unlabelled, parse_utype_instruction, parse_itype_arithmetic_instruction,
  parse_rtype_instruction, parse_load_instruction, parse_store_instruction, parse_jal_instruction,
  parse_jalr_instruction, parse_instruction, check_register_correct_type, ok, parse_line, expect,
  jalr_target, finish_line, parse_labelled, parse_directive, parse_line_at, parse_first,
}
use smol_gpu.Aslib.Parser.Sound.{register_immediate-Classes, three_registers-Classes}
use smol_gpu.Aslib.Parser.Format.{
  Format, format, OperandsFit, scalar_sources, HasClass, bare, register_immediate, three_registers,
  load, store, upper, jump, jump_register, branch,
}
use smol_gpu.Aslib.RoundTrip.Tokens.{
  operand_types, placed, HasOperands, instruction_types, labelled_types, line_types, IsLine,
}

class-equal : (a b : Bool) → a ≡ b → not (bool_eq a b) ≡ false
class-equal a b h = ground arith

module _ (m : Mnemonic) (es : List Error) (col : ℕ → ℕ) where
  -- A method reads the tokens of the operands, all of them, as an instruction of `m`.
  abbrev ReadsAll : (Parser → Option Instruction × Parser) → Format → Operands → Type 0
  ReadsAll method f o =
      method (record { tokens = placed (operand_types f o) col; errors = es })
      ≡ (some (unlabelled m o), record { tokens = []; errors = es })

  utype-ReadsAll :
      (rd : Register) (imm : ℤ)
      → HasClass rd (Mnemonic.is_scalar m)
      → ReadsAll (parse_utype_instruction m) upper (utype rd imm)
  unfolding parse_utype_instruction expect is_of_type check_register_correct_type
  utype-ReadsAll rd imm hd = rw (class-equal _ _ hd)

  load-ReadsAll :
      (rd rs1 : Register) (imm : ℤ)
      → HasClass rd (Mnemonic.is_scalar m)
      → HasClass rs1 (Mnemonic.is_scalar m)
      → ReadsAll (parse_load_instruction m) load (itype rd rs1 imm)
  unfolding parse_load_instruction expect is_of_type check_register_correct_type
  load-ReadsAll rd rs1 imm hd h1 = rw (class-equal _ _ hd, class-equal _ _ h1)

  store-ReadsAll :
      (rs1 rs2 : Register) (imm : ℤ)
      → HasClass rs1 (Mnemonic.is_scalar m)
      → HasClass rs2 (Mnemonic.is_scalar m)
      → ReadsAll (parse_store_instruction m) store (stype rs1 rs2 imm)
  unfolding parse_store_instruction expect is_of_type check_register_correct_type
  store-ReadsAll rs1 rs2 imm h1 h2 = rw (class-equal _ _ h1, class-equal _ _ h2)

  itype-ReadsAll :
      (rd rs1 : Register) (imm : ℤ)
      → format m.name ≡ register_immediate
      → HasClass rd (Mnemonic.is_scalar m)
      → HasClass rs1 (scalar_sources m)
      → ReadsAll (parse_itype_arithmetic_instruction m) register_immediate (itype rd rs1 imm)
  unfolding parse_itype_arithmetic_instruction expect is_of_type check_register_correct_type
  itype-ReadsAll rd rs1 imm is hd h1 =
      let (dest, source) = register_immediate-Classes m.name m.has_s_prefix is in
      rw (dest, source, class-equal _ _ hd, class-equal _ _ h1)

  rtype-ReadsAll :
      (rd rs1 rs2 : Register)
      → format m.name ≡ three_registers
      → HasClass rd (Mnemonic.is_scalar m)
      → HasClass rs1 (scalar_sources m)
      → HasClass rs2 (scalar_sources m)
      → ReadsAll (parse_rtype_instruction m) three_registers (rtype rd rs1 rs2)
  unfolding parse_rtype_instruction expect is_of_type check_register_correct_type
  rtype-ReadsAll rd rs1 rs2 is hd h1 h2 =
      let (dest, source) = three_registers-Classes m.name m.has_s_prefix is in
      rw (dest, source, class-equal _ _ hd, class-equal _ _ h1, class-equal _ _ h2)

  jal-ReadsAll : (rd : Register) (imm : ℤ) → ReadsAll (parse_jal_instruction m) jump (jtype rd imm)
  unfolding parse_jal_instruction expect is_of_type
  jal-ReadsAll rd imm = refl

  jalr-ReadsAll :
      (rd rs1 : Register) (to : ImmediateOrLabelref)
      → OperandsFit jump_register (Mnemonic.is_scalar m) (scalar_sources m) (jalr rd rs1 to)
      → ReadsAll (parse_jalr_instruction m) jump_register (jalr rd rs1 to)
  unfolding parse_jalr_instruction expect is_of_type jalr_target
  jalr-ReadsAll rd rs1 (ImmediateOrLabelref.label_ref name) fit = rw fit
  jalr-ReadsAll rd rs1 (ImmediateOrLabelref.immediate offset) fit = refl

-- The method for a format; the formats that are left have none.
abbrev method : Format → Mnemonic → Parser → Option Instruction × Parser
method register_immediate = parse_itype_arithmetic_instruction
method three_registers = parse_rtype_instruction
method load = parse_load_instruction
method store = parse_store_instruction
method upper = parse_utype_instruction
method jump = parse_jal_instruction
method jump_register = parse_jalr_instruction
method _ = λ m p. (none, p)

parse_instruction-method :
    (n : MnemonicName) (b : Bool) (col : ℕ) (p : Parser)
    → HasOperands (format n)
    → parse_instruction (record { name = n; has_s_prefix = b }) col p
      ≡ method (format n) (record { name = n; has_s_prefix = b }) p
unfolding parse_instruction
parse_instruction-method Mnemonic.lui b col p h = refl
parse_instruction-method Mnemonic.halt b col p h = absurd h
parse_instruction-method Mnemonic.beq b col p h = absurd h
parse_instruction-method Mnemonic.bne b col p h = absurd h
parse_instruction-method Mnemonic.blt b col p h = absurd h
parse_instruction-method Mnemonic.bge b col p h = absurd h
parse_instruction-method _ b col p h = refl

method-ReadsAll :
    (f : Format) (m : Mnemonic) (es : List Error) (col : ℕ → ℕ) (o : Operands)
    → format m.name ≡ f
    → HasOperands f
    → OperandsFit f (Mnemonic.is_scalar m) (scalar_sources m) o
    → ReadsAll m es col (method f m) f o
method-ReadsAll register_immediate m es col (itype rd rs1 imm) is h (hd, h1) =
    itype-ReadsAll m es col rd rs1 imm is hd h1
method-ReadsAll three_registers m es col (rtype rd rs1 rs2) is h (hd, h1, h2) =
    rtype-ReadsAll m es col rd rs1 rs2 is hd h1 h2
method-ReadsAll load m es col (itype rd rs1 imm) is h (hd, h1) =
    load-ReadsAll m es col rd rs1 imm hd h1
method-ReadsAll store m es col (stype rs1 rs2 imm) is h (h1, h2) =
    store-ReadsAll m es col rs1 rs2 imm h1 h2
method-ReadsAll upper m es col (utype rd imm) is h hd = utype-ReadsAll m es col rd imm hd
method-ReadsAll jump m es col (jtype rd imm) is h fit = jal-ReadsAll m es col rd imm
method-ReadsAll jump_register m es col (jalr rd rs1 to) is h fit =
    jalr-ReadsAll m es col rd rs1 to fit
method-ReadsAll bare m es col o is h fit = absurd h
method-ReadsAll branch m es col o is h fit = absurd h
method-ReadsAll _ m es col o is h fit = absurd fit

labelled-line :
    (label : Option Text) (m : Mnemonic) (o : Operands) (c : ℕ) (col : ℕ → ℕ)
    → HasOperands (format m.name)
    → OperandsFit (format m.name) (Mnemonic.is_scalar m) (scalar_sources m) o
    → finish_line (
        parse_labelled label
          (record { token_type = Token.mnemonic m; col = c })
          (Token.mnemonic m)
          (record {
            tokens =
                record { token_type = Token.mnemonic m; col = c }
                ∷ placed (operand_types (format m.name) o) col;
            errors = [];
          }))
      ≡ ok (instruction (record { label = label; mnemonic = m; operands = o }))
unfolding parse_labelled
labelled-line label m o c col h fit = rw (
  parse_instruction-method m.name m.has_s_prefix c _ h,
  method-ReadsAll (format m.name) m [] col o refl h fit,
)

positive_count : (n : ℕ) → 1 ≤ n → ltb_pos (pos n) 1 ≡ false
positive_count n h = ground (arith, h)

directive-line :
    (name : Text) (directive : ℕ → Line) (n c : ℕ)
    → 1 ≤ n
    → n < 2 ^ 31
    → finish_line (
        parse_directive name directive (record {
          tokens = record { token_type = Token.immediate (pos n); col = c } ∷ [];
          errors = [];
        }))
      ≡ ok (directive n)
unfolding parse_directive expect is_of_type
directive-line name directive n c h small =
    rw (positive_count n h) (ap (λ (k : ℕ). ok (directive k)) (omega (arith, small)))

-- The parser reads a line of the syntax from its tokens, whatever their columns.
pub parse_line-line_types :
    (l : Line) → IsLine l → (col : ℕ → ℕ) → parse_line (placed (line_types l) col) ≡ ok l
unfolding parse_line parse_line_at parse_first
parse_line-line_types (just_label name) h col = refl
parse_line-line_types (blocks_directive n) (h, small) col =
    directive-line _ blocks_directive n (col 1) h small
parse_line-line_types (warps_directive n) (h, small) col =
    directive-line _ warps_directive n (col 1) h small
parse_line-line_types (instruction i) (formed, h) col = by_label i.label
  where
    by_label :
        (label : Option Text)
        → parse_line (placed (labelled_types label (instruction_types i)) col)
          ≡ ok (instruction (record i { label = label }))
    by_label none =
        labelled-line none i.mnemonic i.operands (col 0) (λ k. col (suc k)) h formed.fits
    by_label (some name) =
        labelled-line (some name) i.mnemonic i.operands (col 1) (λ k. col (suc (suc k))) h
          formed.fits
