-- ===== src/Aslib/Parser/Sound.antt =====
-- A parsed instruction has the operands of its mnemonic, in registers of the right class, and a method
-- returns no result exactly where it pushes an error.
use smol_gpu.Prelude.{ℕ, Bool, true, false, List, [], ◌∷◌, ◌≡◌, refl, if◌then◌else◌}
use smol_gpu.Isa.Register
use smol_gpu.Isa.Register.{Register}
use smol_gpu.Isa.Mnemonic
use smol_gpu.Isa.Mnemonic.{MnemonicName, Mnemonic, name_eq}
use smol_gpu.Aslib.Token
use smol_gpu.Aslib.Token.{
  TokenType, Token, register_kind, comma_kind, immediate_kind, lparen_kind, rparen_kind,
  label_ref_kind, Kind,
}
use smol_gpu.Aslib.Syntax.{Instruction}
use smol_gpu.Aslib.Parser.{
  Parser, Method, ◌>>=◌, expect, as_register, jalr_target, parse_jalr_instruction,
  parse_itype_arithmetic_instruction, parse_rtype_instruction, parse_instruction,
  parse_load_instruction, parse_store_instruction, parse_jal_instruction,
  check_register_correct_type, parse_utype_instruction,
}
use smol_gpu.Aslib.Parser.Ensures.{
  Ensures, bind-Ensures, expect-Ensures, check_register_correct_type-Ensures,
}
use smol_gpu.Aslib.Parser.Format.{
  Format, OperandsFit, format, scalar_sources, upper, load, store, jump, jump_register,
  register_immediate, three_registers,
}

-- The instruction of `m` with operands of format `f`.
abbrev pub Parses : Format → Bool → Bool → Mnemonic → Instruction → Type 0
Parses f dest source m i = (i.mnemonic ≡ m) × OperandsFit f dest source i.operands

module _ (f : Format) (dest source : Bool) (m : Mnemonic) where
  -- One token is read, whatever it is.
  expect_then :
      (k : Kind) (ks : List Kind) (next : Token → Method Instruction) (p : Parser)
      → ((t : Token) (q : Parser) → Ensures (Parses f dest source m) q (next t q))
      → Ensures (Parses f dest source m) p ((expect k ks >>= next) p)
  expect_then k ks next p h =
      bind-Ensures _ _ (expect k ks) next p (expect-Ensures k ks p) (λ t q _. h t q)

  -- One register is checked.
  check_then :
      (t : Token) (scalar : Bool) (next : Unit {0} → Method Instruction) (p : Parser)
      → ((q : Parser)
          → Register.is_scalar (as_register t) ≡ scalar
          → Ensures (Parses f dest source m) q (next tt q))
      → Ensures (Parses f dest source m) p ((check_register_correct_type t scalar >>= next) p)
  check_then t scalar next p h =
      bind-Ensures _ _ (check_register_correct_type t scalar) next p
        (check_register_correct_type-Ensures t scalar p) (λ u q c. h q c)

pub parse_utype_instruction-Ensures :
    (m : Mnemonic) (p : Parser)
    → Ensures
        (Parses upper (Mnemonic.is_scalar m) (scalar_sources m) m)
        p
        (parse_utype_instruction m p)
unfolding parse_utype_instruction
parse_utype_instruction-Ensures m p =
    expect_then upper (Mnemonic.is_scalar m) (scalar_sources m) m register_kind [] _ p λ rd p1.
      expect_then upper (Mnemonic.is_scalar m) (scalar_sources m) m comma_kind [] _ p1 λ c p2.
        expect_then upper (Mnemonic.is_scalar m) (scalar_sources m) m immediate_kind [] _ p2
          λ imm p3.
            check_then upper (Mnemonic.is_scalar m) (scalar_sources m) m rd (Mnemonic.is_scalar m) _
              p3 λ p4 hd. ((refl, hd), refl)

pub parse_load_instruction-Ensures :
    (m : Mnemonic) (p : Parser)
    → Ensures
        (Parses load (Mnemonic.is_scalar m) (scalar_sources m) m)
        p
        (parse_load_instruction m p)
unfolding parse_load_instruction
parse_load_instruction-Ensures m p =
    expect_then load (Mnemonic.is_scalar m) (scalar_sources m) m register_kind [] _ p λ rd p1.
      expect_then load (Mnemonic.is_scalar m) (scalar_sources m) m comma_kind [] _ p1 λ c p2.
        expect_then load (Mnemonic.is_scalar m) (scalar_sources m) m immediate_kind [] _ p2
          λ imm p3.
            expect_then load (Mnemonic.is_scalar m) (scalar_sources m) m lparen_kind [] _ p3 λ l p4.
              expect_then load (Mnemonic.is_scalar m) (scalar_sources m) m register_kind [] _ p4
                λ rs1 p5.
                  expect_then load (Mnemonic.is_scalar m) (scalar_sources m) m rparen_kind [] _ p5
                    λ r p6.
                      check_then load (Mnemonic.is_scalar m) (scalar_sources m) m rd
                        (Mnemonic.is_scalar m) _ p6
                        λ p7 hd.
                          check_then load (Mnemonic.is_scalar m) (scalar_sources m) m rs1
                            (Mnemonic.is_scalar m) _ p7 λ p8 h1. ((refl, (hd, h1)), refl)

pub parse_store_instruction-Ensures :
    (m : Mnemonic) (p : Parser)
    → Ensures
        (Parses store (Mnemonic.is_scalar m) (scalar_sources m) m)
        p
        (parse_store_instruction m p)
unfolding parse_store_instruction
parse_store_instruction-Ensures m p =
    expect_then store (Mnemonic.is_scalar m) (scalar_sources m) m register_kind [] _ p λ rs2 p1.
      expect_then store (Mnemonic.is_scalar m) (scalar_sources m) m comma_kind [] _ p1 λ c p2.
        expect_then store (Mnemonic.is_scalar m) (scalar_sources m) m immediate_kind [] _ p2
          λ imm p3.
            expect_then store (Mnemonic.is_scalar m) (scalar_sources m) m lparen_kind [] _ p3
              λ l p4.
                expect_then store (Mnemonic.is_scalar m) (scalar_sources m) m register_kind [] _ p4
                  λ rs1 p5.
                    expect_then store (Mnemonic.is_scalar m) (scalar_sources m) m rparen_kind [] _
                      p5
                      λ r p6.
                        check_then store (Mnemonic.is_scalar m) (scalar_sources m) m rs1
                          (Mnemonic.is_scalar m) _ p6
                          λ p7 h1.
                            check_then store (Mnemonic.is_scalar m) (scalar_sources m) m rs2
                              (Mnemonic.is_scalar m) _ p7 λ p8 h2. ((refl, (h1, h2)), refl)

pub parse_jal_instruction-Ensures :
    (m : Mnemonic) (p : Parser)
    → Ensures
        (Parses jump (Mnemonic.is_scalar m) (scalar_sources m) m)
        p
        (parse_jal_instruction m p)
unfolding parse_jal_instruction
parse_jal_instruction-Ensures m p =
    expect_then jump (Mnemonic.is_scalar m) (scalar_sources m) m register_kind [] _ p λ rd p1.
      expect_then jump (Mnemonic.is_scalar m) (scalar_sources m) m comma_kind [] _ p1 λ c p2.
        expect_then jump (Mnemonic.is_scalar m) (scalar_sources m) m immediate_kind [] _ p2
          λ imm p3. ((refl, tt), refl)

-- The class that the parser demands of the destination, and that of the sources.
abbrev pub Classes : MnemonicName → Mnemonic → Type 0
Classes sx m =
    ((if name_eq m.name sx then true else Mnemonic.is_scalar m) ≡ Mnemonic.is_scalar m)
    × ((if name_eq m.name sx then false else Mnemonic.is_scalar m) ≡ scalar_sources m)

pub register_immediate-Classes :
    (n : MnemonicName) (b : Bool)
    → format n ≡ register_immediate
    → Classes Mnemonic.sx_slti (record { name = n; has_s_prefix = b })
unfolding name_eq Mnemonic.is_scalar
register_immediate-Classes Mnemonic.sx_slt b h = cc
register_immediate-Classes _ true h = (refl, refl)
register_immediate-Classes _ false h = (refl, refl)

pub three_registers-Classes :
    (n : MnemonicName) (b : Bool)
    → format n ≡ three_registers
    → Classes Mnemonic.sx_slt (record { name = n; has_s_prefix = b })
unfolding name_eq Mnemonic.is_scalar
three_registers-Classes Mnemonic.sx_slti b h = cc
three_registers-Classes _ true h = (refl, refl)
three_registers-Classes _ false h = (refl, refl)

pub parse_itype_arithmetic_instruction-Ensures :
    (m : Mnemonic) (p : Parser)
    → format m.name ≡ register_immediate
    → Ensures
        (Parses register_immediate (Mnemonic.is_scalar m) (scalar_sources m) m)
        p
        (parse_itype_arithmetic_instruction m p)
unfolding parse_itype_arithmetic_instruction
parse_itype_arithmetic_instruction-Ensures m p is =
    let (dest, source) = register_immediate-Classes m.name m.has_s_prefix is in
    rw (dest, source)
      (expect_then register_immediate (Mnemonic.is_scalar m) (scalar_sources m) m register_kind [] _
        p
        λ rd p1.
          expect_then register_immediate (Mnemonic.is_scalar m) (scalar_sources m) m comma_kind [] _
            p1
            λ c1 p2.
              expect_then register_immediate (Mnemonic.is_scalar m) (scalar_sources m) m
                register_kind [] _ p2
                λ rs1 p3.
                  expect_then register_immediate (Mnemonic.is_scalar m) (scalar_sources m) m
                    comma_kind [] _ p3
                    λ c2 p4.
                      expect_then register_immediate (Mnemonic.is_scalar m) (scalar_sources m) m
                        immediate_kind [] _ p4
                        λ imm p5.
                          check_then register_immediate (Mnemonic.is_scalar m) (scalar_sources m) m
                            rd (Mnemonic.is_scalar m) _ p5
                            λ p6 hd.
                              check_then register_immediate (Mnemonic.is_scalar m)
                                (scalar_sources m) m rs1 (scalar_sources m) _ p6
                                λ p7 h1. ((refl, (hd, h1)), refl))

pub parse_rtype_instruction-Ensures :
    (m : Mnemonic) (p : Parser)
    → format m.name ≡ three_registers
    → Ensures
        (Parses three_registers (Mnemonic.is_scalar m) (scalar_sources m) m)
        p
        (parse_rtype_instruction m p)
unfolding parse_rtype_instruction
parse_rtype_instruction-Ensures m p is =
    let (dest, source) = three_registers-Classes m.name m.has_s_prefix is in
    rw (dest, source)
      (expect_then three_registers (Mnemonic.is_scalar m) (scalar_sources m) m register_kind [] _ p
        λ rd p1.
          expect_then three_registers (Mnemonic.is_scalar m) (scalar_sources m) m comma_kind [] _ p1
            λ c1 p2.
              expect_then three_registers (Mnemonic.is_scalar m) (scalar_sources m) m register_kind
                [] _ p2
                λ rs1 p3.
                  expect_then three_registers (Mnemonic.is_scalar m) (scalar_sources m) m comma_kind
                    [] _ p3
                    λ c2 p4.
                      expect_then three_registers (Mnemonic.is_scalar m) (scalar_sources m) m
                        register_kind [] _ p4
                        λ rs2 p5.
                          check_then three_registers (Mnemonic.is_scalar m) (scalar_sources m) m rd
                            (Mnemonic.is_scalar m) _ p5
                            λ p6 hd.
                              check_then three_registers (Mnemonic.is_scalar m) (scalar_sources m) m
                                rs1 (scalar_sources m) _ p6
                                λ p7 h1.
                                  check_then three_registers (Mnemonic.is_scalar m)
                                    (scalar_sources m) m rs2 (scalar_sources m) _ p7
                                    λ p8 h2. ((refl, (hd, h1, h2)), refl))

jalr_target-Ensures :
    (m : Mnemonic) (rd : Register) (t : TokenType) (p : Parser)
    → Ensures
        (Parses jump_register (Mnemonic.is_scalar m) (scalar_sources m) m)
        p
        (jalr_target m rd t p)
unfolding jalr_target
jalr_target-Ensures m rd (Token.label_ref name) p = ((refl, refl), refl)
jalr_target-Ensures m rd _ p =
    expect_then jump_register (Mnemonic.is_scalar m) (scalar_sources m) m lparen_kind [] _ p λ l p1.
      expect_then jump_register (Mnemonic.is_scalar m) (scalar_sources m) m register_kind [] _ p1
        λ rs1 p2.
          expect_then jump_register (Mnemonic.is_scalar m) (scalar_sources m) m rparen_kind [] _ p2
            λ r p3. ((refl, tt), refl)

parse_jalr_instruction-Ensures :
    (m : Mnemonic) (p : Parser)
    → Ensures
        (Parses jump_register (Mnemonic.is_scalar m) (scalar_sources m) m)
        p
        (parse_jalr_instruction m p)
unfolding parse_jalr_instruction
parse_jalr_instruction-Ensures m p =
    expect_then jump_register (Mnemonic.is_scalar m) (scalar_sources m) m register_kind [] _ p
      λ rd p1.
        expect_then jump_register (Mnemonic.is_scalar m) (scalar_sources m) m comma_kind [] _ p1
          λ c p2.
            expect_then jump_register (Mnemonic.is_scalar m) (scalar_sources m) m label_ref_kind
              (immediate_kind ∷ []) _ p2
              λ next p3. jalr_target-Ensures m (as_register rd) next.token_type p3

-- The instruction of `m` in the format of `m`.
abbrev pub ParsesFormat : Mnemonic → Instruction → Type 0
ParsesFormat m = Parses (format m.name) (Mnemonic.is_scalar m) (scalar_sources m) m

pub parse_instruction-Ensures :
    (n : MnemonicName) (b : Bool) (col : ℕ) (p : Parser)
    → let m : Mnemonic = record { name = n; has_s_prefix = b } in
      Ensures (ParsesFormat m) p (parse_instruction m col p)
unfolding parse_instruction
parse_instruction-Ensures Mnemonic.lui b col p =
    parse_utype_instruction-Ensures (record { name = Mnemonic.lui; has_s_prefix = b }) p
parse_instruction-Ensures Mnemonic.auipc b col p =
    parse_utype_instruction-Ensures (record { name = Mnemonic.auipc; has_s_prefix = b }) p
parse_instruction-Ensures Mnemonic.addi b col p =
    parse_itype_arithmetic_instruction-Ensures (record { name = Mnemonic.addi; has_s_prefix = b }) p
      refl
parse_instruction-Ensures Mnemonic.slti b col p =
    parse_itype_arithmetic_instruction-Ensures (record { name = Mnemonic.slti; has_s_prefix = b }) p
      refl
parse_instruction-Ensures Mnemonic.xori b col p =
    parse_itype_arithmetic_instruction-Ensures (record { name = Mnemonic.xori; has_s_prefix = b }) p
      refl
parse_instruction-Ensures Mnemonic.ori b col p =
    parse_itype_arithmetic_instruction-Ensures (record { name = Mnemonic.ori; has_s_prefix = b }) p
      refl
parse_instruction-Ensures Mnemonic.andi b col p =
    parse_itype_arithmetic_instruction-Ensures (record { name = Mnemonic.andi; has_s_prefix = b }) p
      refl
parse_instruction-Ensures Mnemonic.slli b col p =
    parse_itype_arithmetic_instruction-Ensures (record { name = Mnemonic.slli; has_s_prefix = b }) p
      refl
parse_instruction-Ensures Mnemonic.srli b col p =
    parse_itype_arithmetic_instruction-Ensures (record { name = Mnemonic.srli; has_s_prefix = b }) p
      refl
parse_instruction-Ensures Mnemonic.srai b col p =
    parse_itype_arithmetic_instruction-Ensures (record { name = Mnemonic.srai; has_s_prefix = b }) p
      refl
parse_instruction-Ensures Mnemonic.add b col p =
    parse_rtype_instruction-Ensures (record { name = Mnemonic.add; has_s_prefix = b }) p refl
parse_instruction-Ensures Mnemonic.sub b col p =
    parse_rtype_instruction-Ensures (record { name = Mnemonic.sub; has_s_prefix = b }) p refl
parse_instruction-Ensures Mnemonic.sll b col p =
    parse_rtype_instruction-Ensures (record { name = Mnemonic.sll; has_s_prefix = b }) p refl
parse_instruction-Ensures Mnemonic.slt b col p =
    parse_rtype_instruction-Ensures (record { name = Mnemonic.slt; has_s_prefix = b }) p refl
parse_instruction-Ensures Mnemonic.xor b col p =
    parse_rtype_instruction-Ensures (record { name = Mnemonic.xor; has_s_prefix = b }) p refl
parse_instruction-Ensures Mnemonic.srl b col p =
    parse_rtype_instruction-Ensures (record { name = Mnemonic.srl; has_s_prefix = b }) p refl
parse_instruction-Ensures Mnemonic.sra b col p =
    parse_rtype_instruction-Ensures (record { name = Mnemonic.sra; has_s_prefix = b }) p refl
parse_instruction-Ensures Mnemonic.or b col p =
    parse_rtype_instruction-Ensures (record { name = Mnemonic.or; has_s_prefix = b }) p refl
parse_instruction-Ensures Mnemonic.and b col p =
    parse_rtype_instruction-Ensures (record { name = Mnemonic.and; has_s_prefix = b }) p refl
parse_instruction-Ensures Mnemonic.lb b col p =
    parse_load_instruction-Ensures (record { name = Mnemonic.lb; has_s_prefix = b }) p
parse_instruction-Ensures Mnemonic.lh b col p =
    parse_load_instruction-Ensures (record { name = Mnemonic.lh; has_s_prefix = b }) p
parse_instruction-Ensures Mnemonic.lw b col p =
    parse_load_instruction-Ensures (record { name = Mnemonic.lw; has_s_prefix = b }) p
parse_instruction-Ensures Mnemonic.sb b col p =
    parse_store_instruction-Ensures (record { name = Mnemonic.sb; has_s_prefix = b }) p
parse_instruction-Ensures Mnemonic.sh b col p =
    parse_store_instruction-Ensures (record { name = Mnemonic.sh; has_s_prefix = b }) p
parse_instruction-Ensures Mnemonic.sw b col p =
    parse_store_instruction-Ensures (record { name = Mnemonic.sw; has_s_prefix = b }) p
parse_instruction-Ensures Mnemonic.jal b col p =
    parse_jal_instruction-Ensures (record { name = Mnemonic.jal; has_s_prefix = b }) p
parse_instruction-Ensures Mnemonic.jalr b col p =
    parse_jalr_instruction-Ensures (record { name = Mnemonic.jalr; has_s_prefix = b }) p
parse_instruction-Ensures Mnemonic.beq b col p = (_, refl)
parse_instruction-Ensures Mnemonic.bne b col p = (_, refl)
parse_instruction-Ensures Mnemonic.blt b col p = (_, refl)
parse_instruction-Ensures Mnemonic.bge b col p = (_, refl)
parse_instruction-Ensures Mnemonic.halt b col p = ((refl, refl), refl)
parse_instruction-Ensures Mnemonic.sx_slt b col p =
    parse_rtype_instruction-Ensures (record { name = Mnemonic.sx_slt; has_s_prefix = b }) p refl
parse_instruction-Ensures Mnemonic.sx_slti b col p =
    parse_itype_arithmetic_instruction-Ensures
      (record { name = Mnemonic.sx_slti; has_s_prefix = b }) p refl
