-- ===== src/Aslib/Parser.antt =====
-- `Parser` of sim/aslib/parser.{hpp,cpp}: one line of tokens to a parsed line. A method returns its
-- optional result and the new state: the tokens that are left, and the errors pushed so far.
pub mod Ensures
pub mod Format
pub mod Sound
pub mod Lines
use smol_gpu.Prelude.{
  ℕ, Bool, true, false, not, ◌||◌, Option, none, some, List, [], ◌∷◌, ◌++◌, if◌then◌else◌, bool_eq,
  Text, codes,
}
use smol_gpu.Prelude.Int.{ℤ, pos, ltb_pos, to_u32}
use smol_gpu.Isa.Register
use smol_gpu.Isa.Register.{Register, x_register}
use smol_gpu.Isa.Mnemonic
use smol_gpu.Isa.Mnemonic.{MnemonicName, Mnemonic, name_eq}
use smol_gpu.Aslib.Error.{
  Message, register_should_be, unexpected_token, unexpected_end_of_stream, unknown_mnemonic,
  invalid_count, expected_end_of_line, expected_mnemonic_or_directive, Error,
}
use smol_gpu.Aslib.Token
use smol_gpu.Aslib.Token.{
  TokenType, Token, Kind, blocks_kind, warps_kind, mnemonic_kind, label_kind, label_ref_kind,
  immediate_kind, register_kind, comma_kind, lparen_kind, rparen_kind, is_of_type,
  token_type_to_str, token_to_str,
}
use smol_gpu.Aslib.Syntax.{
  Operands, no_operands, Instruction, Line, ImmediateOrLabelref, itype, rtype, stype, utype, jtype,
  jalr, just_label, blocks_directive, warps_directive, instruction, is_itype_arithmetic, is_rtype,
  is_load_type, is_store_type, is_utype,
}

pub record Parser : Type 0 where
  pub tokens : List Token
  pub errors : List Error

-- A method: `none` stands for a returned `nullopt`.
abbrev pub Method {ℓ} : Type ℓ → Type ℓ
Method A = Parser → Option A × Parser

abbrev pub after {ℓ κ} :
    {A : Type ℓ} {B : Type κ} → (A → Method B) → Option A × Parser → Option B × Parser
after f (none, p) = (none, p)
after f (some a, p) = f a p

-- `EXPECT_OR_RETURN` and `CHECK_REG`: go on with the value, or return.
infixl 5 ◌>>=◌ ◌>>◌
abbrev pub ◌>>=◌ {ℓ κ} : {A : Type ℓ} {B : Type κ} → Method A → (A → Method B) → Method B
◌>>=◌ m f p = after f (m p)

abbrev pub ◌>>◌ {ℓ} : {B : Type ℓ} → Method (Unit {0}) → Method B → Method B
m >> k = m >>= λ _. k

abbrev pub pure {ℓ} : {A : Type ℓ} → A → Method A
pure a p = (some a, p)

-- `push_err`, and the return of `nullopt` behind it
abbrev pub fail {ℓ} : {A : Type ℓ} → Message → ℕ → Method A
fail message column p = (
  none,
  record p { errors = p.errors ++ (record { message = message; column = column; line = 0 } ∷ []) },
)

abbrev pub throw_unexpected_token {ℓ} : {A : Type ℓ} → Text → Token → Method A
throw_unexpected_token expected t =
    fail (unexpected_token expected (token_to_str t.token_type)) t.col

abbrev pub throw_unexpected_eos {ℓ} : {A : Type ℓ} → Text → Method A
throw_unexpected_eos expected = fail (unexpected_end_of_stream expected) 0

-- `chop`, on the tokens
abbrev pub chop_front : List Token → Parser → Option Token × Parser
chop_front [] p = (none, p)
chop_front (t ∷ ts) p = (some t, record p { tokens = ts })

abbrev pub chop : Method Token
chop p = chop_front p.tokens p

abbrev pub front : List Token → Option Token
front [] = none
front (t ∷ ts) = some t

-- `peek`; `none` is the null pointer.
abbrev pub peek : Parser → Option Token
peek p = front p.tokens

abbrev pub expect_next : Kind → List Kind → Option Token × Parser → Option Token × Parser
expect_next k ks (none, p) = throw_unexpected_eos (token_type_to_str k ks) p
expect_next k ks (some t, p) =
    if is_of_type (k ∷ ks) t
    then (some t, p)
    else throw_unexpected_token (token_type_to_str k ks) t p

-- `expect<T...>`
unfoldable pub expect : Kind → List Kind → Method Token
expect k ks p = expect_next k ks (chop p)

-- `as<T>()`, where the caller has seen to the alternative. On another one `std::get` throws, which
-- does not happen, and the value here is arbitrary.
abbrev pub as_register : Token → Register
as_register t = elim t.token_type [ Token.register r ↦ r | _ ↦ x_register 0 ]

abbrev pub as_immediate : Token → ℤ
as_immediate t = elim t.token_type [ Token.immediate n ↦ n | _ ↦ pos 0 ]

unfoldable pub check_register_correct_type : Token → Bool → Method (Unit {0})
check_register_correct_type reg_token should_be_scalar p =
    let reg = as_register reg_token in
    if not (bool_eq (Register.is_scalar reg) should_be_scalar)
    then fail (register_should_be reg should_be_scalar) reg_token.col p
    else (some tt, p)

-- `Instruction{.label = {}, .mnemonic = mnemonic, .operands = operands}`
abbrev pub unlabelled : Mnemonic → Operands → Instruction
unlabelled m operands = record { label = none; mnemonic = m; operands = operands }

unfoldable pub parse_utype_instruction : Mnemonic → Method Instruction
parse_utype_instruction m = do
  rd ← expect register_kind []
  comma ← expect comma_kind []
  imm20 ← expect immediate_kind []
  check_register_correct_type rd (Mnemonic.is_scalar m)
  pure (unlabelled m (utype (as_register rd) (as_immediate imm20)))

unfoldable pub parse_itype_arithmetic_instruction : Mnemonic → Method Instruction
parse_itype_arithmetic_instruction m = do
  rd ← expect register_kind []
  comma1 ← expect comma_kind []
  rs1 ← expect register_kind []
  comma2 ← expect comma_kind []
  imm12 ← expect immediate_kind []
  let vector_scalar = name_eq m.name Mnemonic.sx_slti
  check_register_correct_type rd (if vector_scalar then true else Mnemonic.is_scalar m)
  check_register_correct_type rs1 (if vector_scalar then false else Mnemonic.is_scalar m)
  pure (unlabelled m (itype (as_register rd) (as_register rs1) (as_immediate imm12)))

unfoldable pub parse_rtype_instruction : Mnemonic → Method Instruction
parse_rtype_instruction m = do
  rd ← expect register_kind []
  comma1 ← expect comma_kind []
  rs1 ← expect register_kind []
  comma2 ← expect comma_kind []
  rs2 ← expect register_kind []
  let vector_scalar = name_eq m.name Mnemonic.sx_slt
  check_register_correct_type rd (if vector_scalar then true else Mnemonic.is_scalar m)
  check_register_correct_type rs1 (if vector_scalar then false else Mnemonic.is_scalar m)
  check_register_correct_type rs2 (if vector_scalar then false else Mnemonic.is_scalar m)
  pure (unlabelled m (rtype (as_register rd) (as_register rs1) (as_register rs2)))

unfoldable pub parse_load_instruction : Mnemonic → Method Instruction
parse_load_instruction m = do
  rd ← expect register_kind []
  comma1 ← expect comma_kind []
  offset ← expect immediate_kind []
  lparen ← expect lparen_kind []
  rs1 ← expect register_kind []
  rparen ← expect rparen_kind []
  check_register_correct_type rd (Mnemonic.is_scalar m)
  check_register_correct_type rs1 (Mnemonic.is_scalar m)
  pure (unlabelled m (itype (as_register rd) (as_register rs1) (as_immediate offset)))

unfoldable pub parse_store_instruction : Mnemonic → Method Instruction
parse_store_instruction m = do
  rs2 ← expect register_kind []
  comma1 ← expect comma_kind []
  offset ← expect immediate_kind []
  lparen ← expect lparen_kind []
  rs1 ← expect register_kind []
  rparen ← expect rparen_kind []
  check_register_correct_type rs1 (Mnemonic.is_scalar m)
  check_register_correct_type rs2 (Mnemonic.is_scalar m)
  pure (unlabelled m (stype (as_register rs1) (as_register rs2) (as_immediate offset)))

unfoldable pub parse_jal_instruction : Mnemonic → Method Instruction
parse_jal_instruction m = do
  rd ← expect register_kind []
  comma ← expect comma_kind []
  imm ← expect immediate_kind []
  pure (unlabelled m (jtype (as_register rd) (as_immediate imm)))

-- What follows `JALR rd,`: a label reference, or `offset(rs1)`.
unfoldable pub jalr_target : Mnemonic → Register → TokenType → Method Instruction
jalr_target m rd (Token.label_ref name) =
    pure (unlabelled m (jalr rd (x_register 0) (ImmediateOrLabelref.label_ref name)))
jalr_target m rd next = do
  lparen ← expect lparen_kind []
  rs1 ← expect register_kind []
  rparen ← expect rparen_kind []
  pure (
      unlabelled m (
        jalr rd (as_register rs1)
          (ImmediateOrLabelref.immediate (as_immediate (record { token_type = next; col = 0 })))))

unfoldable pub parse_jalr_instruction : Mnemonic → Method Instruction
parse_jalr_instruction m = do
  rd ← expect register_kind []
  comma1 ← expect comma_kind []
  next ← expect label_ref_kind (immediate_kind ∷ [])
  jalr_target m (as_register rd) next.token_type

-- `parse_instruction`, behind the `chop` of the mnemonic in column `col`.
unfoldable pub parse_instruction : Mnemonic → ℕ → Method Instruction
unfolding is_itype_arithmetic is_rtype is_load_type is_store_type is_utype name_eq
parse_instruction m col =
    if name_eq m.name Mnemonic.halt
    then pure (unlabelled m no_operands)
    else if is_itype_arithmetic m.name
    then parse_itype_arithmetic_instruction m
    else if is_rtype m.name
    then parse_rtype_instruction m
    else if is_load_type m.name
    then parse_load_instruction m
    else if is_store_type m.name
    then parse_store_instruction m
    else if is_utype m.name
    then parse_utype_instruction m
    else if name_eq m.name Mnemonic.jalr
    then parse_jalr_instruction m
    else if name_eq m.name Mnemonic.jal
    then parse_jal_instruction m
    else fail (unknown_mnemonic (Mnemonic.to_str m)) col

-- The end of `parse_directive`: the line should end here.
abbrev pub end_of_directive : (ℕ → Line) → ℤ → Parser → Option Line × Parser
end_of_directive directive value p = elim (peek p) [
  | some t ↦ throw_unexpected_token (codes "End of line") t p
  | none ↦ (some (directive (to_u32 value)), p)
]

-- `parse_directive`, behind the `chop` of the directive, whose text is `name`.
unfoldable pub parse_directive : Text → (ℕ → Line) → Method Line
parse_directive name directive = do
  number ← expect immediate_kind []
  let value = as_immediate number
  if ltb_pos value 1
      then fail (invalid_count name value) number.col
      else end_of_directive directive value

-- The end of `parse_line` behind an instruction, whose mnemonic stood in column `col`.
abbrev pub end_of_instruction : Option Text → ℕ → Instruction → Method Line
end_of_instruction label col i p = elim (peek p) [
  | none ↦ (some (instruction (record i { label = label })), p)
  | some t ↦ fail (expected_end_of_line (token_to_str t.token_type)) col p
]

-- `parse_line` behind the label, at the token `t`, which is still to be chopped.
unfoldable pub parse_labelled : Option Text → Token → TokenType → Method Line
unfolding token_to_str
parse_labelled label t (Token.mnemonic m) = do
  mnemonic ← chop
  i ← parse_instruction m t.col
  end_of_instruction label t.col i
parse_labelled label t other =
    fail (expected_mnemonic_or_directive (token_to_str t.token_type)) t.col

-- `parse_line` behind a label `name`.
abbrev pub behind_label : Text → Parser → Option Line × Parser
behind_label name p = elim (peek p) [
  | none ↦ (some (just_label name), p)
  | some t ↦ parse_labelled (some name) t t.token_type p
]

-- `parse_line` at its first token `t`.
unfoldable pub parse_first : Token → TokenType → Method Line
unfolding token_to_str
parse_first t Token.blocks_directive = do
  directive ← chop
  parse_directive (token_to_str Token.blocks_directive) blocks_directive
parse_first t Token.warps_directive = do
  directive ← chop
  parse_directive (token_to_str Token.warps_directive) warps_directive
parse_first t (Token.label name) = do directive ← chop; behind_label name
parse_first t other = parse_labelled none t other

-- The method `parse_line`.
unfoldable pub parse_line_at : Option Token → Method Line
parse_line_at none p = (none, p)
parse_line_at (some t) p = parse_first t t.token_type p

pub data ParsedLine : Type 0 where
  ok : Line → ParsedLine
  errs : List Error → ParsedLine

abbrev pub finish_line : Option Line × Parser → ParsedLine
finish_line (some l, p) = ok l
finish_line (none, p) = errs p.errors

-- The function `parse_line`: a parser on the tokens, and its result or its errors.
unfoldable pub parse_line : List Token → ParsedLine
unfolding parse_line_at parse_first parse_directive parse_labelled parse_instruction
    parse_itype_arithmetic_instruction parse_rtype_instruction parse_load_instruction
    parse_store_instruction parse_utype_instruction parse_jalr_instruction parse_jal_instruction
    jalr_target expect is_of_type check_register_correct_type Register.is_scalar Mnemonic.is_scalar
    name_eq
parse_line tokens =
    let p : Parser = record { tokens = tokens; errors = [] } in
    finish_line (parse_line_at (peek p) p)
