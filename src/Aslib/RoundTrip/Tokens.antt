-- ===== src/Aslib/RoundTrip/Tokens.antt =====
-- The tokens of a line of the syntax.
use smol_gpu.Prelude.{ℕ, suc, ◌<◌, ◌≤◌, ◌^◌, Option, none, some, List, [], ◌∷◌, Text}
use smol_gpu.Prelude.Int.{ℤ, pos}
use smol_gpu.Isa.Register.{Register}
use smol_gpu.Aslib.Token
use smol_gpu.Aslib.Token.{TokenType, Token, Kind, register_kind, comma_kind, is_of_type, holds}
use smol_gpu.Aslib.Syntax.{
  Operands, Instruction, Line, ImmediateOrLabelref, itype, rtype, stype, utype, jtype, jalr,
  just_label, blocks_directive, warps_directive, instruction,
}
use smol_gpu.Aslib.Parser.Format.{Format, format, IsWellFormed, bare, load, branch}

abbrev pub address_types : ℤ → Register → List TokenType
address_types offset base =
    Token.immediate offset ∷ Token.lparen ∷ Token.register base ∷ Token.rparen ∷ []

-- The tokens of operands in the format of their mnemonic.
abbrev pub operand_types : Format → Operands → List TokenType
operand_types load (itype rd rs1 imm) = Token.register rd ∷ Token.comma ∷ address_types imm rs1
operand_types f (itype rd rs1 imm) =
    Token.register rd ∷ Token.comma ∷ Token.register rs1 ∷ Token.comma ∷ Token.immediate imm ∷ []
operand_types f (rtype rd rs1 rs2) =
    Token.register rd ∷ Token.comma ∷ Token.register rs1 ∷ Token.comma ∷ Token.register rs2 ∷ []
operand_types f (stype rs1 rs2 imm) = Token.register rs2 ∷ Token.comma ∷ address_types imm rs1
operand_types f (utype rd imm) = Token.register rd ∷ Token.comma ∷ Token.immediate imm ∷ []
operand_types f (jtype rd imm) = Token.register rd ∷ Token.comma ∷ Token.immediate imm ∷ []
operand_types f (jalr rd rs1 (ImmediateOrLabelref.label_ref name)) =
    Token.register rd ∷ Token.comma ∷ Token.label_ref name ∷ []
operand_types f (jalr rd rs1 (ImmediateOrLabelref.immediate offset)) =
    Token.register rd ∷ Token.comma ∷ address_types offset rs1

-- The tokens, each in some column.
abbrev pub placed : List TokenType → (ℕ → ℕ) → List Token
placed [] col = []
placed (t ∷ ts) col = record { token_type = t; col = col 0 } ∷ placed ts (λ i. col (suc i))

-- A format with operands.
abbrev pub HasOperands : Format → Type 0
HasOperands bare = ⊥
HasOperands branch = ⊥
HasOperands _ = Unit

abbrev pub instruction_types : Instruction → List TokenType
instruction_types i = Token.mnemonic i.mnemonic ∷ operand_types (format i.mnemonic.name) i.operands

abbrev pub labelled_types : Option Text → List TokenType → List TokenType
labelled_types none ts = ts
labelled_types (some name) ts = Token.label name ∷ ts

-- The tokens of a line.
abbrev pub line_types : Line → List TokenType
line_types (just_label name) = Token.label name ∷ []
line_types (blocks_directive n) = Token.blocks_directive ∷ Token.immediate (pos n) ∷ []
line_types (warps_directive n) = Token.warps_directive ∷ Token.immediate (pos n) ∷ []
line_types (instruction i) = labelled_types i.label (instruction_types i)

-- A line of the syntax: a well-formed instruction of a mnemonic that has operands, a count from 1 to
-- below 2^31.
abbrev pub IsLine : Line → Type 0
IsLine (just_label name) = Unit
IsLine (blocks_directive n) = (1 ≤ n) × (n < 2 ^ 31)
IsLine (warps_directive n) = (1 ≤ n) × (n < 2 ^ 31)
IsLine (instruction i) = IsWellFormed i × HasOperands (format i.mnemonic.name)
