-- ===== src/Aslib/RoundTrip/Lines.antt =====
-- A line that is printed is read as the line it was.
use smol_gpu.Prelude.{
  ◌<◌, ◌≡◌, ◌^◌, refl, sym, subst, ◌∙◌, Bool, true, false, Option, none, some, List, [], ◌∷◌, ◌++◌,
  Text, codes, append-nil, append_assoc,
}
use smol_gpu.Prelude.Decimal.{decimal_ℤ}
use smol_gpu.Prelude.Int.{ℤ, pos, IsInt32}
use smol_gpu.Isa.Register
use smol_gpu.Isa.Register.{Register}
use smol_gpu.Isa.Mnemonic
use smol_gpu.Isa.Mnemonic.{MnemonicName, Mnemonic, name_eq}
use smol_gpu.Aslib.Token
use smol_gpu.Aslib.Token.{TokenType, Token}
use smol_gpu.Aslib.Lexer.{is_keyword_char, collect_tokens}
use smol_gpu.Aslib.Syntax.{
  Operands, Line, ImmediateOrLabelref, itype, rtype, stype, utype, jtype, jalr, just_label,
  blocks_directive, warps_directive, instruction, is_load_type, operand_to_string, address_to_str,
  operands_to_str, instruction_to_str, line_to_str, label_to_str,
}
use smol_gpu.Aslib.Parser.{ok, parse_line}
use smol_gpu.Aslib.Parser.Format.{
  Format, format, OperandsFit, scalar_sources, bare, register_immediate, three_registers, load,
  store, upper, jump, jump_register, branch,
}
use smol_gpu.Aslib.RoundTrip.Tokens.{
  address_types, operand_types, HasOperands, line_types, IsLine, placed,
}
use smol_gpu.Aslib.RoundTrip.Parsing.{parse_line-line_types}
use smol_gpu.Aslib.RoundTrip.Lexing.{
  Delimits, Gives, Lexes, nil-Lexes, cons-Lexes, space-Lexes, comma-Gives, lparen-Gives,
  rparen-Gives, Lexes-collect_tokens,
}
use smol_gpu.Aslib.RoundTrip.Numbers.{number-Gives}
use smol_gpu.Aslib.RoundTrip.Words.{mnemonic-Gives}
use smol_gpu.Aslib.RoundTrip.Names.{
  IsLabel, IsReference, label-Gives, label_ref-Gives, blocks-Gives, warps-Gives,
}
use smol_gpu.Aslib.RoundTrip.Registers.{register-Gives}

-- A register whose number fits an `int32_t`.
abbrev pub IsSmall : Register → Type 0
IsSmall r = r.register_number < 2 ^ 31

-- What the printer puts behind words and numbers ends them.
space-Delimits : (s : Text) → Delimits (b' ' ∷ s)
unfolding is_keyword_char
space-Delimits s = refl

comma-Delimits : (s : Text) → Delimits (b',' ∷ s)
unfolding is_keyword_char
comma-Delimits s = refl

lparen-Delimits : (s : Text) → Delimits (b'(' ∷ s)
unfolding is_keyword_char
lparen-Delimits s = refl

rparen-Delimits : (s : Text) → Delimits (b')' ∷ s)
unfolding is_keyword_char
rparen-Delimits s = refl

-- One token and the end of the line.
last-Lexes : {s : Text} {t : TokenType} → Gives (s ++ []) t [] → Lexes s (t ∷ [])
last-Lexes {s} {t} h = cons-Lexes (subst (λ (x : Text). Gives x t []) (append-nil s) h) nil-Lexes

-- A register and a comma, in front of what is read.
register-comma-Lexes :
    {r : Register} {s : Text} {ts : List TokenType}
    → IsSmall r
    → Lexes s ts
    → Lexes (Register.to_str r ++ (codes ", " ++ s)) (Token.register r ∷ Token.comma ∷ ts)
register-comma-Lexes {r} {s} {ts} small h =
    cons-Lexes (register-Gives r (codes ", " ++ s) small (comma-Delimits (b' ' ∷ s)))
      (cons-Lexes (comma-Gives (b' ' ∷ s)) (space-Lexes h))

register-Lexes : (r : Register) → IsSmall r → Lexes (Register.to_str r) (Token.register r ∷ [])
register-Lexes r small = last-Lexes (register-Gives r [] small tt)

number-Lexes : (z : ℤ) → IsInt32 z → Lexes (decimal_ℤ z) (Token.immediate z ∷ [])
number-Lexes z small = last-Lexes (number-Gives z [] small tt)

address-Lexes :
    (z : ℤ) (r : Register) → IsInt32 z → IsSmall r → Lexes (address_to_str z r) (address_types z r)
unfolding address_to_str
address-Lexes z r fits small =
    cons-Lexes (number-Gives z _ fits (lparen-Delimits (Register.to_str r ++ codes ")"))) (
      cons-Lexes (lparen-Gives _) (
        cons-Lexes (register-Gives r (codes ")") small (rparen-Delimits []))
          (cons-Lexes (rparen-Gives []) nil-Lexes)))

-- Operands that the printer keeps apart: the numbers fit an `int32_t`, and so do their negations; a
-- label is a reference where it is read.
abbrev pub AreReadable : Operands → Type 0
AreReadable (itype rd rs1 imm) = IsSmall rd × IsSmall rs1 × IsInt32 imm
AreReadable (rtype rd rs1 rs2) = IsSmall rd × IsSmall rs1 × IsSmall rs2
AreReadable (stype rs1 rs2 imm) = IsSmall rs1 × IsSmall rs2 × IsInt32 imm
AreReadable (utype rd imm) = IsSmall rd × IsInt32 imm
AreReadable (jtype rd imm) = IsSmall rd × IsInt32 imm
AreReadable (jalr rd rs1 (ImmediateOrLabelref.immediate offset)) =
    IsSmall rd × IsSmall rs1 × IsInt32 offset
AreReadable (jalr rd rs1 (ImmediateOrLabelref.label_ref name)) = IsSmall rd × IsReference name

abbrev is_load : Format → Bool
is_load load = true
is_load _ = false

is_load_type-format : (n : MnemonicName) → is_load_type n ≡ is_load (format n)
unfolding is_load_type name_eq
is_load_type-format Mnemonic.lui = refl
is_load_type-format _ = refl

-- The printed operands are read as the tokens of their format.
operands-Lexes :
    (f : Format) (n : MnemonicName) (dest source : Bool) (o : Operands)
    → format n ≡ f
    → HasOperands f
    → OperandsFit f dest source o
    → AreReadable o
    → Lexes (operands_to_str n o) (operand_types f o)
unfolding operands_to_str operand_to_string
operands-Lexes register_immediate n d s (itype rd rs1 imm) is h fit (hd, h1, hi) =
    rw (is_load_type-format n, is)
      (register-comma-Lexes hd (register-comma-Lexes h1 (number-Lexes imm hi)))
operands-Lexes three_registers n d s (rtype rd rs1 rs2) is h fit (hd, h1, h2) =
    register-comma-Lexes hd (register-comma-Lexes h1 (register-Lexes rs2 h2))
operands-Lexes load n d s (itype rd rs1 imm) is h fit (hd, h1, hi) =
    rw (is_load_type-format n, is) (register-comma-Lexes hd (address-Lexes imm rs1 hi h1))
operands-Lexes store n d s (stype rs1 rs2 imm) is h fit (h1, h2, hi) =
    register-comma-Lexes h2 (address-Lexes imm rs1 hi h1)
operands-Lexes upper n d s (utype rd imm) is h fit (hd, hi) =
    register-comma-Lexes hd (number-Lexes imm hi)
operands-Lexes jump n d s (jtype rd imm) is h fit (hd, hi) =
    register-comma-Lexes hd (number-Lexes imm hi)
operands-Lexes jump_register n d s (jalr rd rs1 (ImmediateOrLabelref.immediate offset)) is h fit
      (hd, h1, hi) =
    register-comma-Lexes hd (address-Lexes offset rs1 hi h1)
operands-Lexes jump_register n d s (jalr rd rs1 (ImmediateOrLabelref.label_ref name)) is h fit
      (hd, reference) =
    register-comma-Lexes hd (last-Lexes (label_ref-Gives name [] reference tt))
operands-Lexes bare n d s o is h fit r = absurd h
operands-Lexes branch n d s o is h fit r = absurd h
operands-Lexes _ n d s o is h fit r = absurd fit

-- A mnemonic and its operands.
instruction-Lexes :
    (m : Mnemonic) (o : Operands)
    → HasOperands (format m.name)
    → OperandsFit (format m.name) (Mnemonic.is_scalar m) (scalar_sources m) o
    → AreReadable o
    → Lexes
        (Mnemonic.to_str m ++ (codes " " ++ operands_to_str m.name o))
        (Token.mnemonic m ∷ operand_types (format m.name) o)
instruction-Lexes m o h fit r =
    cons-Lexes (mnemonic-Gives m _ (space-Delimits (operands_to_str m.name o)))
      (space-Lexes (operands-Lexes (format m.name) m.name _ _ o refl h fit r))

-- A label and a colon, a space and what is read behind it.
label-Lexes :
    (name s : Text) (ts : List TokenType)
    → IsLabel name
    → Lexes s ts
    → Lexes (label_to_str (some name) ++ s) (Token.label name ∷ ts)
label-Lexes name s ts h k =
    subst (λ (x : Text). Lexes x (Token.label name ∷ ts))
      (append_assoc name (codes ":") (b' ' ∷ s) ∙ sym (append_assoc name (codes ": ") s))
      (cons-Lexes (label-Gives name (b' ' ∷ s) h (space-Delimits s)) (space-Lexes k))

abbrev pub LabelIsReadable : Option Text → Type 0
LabelIsReadable none = Unit
LabelIsReadable (some name) = IsLabel name

-- What the printer needs of a line to keep its tokens apart.
abbrev pub IsReadable : Line → Type 0
IsReadable (just_label name) = IsLabel name
IsReadable (blocks_directive n) = Unit
IsReadable (warps_directive n) = Unit
IsReadable (instruction i) = LabelIsReadable i.label × AreReadable i.operands

-- A printed line is read as its tokens.
line-Lexes : (l : Line) → IsLine l → IsReadable l → Lexes (line_to_str l) (line_types l)
unfolding line_to_str instruction_to_str
line-Lexes (just_label name) h r = last-Lexes (label-Gives name [] r tt)
line-Lexes (blocks_directive n) (h, small) r =
    cons-Lexes (blocks-Gives _) (space-Lexes (number-Lexes (pos n) small))
line-Lexes (warps_directive n) (h, small) r =
    cons-Lexes (warps-Gives _) (space-Lexes (number-Lexes (pos n) small))
line-Lexes (instruction i) (formed, h) (named, r) = by_label i.label named
  where
    by_label :
        (label : Option Text)
        → LabelIsReadable label
        → Lexes
            (line_to_str (instruction (record i { label = label })))
            (line_types (instruction (record i { label = label })))
    by_label none named = instruction-Lexes i.mnemonic i.operands h formed.fits r
    by_label (some name) named =
        label-Lexes name _ _ named (instruction-Lexes i.mnemonic i.operands h formed.fits r)

-- A readable line that is printed is lexed without an error, and the parser makes the line of its
-- tokens.
pub parse_line-line_to_str :
    (l : Line)
    → IsLine l
    → IsReadable l
    → (tokens : List Token) × (collect_tokens (line_to_str l) ≡ some (tokens, []))
      × (parse_line tokens ≡ ok l)
parse_line-line_to_str l h r =
    let (col, e) = Lexes-collect_tokens (line_to_str l) (line_types l) (line-Lexes l h r) in
    (placed (line_types l) col, e, parse_line-line_types l h col)
