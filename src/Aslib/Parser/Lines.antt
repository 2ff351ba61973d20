-- ===== src/Aslib/Parser/Lines.antt =====
-- Whole lines: what `parse_line` accepts, and what it reports.
use smol_gpu.Prelude.{ℕ, ◌≡◌, Option, none, some, List, [], ◌∷◌, refl, Text}
use smol_gpu.Prelude.Int.{ℤ, ltb_pos}
use smol_gpu.Isa.Mnemonic.{Mnemonic}
use smol_gpu.Aslib.Error.{Error}
use smol_gpu.Aslib.Token
use smol_gpu.Aslib.Token.{TokenType, Token, immediate_kind}
use smol_gpu.Aslib.Syntax.{Instruction, Line, blocks_directive, warps_directive, instruction}
use smol_gpu.Aslib.Parser.{
  Parser, expect, as_immediate, parse_instruction, parse_directive, end_of_directive,
  end_of_instruction, behind_label, parse_labelled, parse_first, ParsedLine, ok, errs, finish_line,
  parse_line,
}
use smol_gpu.Aslib.Parser.Ensures.{Ensures, bind-Ensures, if-Ensures, expect-Ensures}
use smol_gpu.Aslib.Parser.Format.{IsWellFormed}
use smol_gpu.Aslib.Parser.Sound.{ParsesFormat, parse_instruction-Ensures}

-- What is promised of an accepted line.
abbrev pub IsAccepted : Line → Type 0
IsAccepted (instruction i) = IsWellFormed i
IsAccepted _ = Unit

IsWellFormed-of_ParsesFormat :
    (label : Option Text) (m : Mnemonic) (i : Instruction)
    → ParsesFormat m i
    → IsWellFormed (record i { label = label })
IsWellFormed-of_ParsesFormat label m i (same, fits) = record { fits = rw same fits }

end_of_instruction-Ensures :
    (label : Option Text) (col : ℕ) (i : Instruction) (es : List Error) (ts : List Token)
    → IsWellFormed (record i { label = label })
    → Ensures IsAccepted
        (record { tokens = ts; errors = es })
        (end_of_instruction label col i (record { tokens = ts; errors = es }))
end_of_instruction-Ensures label col i es [] h = (h, refl)
end_of_instruction-Ensures label col i es (t ∷ ts) h = (_, refl)

parse_labelled-Ensures :
    (label : Option Text) (t : Token) (type : TokenType) (ts : List Token) (es : List Error)
    → let p : Parser = record { tokens = t ∷ ts; errors = es } in
      Ensures IsAccepted p (parse_labelled label t type p)
unfolding parse_labelled
parse_labelled-Ensures label t (Token.mnemonic m) ts es =
    bind-Ensures (ParsesFormat m) IsAccepted (parse_instruction m t.col)
      (end_of_instruction label t.col) (record { tokens = ts; errors = es })
      (parse_instruction-Ensures m.name m.has_s_prefix t.col _)
      λ i q h.
        end_of_instruction-Ensures label t.col i q.errors q.tokens
          (IsWellFormed-of_ParsesFormat label m i h)
parse_labelled-Ensures label t _ ts es = (_, refl)

behind_label-Ensures :
    (name : Text) (ts : List Token) (es : List Error)
    → let p : Parser = record { tokens = ts; errors = es } in
      Ensures IsAccepted p (behind_label name p)
behind_label-Ensures name [] es = (tt, refl)
behind_label-Ensures name (t ∷ ts) es = parse_labelled-Ensures (some name) t t.token_type ts es

end_of_directive-Ensures :
    (directive : ℕ → Line) (value : ℤ) (ts : List Token) (es : List Error)
    → ((n : ℕ) → IsAccepted (directive n))
    → let p : Parser = record { tokens = ts; errors = es } in
      Ensures IsAccepted p (end_of_directive directive value p)
end_of_directive-Ensures directive value [] es h = (h _, refl)
end_of_directive-Ensures directive value (t ∷ ts) es h = (_, refl)

parse_directive-Ensures :
    (name : Text) (directive : ℕ → Line) (p : Parser)
    → ((n : ℕ) → IsAccepted (directive n))
    → Ensures IsAccepted p (parse_directive name directive p)
unfolding parse_directive
parse_directive-Ensures name directive p h =
    bind-Ensures _ IsAccepted (expect immediate_kind []) _ p (expect-Ensures immediate_kind [] p)
      λ number q _.
        if-Ensures IsAccepted (ltb_pos (as_immediate number) 1) _ _ q (λ small. (_, refl))
          (λ large. end_of_directive-Ensures directive (as_immediate number) q.tokens q.errors h)

parse_first-Ensures :
    (t : Token) (type : TokenType) (ts : List Token) (es : List Error)
    → let p : Parser = record { tokens = t ∷ ts; errors = es } in
      Ensures IsAccepted p (parse_first t type p)
unfolding parse_first
parse_first-Ensures t Token.blocks_directive ts es =
    parse_directive-Ensures _ blocks_directive (record { tokens = ts; errors = es }) (λ n. tt)
parse_first-Ensures t Token.warps_directive ts es =
    parse_directive-Ensures _ warps_directive (record { tokens = ts; errors = es }) (λ n. tt)
parse_first-Ensures t (Token.label name) ts es = behind_label-Ensures name ts es
parse_first-Ensures t _ ts es = parse_labelled-Ensures none t _ ts es

-- What `parse_line` returns for a line with tokens: an accepted line, or one error.
abbrev pub Reports : ParsedLine → Type 0
Reports (ok l) = IsAccepted l
Reports (errs es) = (e : Error) × (es ≡ e ∷ [])

finish_line-Reports :
    (p : Parser) (r : Option Line × Parser)
    → p.errors ≡ []
    → Ensures IsAccepted p r
    → Reports (finish_line r)
finish_line-Reports p (some l, q) none_yet (h, same) = h
finish_line-Reports p (none, q) none_yet (e, one) = (e, rw none_yet at one)

-- A line with tokens is accepted, an instruction then with the operands of its mnemonic in registers of
-- the right class, or it is refused with exactly one error.
pub parse_line-Reports : (t : Token) (ts : List Token) → Reports (parse_line (t ∷ ts))
unfolding parse_line
parse_line-Reports t ts =
    finish_line-Reports (record { tokens = t ∷ ts; errors = [] }) _ refl
      (parse_first-Ensures t t.token_type ts [])
