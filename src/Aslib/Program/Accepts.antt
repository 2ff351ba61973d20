-- ===== src/Aslib/Program/Accepts.antt =====
-- Which files are assembled: those whose lines are all read and do not clash.
use smol_gpu.Prelude.{
  ◌≡◌, ◌↔◌, refl, sym, subst, ◌∙◌, Bool, true, false, not, ◌&&◌, some, List, [], ◌∷◌, Text, All,
  arith, append-nil,
}
use smol_gpu.Prelude.Checked.{bind-eq-some}
use smol_gpu.Aslib.Error.{Error}
use smol_gpu.Aslib.Token.{Token}
use smol_gpu.Aslib.Lexer.{collect_tokens}
use smol_gpu.Aslib.Syntax.{Line, Program}
use smol_gpu.Aslib.Parser.{ParsedLine, ok, errs, parse_line}
use smol_gpu.Aslib.Parser.Lines.{Reports, parse_line-Reports}
use smol_gpu.Aslib.Program.{
  State, initial, report_all, visit, visit_parsed, handle_tokens, next_line, handle_lexed,
  handle_line, handle_lines, parsed, parse_program,
}
use smol_gpu.Aslib.Program.Layout.{Reads, done, blank, line}
use smol_gpu.Aslib.Program.Grows.{
  report_all-Grows, refused, visit-Grows, handle_line-eq_some, handle_lines-Grows,
}
use smol_gpu.Aslib.Program.Reading.{finished, map-eq_some}
use smol_gpu.Aslib.Program.Distinct.{
  clash, AreDistinct, is_free, visit-clean, IsVisited, visit-IsVisited, initially_free,
}

-- Nothing in the lines is declared yet, and they do not clash.
abbrev Fits : State → List Line → Type 0
Fits s ls = All (λ l. is_free s l ≡ true) ls × AreDistinct ls

both : (a b c : Bool) → c ≡ (a && not b) → (c ≡ true) ↔ ((a ≡ true) × (b ≡ false))
both a b c e = ground (arith, e)

-- What is free behind a line was free before it and does not clash with it.
All-both :
    (l : Line) (s t : State) (ls : List Line)
    → IsVisited l s t
    → All (λ m. is_free t m ≡ true) ls
      ↔ (All (λ m. is_free s m ≡ true) ls × All (λ m. clash l m ≡ false) ls)
All-both l s t [] h = (λ x. (tt, tt), λ x. tt)
All-both l s t (m ∷ ms) h =
    let one = both (is_free s m) (clash l m) (is_free t m) (h.free_are m) in
    let rest = All-both l s t ms h in
    (
      λ (here, later). (((one.0 here).0, (rest.0 later).0), ((one.0 here).1, (rest.0 later).1)),
      λ ((free, frees), (apart, aparts)). (one.1 (free, apart), rest.1 (frees, aparts)),
    )

cons-Fits :
    (l : Line) (s t : State) (ls : List Line)
    → IsVisited l s t
    → is_free s l ≡ true
    → Fits s (l ∷ ls) ↔ Fits t ls
cons-Fits l s t ls h free =
    let each = All-both l s t ls h in
    (
      λ ((here, frees), (apart, distinct)). (each.1 (frees, apart), distinct),
      λ (frees, distinct). ((free, (each.0 frees).0), ((each.0 frees).1, distinct)),
    )

-- The lines of the file are read, and fit the state.
abbrev Reading : List Text → State → Type 0
Reading texts s = (ls : List Line) × Reads texts ls × Fits s ls

read_line :
    (text : Text) (texts : List Text) (s : State) (ts : List Token) (es : List Error)
    → collect_tokens text ≡ some (ts, es)
    → (handle_lexed (next_line s) (ts, es)).errors ≡ []
    → Reading texts (handle_lexed (next_line s) (ts, es))
    → Reading (text ∷ texts) s
unfolding handle_tokens
read_line text texts s [] es lexed clean (ls, reads, fits) =
    (ls, blank (rw ((report_all-Grows es (next_line s) clean).1) at lexed) reads, fits)
read_line text texts s (u ∷ ts) es lexed clean rest = go (parse_line (u ∷ ts)) refl clean rest
  where
    s0 : State
    s0 = report_all es (next_line s)

    go :
        (r : ParsedLine)
        → parse_line (u ∷ ts) ≡ r
        → (visit_parsed r s0).errors ≡ []
        → Reading texts (visit_parsed r s0)
        → Reading (text ∷ texts) s
    go (ok l) e k (ls, reads, fits) =
        let free = visit-clean l s0 k in
        let none_new = (report_all-Grows es (next_line s) (visit-Grows l s0 k)).1 in
        (
          l ∷ ls,
          line (rw none_new at lexed) e reads,
          (cons-Fits l s0 _ ls (visit-IsVisited l s0 free) free).1 fits,
        )
    go (errs fs) e k rest = absurd (refused fs s0 (subst Reports e (parse_line-Reports u ts)) k)

-- A state that `handle_lines` leads to without errors.
abbrev Clean : List Text → State → Type 0
Clean texts s = (t : State) × (handle_lines texts s ≡ some t) × (t.errors ≡ [])

Clean-Reading : (texts : List Text) (s : State) → Clean texts s → Reading texts s
unfolding handle_lines
Clean-Reading [] s (t, h, clean) = ([], done, (tt, tt))
Clean-Reading (text ∷ texts) s (t, h, clean) =
    let (s1, first, others) = bind-eq-some (handle_line text s) (handle_lines texts) h in
    let ((ts, es), read, made) = handle_line-eq_some text s first in
    let clean1 =
      subst (λ (x : State). x.errors ≡ []) (sym made)
        (handle_lines-Grows texts s1 t others clean) in
    read_line text texts s ts es read clean1 (
      subst (λ (x : State). Reading texts x) (sym made) (Clean-Reading texts s1 (t, others, clean)))

no_errors : (s : State) → s.errors ≡ [] → (report_all [] s).errors ≡ []
no_errors s h = append-nil s.errors ∙ h

Reads-Clean :
    {texts : List Text} {ls : List Line}
    → Reads texts ls
    → (s : State) → Fits s ls
    → s.errors ≡ []
    → Clean texts s
unfolding handle_lines handle_line handle_tokens
Reads-Clean done s fits clean = (s, refl, clean)
Reads-Clean (blank lexed reads) s fits clean =
    rw lexed (Reads-Clean reads (report_all [] (next_line s)) fits (no_errors s clean))
Reads-Clean (line {l} {ls} lexed read reads) s fits clean =
    let s0 : State = report_all [] (next_line s) in
    let free : is_free s0 l ≡ true = fits.0.0 in
    let visited = visit-IsVisited l s0 free in
    rw (lexed, read)
      (Reads-Clean reads (visit l s0) ((cons-Fits l s0 _ ls visited free).0 fits)
        (visited.errors_are ∙ no_errors s clean))

All-is_free : (ls : List Line) → All (λ l. is_free initial l ≡ true) ls
All-is_free [] = tt
All-is_free (l ∷ ls) = (initially_free l, All-is_free ls)

-- `parse_program` returns a program exactly where each line of the file is blank or read as a line of
-- the syntax, without an error of the lexer or the parser, and no two of these have the same label, both
-- are `.blocks` or both are `.warps`.
pub parse_program_iff :
    (texts : List Text)
    → ((p : Program) × (parse_program texts ≡ some (parsed p)))
      ↔ ((ls : List Line) × Reads texts ls × AreDistinct ls)
unfolding parse_program
parse_program_iff texts = (
  λ (p, h).
      let (t, ran, made) = map-eq_some (handle_lines texts initial) h in
      let (clean, returned) = finished t t.errors p made in
      let (ls, reads, fits) = Clean-Reading texts initial (t, ran, clean) in (ls, reads, fits.1),
  λ (ls, reads, distinct).
      let (t, ran, clean) = Reads-Clean reads initial (All-is_free ls, distinct) refl in
      rw (ran, clean) (_, refl),
)
