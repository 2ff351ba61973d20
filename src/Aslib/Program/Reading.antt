-- ===== src/Aslib/Program/Reading.antt =====
-- A file that is assembled: its lines, and what the program is.
use smol_gpu.Prelude.{
  ℕ, ◌+◌, ◌^◌, ◌<◌, ◌≡◌, ◌⊎◌, inl, inr, refl, sym, ap, subst, Option, none, some, List, [], ◌∷◌,
  arith, Text, All,
}
use mathlib.Core.Option
use native.Mathlib.Nat.{zero-add}
use smol_gpu.Prelude.Word.{u32}
use smol_gpu.Prelude.Checked.{some-injective, bind-eq-some}
use smol_gpu.Aslib.Error.{Error}
use smol_gpu.Aslib.Token.{Token}
use smol_gpu.Aslib.Lexer.{collect_tokens}
use smol_gpu.Aslib.Syntax.{Line, Program}
use smol_gpu.Aslib.Parser.{ParsedLine, ok, errs, parse_line}
use smol_gpu.Aslib.Parser.Lines.{Reports, parse_line-Reports, IsAccepted}
use smol_gpu.Aslib.Labels.{lookup}
use smol_gpu.Aslib.Program.{
  State, initial, report_all, visit, visit_parsed, handle_tokens, next_line, handle_lexed,
  handle_line, handle_lines, ParsedProgram, parsed, finish_with, finish, value_or, parse_program,
}
use smol_gpu.Aslib.Program.Layout.{
  Reads, done, blank, line, instructions_of, Declares, blocks_from, warps_from,
}
use smol_gpu.Aslib.Program.Visit.{visit-Step}
use smol_gpu.Aslib.Program.Extension.{Extends, nothing-Extends, cons-Extends}
use smol_gpu.Aslib.Program.Grows.{
  report_all-Grows, refused, visit-Grows, handle_line-eq_some, handle_lines-Grows,
}

-- The file's lines, and what they make of `s`.
abbrev Assembles : List Text → State → State → Type 0
Assembles texts s t = (ls : List Line) × Reads texts ls × All IsAccepted ls × Extends s ls t

-- The errors and the number of the line are of no account.
before-Extends :
    (s t : State) (es : List Error) (ls : List Line)
    → Extends (report_all es (next_line s)) ls t
    → Extends s ls t
before-Extends s t es ls h = record {
  instructions_are = h.instructions_are;
  keeps = h.keeps;
  declares = h.declares;
  declared = h.declared;
  blocks_are = h.blocks_are;
  warps_are = h.warps_are;
}

read_line :
    (text : Text) (texts : List Text) (s t : State) (ts : List Token) (es : List Error)
    → collect_tokens text ≡ some (ts, es)
    → s.instr_count < 2 ^ 32
    → (handle_lexed (next_line s) (ts, es)).errors ≡ []
    → ((handle_lexed (next_line s) (ts, es)).instr_count < 2 ^ 32
        → Assembles texts (handle_lexed (next_line s) (ts, es)) t)
    → Assembles (text ∷ texts) s t
unfolding handle_tokens
read_line text texts s t [] es lexed counting clean rest =
    let (ls, reads, accepted, ext) = rest counting in
    (
      ls,
      blank (rw ((report_all-Grows es (next_line s) clean).1) at lexed) reads,
      accepted,
      before-Extends s t es ls ext,
    )
read_line text texts s t (u ∷ ts) es lexed counting clean rest =
    go (parse_line (u ∷ ts)) refl clean rest
  where
    s0 : State
    s0 = report_all es (next_line s)

    go :
        (r : ParsedLine)
        → parse_line (u ∷ ts) ≡ r
        → (visit_parsed r s0).errors ≡ []
        → ((visit_parsed r s0).instr_count < 2 ^ 32 → Assembles texts (visit_parsed r s0) t)
        → Assembles (text ∷ texts) s t
    go (ok l) e k f =
        let step = visit-Step l s0 counting k in
        let (ls, reads, accepted, ext) = f (omega (arith, step.count_is)) in
        let none_new = (report_all-Grows es (next_line s) (visit-Grows l s0 k)).1 in
        let good = subst Reports e (parse_line-Reports u ts) in
        (
          l ∷ ls,
          line (rw none_new at lexed) e reads,
          (good, accepted),
          before-Extends s t es (l ∷ ls) (cons-Extends s0 l (visit l s0) ls t step ext counting),
        )
    go (errs fs) e k f = absurd (refused fs s0 (subst Reports e (parse_line-Reports u ts)) k)

handle_lines-Assembles :
    (texts : List Text) (s t : State)
    → handle_lines texts s ≡ some t
    → s.instr_count < 2 ^ 32
    → t.errors ≡ []
    → Assembles texts s t
unfolding handle_lines
handle_lines-Assembles [] s t h counting clean =
    ([], done, tt, subst (Extends s []) (some-injective h) (nothing-Extends s))
handle_lines-Assembles (text ∷ texts) s t h counting clean =
    let (s1, first, others) = bind-eq-some (handle_line text s) (handle_lines texts) h in
    let ((ts, es), read, made) = handle_line-eq_some text s first in
    let clean1 =
      subst (λ (x : State). x.errors ≡ []) (sym made)
        (handle_lines-Grows texts s1 t others clean) in
    read_line text texts s t ts es read counting clean1 λ c.
      subst (λ (x : State). Assembles texts x t) (sym made)
        (handle_lines-Assembles texts s1 t others
          (subst (λ (x : State). x.instr_count < 2 ^ 32) made c) clean)

-- What a program is, for the lines of its file.
pub record IsProgramOf (ls : List Line) (p : Program) : Type 0 where
  pub instructions_are : p.instructions ≡ instructions_of ls
  pub declares :
      (name : Text) (k : ℕ) → Declares ls name k → lookup name p.label_mappings ≡ some (u32 k)
  pub declared :
      (name : Text) (v : ℕ)
      → lookup name p.label_mappings ≡ some v
      → (k : ℕ) × Declares ls name k × (v ≡ u32 k)
  pub blocks_are : p.blocks ≡ value_or (blocks_from none ls) 1
  pub warps_are : p.warps ≡ value_or (warps_from none ls) 1

program_of :
    (ls : List Line) (t : State)
    → Extends initial ls t
    → (p : Program) → finish_with [] t ≡ parsed p
    → IsProgramOf ls p
unfolding lookup
program_of ls t ext p e = subst (IsProgramOf ls) (cc e) (record {
  instructions_are = ext.instructions_are;
  declares = λ name k h. rw zero-add at (ext.declares name k h);
  declared = λ name v h. from_start name v (ext.declared name v h);
  blocks_are = ap (λ (o : Option ℕ). value_or o 1) ext.blocks_are;
  warps_are = ap (λ (o : Option ℕ). value_or o 1) ext.warps_are;
})
  where
    from_start :
        (name : Text) (v : ℕ)
        → (lookup name [] ≡ some v) ⊎ ((k : ℕ) × Declares ls name k × (v ≡ u32 (0 + k)))
        → (k : ℕ) × Declares ls name k × (v ≡ u32 k)
    from_start name v (inl before) = cc
    from_start name v (inr (k, there, e)) = (k, there, omega (arith, e))

-- The program that is returned is that of a state without errors.
pub finished :
    (t : State) (errors : List Error) (p : Program)
    → finish_with errors t ≡ parsed p
    → (errors ≡ []) × (finish_with [] t ≡ parsed p)
finished t [] p h = (refl, h)
finished t (e ∷ es) p h = cc

pub map-eq_some :
    (r : Option State) {p : ParsedProgram}
    → Option.map finish r ≡ some p
    → (t : State) × (r ≡ some t) × (finish t ≡ p)
map-eq_some none h = cc
map-eq_some (some t) h = (t, refl, some-injective h)

-- A program that `parse_program` returns is that of the file's lines: each line of the file is blank
-- or parsed to an accepted line of the syntax; the instructions are those of these lines, in order;
-- each label is bound to the number of instructions before it, as a `uint32_t`, and no other label
-- is bound; the counts of blocks and warps are those of their directives, or 1.
pub parse_program-IsProgramOf :
    (texts : List Text) (p : Program)
    → parse_program texts ≡ some (parsed p)
    → (ls : List Line) × Reads texts ls × All IsAccepted ls × IsProgramOf ls p
unfolding parse_program
parse_program-IsProgramOf texts p h =
    let (t, ran, made) = map-eq_some (handle_lines texts initial) h in
    let (clean, returned) = finished t t.errors p made in
    let (ls, reads, accepted, ext) =
      handle_lines-Assembles texts initial t ran (omega arith) clean in
    (ls, reads, accepted, program_of ls t ext p returned)
