-- ===== src/Aslib/Program/ErrorLines.antt =====
-- The lines that the errors of `parse_program` name.
use smol_gpu.Prelude.{
  ℕ, suc, ◌+◌, ◌^◌, ◌<◌, ◌≤◌, ◌≡◌, refl, sym, subst, Bool, true, false, Option, none, some, List,
  [], ◌∷◌, ◌++◌, map, length, arith, Text, All, All-append, All-map,
}
use smol_gpu.Prelude.Checked.{bind-eq-some, some-injective}
use smol_gpu.Aslib.Error.{Error, Message, with_line}
use smol_gpu.Aslib.Token.{Token}
use smol_gpu.Aslib.Syntax.{Line, just_label, blocks_directive, warps_directive, instruction}
use smol_gpu.Aslib.Parser.{ParsedLine, ok, errs, parse_line}
use smol_gpu.Aslib.Program.{
  State, initial, report, report_all, add_new_label, add_label, add_optional_label, report_if_set,
  visit, visit_parsed, handle_tokens, next_line, handle_line, handle_lines, failed, finish_with,
  parse_program,
}
use smol_gpu.Aslib.Program.Grows.{handle_line-eq_some}
use smol_gpu.Aslib.Program.Reading.{map-eq_some}

-- The lines are counted from 1 to `n`.
abbrev pub Names : ℕ → Error → Type 0
Names n e = (1 ≤ e.line) × (e.line ≤ n)

-- Every error names one of the `s.line_nr` lines so far.
record IsInFile (n : ℕ) (s : State) : Type 0 where
  line_is : s.line_nr ≡ n
  errors_are : All (Names n) s.errors

report_all-IsInFile :
    (n : ℕ) (es : List Error) (s : State) → 1 ≤ n → IsInFile n s → IsInFile n (report_all es s)
report_all-IsInFile n es s first h = record {
  line_is = h.line_is;
  errors_are = All-append (Names n) s.errors (map (with_line s.line_nr) es) h.errors_are (each es);
}
  where
    each : (es : List Error) → All (Names n) (map (with_line s.line_nr) es)
    each [] = tt
    each (e ∷ es) = (rw h.line_is (first, omega arith), each es)

report-IsInFile :
    (n : ℕ) (message : Message) (s : State) → 1 ≤ n → IsInFile n s → IsInFile n (report message s)
report-IsInFile n message s first h = record {
  line_is = h.line_is;
  errors_are =
      All-append (Names n) s.errors _ h.errors_are (rw h.line_is ((first, omega arith), tt));
}

add_label-IsInFile :
    (n : ℕ) (b : Bool) (name : Text) (s : State)
    → 1 ≤ n
    → IsInFile n s
    → IsInFile n (add_new_label b name s)
add_label-IsInFile n true name s first h = report-IsInFile n _ s first h
add_label-IsInFile n false name s first h = record {
  line_is = h.line_is;
  errors_are = h.errors_are;
}

add_optional_label-IsInFile :
    (n : ℕ) (o : Option Text) (s : State)
    → 1 ≤ n
    → IsInFile n s
    → IsInFile n (add_optional_label o s)
unfolding add_label
add_optional_label-IsInFile n none s first h = h
add_optional_label-IsInFile n (some name) s first h = add_label-IsInFile n _ name s first h

report_if_set-IsInFile :
    (n : ℕ) (message : Message) (o : Option ℕ) (s : State)
    → 1 ≤ n
    → IsInFile n s
    → IsInFile n (report_if_set message o s)
report_if_set-IsInFile n message none s first h = h
report_if_set-IsInFile n message (some k) s first h = report-IsInFile n message s first h

-- The fields that an error has nothing to do with.
same-IsInFile :
    {n : ℕ} {s t : State}
    → t.line_nr ≡ s.line_nr
    → t.errors ≡ s.errors
    → IsInFile n s
    → IsInFile n t
same-IsInFile {n} lines errors h = record {
  line_is = cc (lines, h.line_is);
  errors_are = rw errors h.errors_are;
}

visit-IsInFile : (n : ℕ) (l : Line) (s : State) → 1 ≤ n → IsInFile n s → IsInFile n (visit l s)
unfolding visit
visit-IsInFile n (just_label name) s first h = add_optional_label-IsInFile n (some name) s first h
visit-IsInFile n (instruction i) s first h =
    let t = record s { instructions = s.instructions ++ i ∷ [] } in
    same-IsInFile {s = add_optional_label i.label t} refl refl
      (add_optional_label-IsInFile n i.label t first (same-IsInFile {s = s} refl refl h))
visit-IsInFile n (blocks_directive k) s first h =
    same-IsInFile {s = report_if_set _ s.block_count s} refl refl
      (report_if_set-IsInFile n _ s.block_count s first h)
visit-IsInFile n (warps_directive k) s first h =
    same-IsInFile {s = report_if_set _ s.warp_count s} refl refl
      (report_if_set-IsInFile n _ s.warp_count s first h)

visit_parsed-IsInFile :
    (n : ℕ) (r : ParsedLine) (s : State) → 1 ≤ n → IsInFile n s → IsInFile n (visit_parsed r s)
visit_parsed-IsInFile n (ok l) s first h = visit-IsInFile n l s first h
visit_parsed-IsInFile n (errs es) s first h = report_all-IsInFile n es s first h

handle_tokens-IsInFile :
    (n : ℕ) (ts : List Token) (s : State) → 1 ≤ n → IsInFile n s → IsInFile n (handle_tokens ts s)
unfolding handle_tokens
handle_tokens-IsInFile n [] s first h = h
handle_tokens-IsInFile n (t ∷ ts) s first h =
    visit_parsed-IsInFile n (parse_line (t ∷ ts)) s first h

next_line-IsInFile :
    (n : ℕ) (s : State) → suc n < 2 ^ 32 → IsInFile n s → IsInFile (suc n) (next_line s)
next_line-IsInFile n s few h = record {
  line_is = omega (arith, h.line_is);
  errors_are =
      All-map (Names n) (Names (suc n)) s.errors (λ e (low, high). (low, omega arith)) h.errors_are;
}

handle_lines-IsInFile :
    (texts : List Text) (n : ℕ) (s t : State)
    → n + length texts < 2 ^ 32
    → handle_lines texts s ≡ some t
    → IsInFile n s
    → IsInFile (n + length texts) t
unfolding handle_lines
handle_lines-IsInFile [] n s t few h inside =
    subst (λ (k : ℕ). IsInFile k t) (omega arith) (subst (IsInFile n) (some-injective h) inside)
handle_lines-IsInFile (text ∷ texts) n s t few h inside =
    let (s1, first, others) = bind-eq-some (handle_line text s) (handle_lines texts) h in
    let ((ts, es), read, made) = handle_line-eq_some text s first in
    let next = next_line-IsInFile n s (omega (arith, few)) inside in
    let behind =
      handle_tokens-IsInFile (suc n) ts (report_all es (next_line s)) (omega arith)
        (report_all-IsInFile (suc n) es (next_line s) (omega arith) next) in
    subst (λ (k : ℕ). IsInFile k t) (omega arith)
      (handle_lines-IsInFile texts (suc n) s1 t (omega (arith, few)) others
        (subst (IsInFile (suc n)) made behind))

failed-errors :
    (errors : List Error) (t : State) (es : List Error)
    → finish_with errors t ≡ failed es
    → (es ≡ errors) × (1 ≤ length es)
failed-errors [] t es h = cc
failed-errors (e ∷ errors) t es h =
    let same : e ∷ errors ≡ es = cc h in
    (sym same, subst (λ (l : List Error). 1 ≤ length l) same (omega arith))

-- The errors with which `parse_program` refuses a file of fewer than 2^32 lines are at least one, and
-- each names a line of the file, counted from 1.
pub parse_program-Names :
    (texts : List Text) (es : List Error)
    → length texts < 2 ^ 32
    → parse_program texts ≡ some (failed es)
    → (1 ≤ length es) × All (Names (length texts)) es
unfolding parse_program
parse_program-Names texts es few h =
    let (t, ran, made) = map-eq_some (handle_lines texts initial) h in
    let inside =
      handle_lines-IsInFile texts 0 initial t (omega (arith, few)) ran
        (record { line_is = refl; errors_are = tt }) in
    let (same, some_error) = failed-errors t.errors t es made in
    (
      some_error,
      rw same (subst (λ (k : ℕ). All (Names k) t.errors) (omega arith) inside.errors_are),
    )
