-- ===== src/Aslib/Program/Grows.antt =====
-- The rounds of `parse_program` never take an error back.
use smol_gpu.Prelude.{
  ℕ, ◌≡◌, refl, ap, ◌∙◌, Option, none, some, List, [], ◌∷◌, ◌++◌, map, Text, Bool, true, false,
}
use mathlib.Core.Option
use smol_gpu.Prelude.Checked.{some-injective, bind-eq-some}
use smol_gpu.Aslib.Error.{Error, Message, with_line}
use smol_gpu.Aslib.Token.{Token}
use smol_gpu.Aslib.Lexer.{collect_tokens}
use smol_gpu.Aslib.Syntax.{Line, just_label, blocks_directive, warps_directive, instruction}
use smol_gpu.Aslib.Parser.{ParsedLine, ok, errs, parse_line}
use smol_gpu.Aslib.Parser.Lines.{Reports}
use smol_gpu.Aslib.Program.{
  State, report_all, add_new_label, add_label, add_optional_label, report_if_set, visit,
  visit_parsed, handle_tokens, next_line, handle_lexed, handle_line, handle_lines,
}

-- Errors are never taken back.
abbrev Grows : State → State → Type 0
Grows s t = (t.errors ≡ [] → s.errors ≡ [])

append-nil_inv : {A : Type 0} (xs ys : List A) → xs ++ ys ≡ [] → (xs ≡ []) × (ys ≡ [])
append-nil_inv [] ys h = (refl, h)
append-nil_inv (x ∷ xs) ys h = cc

map-nil_inv : (n : ℕ) (es : List Error) → map (with_line n) es ≡ [] → es ≡ []
map-nil_inv n [] h = refl
map-nil_inv n (e ∷ es) h = cc

pub report_all-Grows :
    (es : List Error) (s : State) → (report_all es s).errors ≡ [] → (s.errors ≡ []) × (es ≡ [])
report_all-Grows es s h =
    let (old, new) = append-nil_inv s.errors _ h in (old, map-nil_inv s.line_nr es new)

-- A line that is refused leaves an error.
pub refused : (fs : List Error) (s : State) → Reports (errs fs) → (report_all fs s).errors ≡ [] → ⊥
refused fs s (one, only) clean = cc ((report_all-Grows fs s clean).1, only)

add_label-Grows : (name : Text) (b : Bool) (s : State) → Grows s (add_new_label b name s)
add_label-Grows name true s h = (append-nil_inv s.errors _ h).0
add_label-Grows name false s h = h

add_optional_label-Grows : (o : Option Text) (s : State) → Grows s (add_optional_label o s)
unfolding add_label
add_optional_label-Grows none s h = h
add_optional_label-Grows (some name) s h = add_label-Grows name _ s h

report_if_set-Grows :
    (message : Message) (o : Option ℕ) (s : State) → Grows s (report_if_set message o s)
report_if_set-Grows message none s h = h
report_if_set-Grows message (some n) s h = (append-nil_inv s.errors _ h).0

pub visit-Grows : (l : Line) (s : State) → Grows s (visit l s)
unfolding visit
visit-Grows (just_label name) s h = add_optional_label-Grows (some name) s h
visit-Grows (instruction i) s h =
    add_optional_label-Grows i.label (record s { instructions = s.instructions ++ i ∷ [] }) h
visit-Grows (blocks_directive n) s h = report_if_set-Grows _ s.block_count s h
visit-Grows (warps_directive n) s h = report_if_set-Grows _ s.warp_count s h

handle_tokens-Grows : (ts : List Token) (s : State) → Grows s (handle_tokens ts s)
unfolding handle_tokens
handle_tokens-Grows [] s h = h
handle_tokens-Grows (t ∷ ts) s h = visited (parse_line (t ∷ ts)) h
  where
    visited : (r : ParsedLine) → Grows s (visit_parsed r s)
    visited (ok l) k = visit-Grows l s k
    visited (errs es) k = (report_all-Grows es s k).0

-- The round of a line, taken apart.
pub handle_line-eq_some :
    (text : Text) (s : State) {t : State}
    → handle_line text s ≡ some t
    → (lexed : List Token × List Error) × (collect_tokens text ≡ some lexed)
      × (handle_lexed (next_line s) lexed ≡ t)
unfolding handle_line
handle_line-eq_some text s h = go (collect_tokens text) h
  where
    go :
        (r : Option (List Token × List Error)) {t : State}
        → Option.map (handle_lexed (next_line s)) r ≡ some t
        → (lexed : List Token × List Error) × (r ≡ some lexed)
          × (handle_lexed (next_line s) lexed ≡ t)
    go none k = cc
    go (some lexed) k = (lexed, refl, cc k)

pub handle_lexed-Grows :
    (s : State) (lexed : List Token × List Error) → Grows s (handle_lexed (next_line s) lexed)
handle_lexed-Grows s (ts, es) h =
    (report_all-Grows es (next_line s) (handle_tokens-Grows ts (report_all es (next_line s)) h)).0

pub handle_lines-Grows :
    (texts : List Text) (s t : State) → handle_lines texts s ≡ some t → Grows s t
unfolding handle_lines
handle_lines-Grows [] s t h clean = rw (some-injective h) clean
handle_lines-Grows (text ∷ texts) s t h clean =
    let (s1, first, others) = bind-eq-some (handle_line text s) (handle_lines texts) h in
    let (lexed, read, made) = handle_line-eq_some text s first in
    handle_lexed-Grows s lexed (ap State.errors made ∙ handle_lines-Grows texts s1 t others clean)
