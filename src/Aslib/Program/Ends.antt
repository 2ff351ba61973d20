-- ===== src/Aslib/Program/Ends.antt =====
-- Files on which `parse_program` ends.
use smol_gpu.Prelude.{◌≡◌, refl, some, List, [], ◌∷◌, Text, All}
use smol_gpu.Aslib.Lexer.Terminates.{HasShortRuns, collect_tokens-ends}
use smol_gpu.Aslib.Program.{
  State, initial, next_line, handle_lexed, handle_line, handle_lines, ParsedProgram, parse_program,
}

handle_lines-ends :
    (texts : List Text) (s : State)
    → All HasShortRuns texts
    → (t : State) × (handle_lines texts s ≡ some t)
unfolding handle_lines handle_line
handle_lines-ends [] s short = (s, refl)
handle_lines-ends (text ∷ texts) s (here, short) =
    let (lexed, e) = collect_tokens-ends text here in
    rw e (handle_lines-ends texts (handle_lexed (next_line s) lexed) short)

-- On a file in whose lines no ten decimal digits stand one behind the other, `parse_program` ends, with
-- a program or with errors.
pub parse_program-ends :
    (texts : List Text)
    → All HasShortRuns texts
    → (r : ParsedProgram) × (parse_program texts ≡ some r)
unfolding parse_program
parse_program-ends texts short =
    let (t, e) = handle_lines-ends texts initial short in rw e (_, refl)
