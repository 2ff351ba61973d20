-- ===== src/Aslib/Program.antt =====
-- `parse_program` of sim/aslib/parser.cpp: the lines of a file to a program, or to all the errors.
pub mod Layout
pub mod Visit
pub mod Extension
pub mod Grows
pub mod Reading
pub mod Distinct
pub mod Accepts
pub mod Ends
pub mod ErrorLines
use smol_gpu.Prelude.{ℕ, ◌+◌, Bool, true, false, Option, none, some, List, [], ◌∷◌, ◌++◌, map, Text}
use mathlib.Core.Option
use smol_gpu.Prelude.Word.{u32}
use smol_gpu.Prelude.Checked.{◌>>=◌}
use smol_gpu.Aslib.Error.{
  Message, duplicate_label, duplicate_blocks, duplicate_warps, Error, with_line,
}
use smol_gpu.Aslib.Token.{Token}
use smol_gpu.Aslib.Lexer.{collect_tokens}
use smol_gpu.Aslib.Syntax.{
  Instruction, Line, just_label, blocks_directive, warps_directive, instruction, Program,
}
use smol_gpu.Aslib.Parser.{ParsedLine, ok, errs, parse_line}
use smol_gpu.Aslib.Labels.{Labels, contains, lookup, insert}

-- The local variables of `parse_program`. `line_nr` and `instr_count` are `uint32_t`.
pub record State : Type 0 where
  pub instructions : List Instruction
  pub label_mappings : Labels
  pub errors : List Error
  pub block_count : Option ℕ
  pub warp_count : Option ℕ
  pub line_nr : ℕ
  pub instr_count : ℕ

abbrev pub initial : State
initial = record {
  instructions = [];
  label_mappings = [];
  errors = [];
  block_count = none;
  warp_count = none;
  line_nr = 0;
  instr_count = 0;
}

-- `errors.emplace_back(message, 0, line_nr)`
abbrev pub report : Message → State → State
report message s = record s {
  errors = s.errors ++ record { message = message; column = 0; line = s.line_nr } ∷ [];
}

-- The errors of one line, each `with_line(line_nr)`.
abbrev pub report_all : List Error → State → State
report_all es s = record s { errors = s.errors ++ map (with_line s.line_nr) es }

abbrev pub add_new_label : Bool → Text → State → State
add_new_label true name s = report (duplicate_label s.line_nr) s
add_new_label false name s = record s {
  label_mappings = insert name s.instr_count s.label_mappings;
}

-- The lambda `add_label`
unfoldable pub add_label : Text → State → State
add_label name s = add_new_label (contains name s.label_mappings) name s

abbrev pub add_optional_label : Option Text → State → State
add_optional_label none s = s
add_optional_label (some name) s = add_label name s

abbrev pub report_if_set : Message → Option ℕ → State → State
report_if_set message none s = s
report_if_set message (some n) s = report message s

abbrev pub count_instruction : State → State
count_instruction s = record s { instr_count = u32 (s.instr_count + 1) }

-- The visitor on an accepted line.
unfoldable pub visit : Line → State → State
visit (just_label name) s = add_label name s
visit (instruction i) s =
    count_instruction
      (add_optional_label i.label (record s { instructions = s.instructions ++ i ∷ [] }))
visit (blocks_directive n) s = record (report_if_set duplicate_blocks s.block_count s) {
  block_count = some n;
}
visit (warps_directive n) s = record (report_if_set duplicate_warps s.warp_count s) {
  warp_count = some n;
}

abbrev pub visit_parsed : ParsedLine → State → State
visit_parsed (ok l) s = visit l s
visit_parsed (errs es) s = report_all es s

-- A line without tokens is skipped.
unfoldable pub handle_tokens : List Token → State → State
handle_tokens [] s = s
handle_tokens (t ∷ ts) s = visit_parsed (parse_line (t ∷ ts)) s

abbrev pub next_line : State → State
next_line s = record s { line_nr = u32 (s.line_nr + 1) }

abbrev pub handle_lexed : State → List Token × List Error → State
handle_lexed s (tokens, lexer_errors) = handle_tokens tokens (report_all lexer_errors s)

-- One round of the loop over the lines; `none` where the lexer does not end.
unfoldable pub handle_line : Text → State → Option State
handle_line line s = Option.map (handle_lexed (next_line s)) (collect_tokens line)

unfoldable pub handle_lines : List Text → State → Option State
handle_lines [] s = some s
handle_lines (line ∷ lines) s = handle_line line s >>= handle_lines lines

pub data ParsedProgram : Type 0 where
  parsed : Program → ParsedProgram
  failed : List Error → ParsedProgram

abbrev pub value_or : Option ℕ → ℕ → ℕ
value_or none d = d
value_or (some n) d = n

abbrev pub finish_with : List Error → State → ParsedProgram
finish_with [] s = parsed (record {
  blocks = value_or s.block_count 1;
  warps = value_or s.warp_count 1;
  instructions = s.instructions;
  label_mappings = s.label_mappings;
})
finish_with (e ∷ es) s = failed (e ∷ es)

abbrev pub finish : State → ParsedProgram
finish s = finish_with s.errors s

-- `none` is a run that does not end.
unfoldable pub parse_program : List Text → Option ParsedProgram
unfolding handle_lines handle_line handle_tokens visit add_label contains lookup collect_tokens
    parse_line
parse_program lines = Option.map finish (handle_lines lines initial)
