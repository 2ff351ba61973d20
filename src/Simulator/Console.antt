-- ===== src/Simulator/Console.antt =====
-- What sim/main.cpp prints and how its process ends, in a build that has the assertions. A debug build is
-- the only one: without them `assert_or_err` takes no `Error`, and nothing calls it with a text.
pub mod Invocation
pub mod Reports
pub mod Successes
pub mod Outcomes
use smol_gpu.Prelude.{
  ℕ, zero, suc, ◌+◌, ◌-◌, Bool, true, false, Option, none, some, List, [], ◌∷◌, ◌++◌, Text, codes,
  length,
}
use mathlib.Core.Option
use smol_gpu.Prelude.Word.{u32}
use smol_gpu.Prelude.Decimal.{decimal}
use smol_gpu.Prelude.Checked.{Checked}
use smol_gpu.Isa.Encode.{InstructionBits}
use smol_gpu.Aslib.Error.{Errc, Error}
use smol_gpu.Aslib.Error.Texts.{error_text}
use smol_gpu.Aslib.Labels.{Labels}
use smol_gpu.Aslib.Syntax.{Program, Instruction, instruction_to_str}
use smol_gpu.Aslib.Program.{ParsedProgram, parsed, failed, parse_program}
use smol_gpu.Aslib.Emitter.{translate_to_binary}
use smol_gpu.Aslib.DataReader
use smol_gpu.Aslib.DataReader.{DataFile, read_data}
use smol_gpu.Simlib.Store.{Store}
use smol_gpu.Simlib.DataMemory.Printing.{print_memory}
use smol_gpu.Simlib.Device.{Device}
use smol_gpu.Simlib.Simulation.{System, simulate, simulate_printed}
use smol_gpu.Simulator.{num_channels, max_num_cycles, set_up}

-- How a process ends: with an exit code, or in an assertion or a null pointer.
pub data Ending : Type 0 where
  exited : ℕ → Ending
  aborted : Ending

-- The texts that are printed to `stdout` and to `stderr`, and the end.
pub record Console : Type 0 where
  pub out : List Text
  pub err : List Text
  pub ending : Ending

-- `return code` in `main`
abbrev pub exit : ℕ → Console
exit code = record { out = []; err = []; ending = exited code }

-- The text of `assert` itself, and what the assertions of the other parts print, is not modelled.
abbrev pub abort : Console
abort = record { out = []; err = []; ending = aborted }

abbrev pub print_out : List Text → Console → Console
print_out texts rest = record rest { out = texts ++ rest.out }

abbrev pub print_err : Text → Console → Console
print_err text rest = record rest { err = text ∷ rest.err }

abbrev pub print_errs : List Text → Console → Console
print_errs texts rest = record rest { err = texts ++ rest.err }

-- `{:3}` of a number: on the right of three columns
abbrev spaces : ℕ → Text
spaces zero = []
spaces (suc n) = b' ' ∷ spaces n

unfoldable pub padded : ℕ → Text
unfolding decimal
padded n = spaces (3 - length (decimal n)) ++ decimal n

-- The loop over the instructions.
unfoldable pub list_instructions : ℕ → List Instruction → List Text
unfolding padded instruction_to_str
list_instructions i [] = []
list_instructions i (instr ∷ instrs) =
    (padded i ++ (codes ": " ++ instruction_to_str instr)) ∷ list_instructions (u32 (i + 1)) instrs

-- The loop over the labels.
unfoldable pub list_labels : ℕ → Labels → List Text
unfolding padded
list_labels i [] = []
list_labels i ((label, line) ∷ labels) =
    (padded i ++ (codes ": " ++ (label ++ (codes ": " ++ decimal line))))
    ∷ list_labels (u32 (i + 1)) labels

abbrev program_head : Program → List Text
program_head p =
    (b'\n' ∷ codes "Succesfully parsed the entire file.")
    ∷ (codes "Warps: " ++ (decimal p.warps ++ (codes ", Blocks: " ++ decimal p.blocks)))
    ∷ (codes "Parsed " ++ (decimal (length p.instructions) ++ codes " instructions:"))
    ∷ []

-- What is printed of a program; `in_order` gives the labels in the order in which
-- `std::unordered_map` is iterated.
unfoldable pub print_program : (Labels → Labels) → Program → List Text
unfolding list_instructions list_labels
print_program in_order p =
    program_head p
    ++ (list_instructions 0 p.instructions
        ++ (codes "Labels:" ∷ list_labels 0 (in_order p.label_mappings)))

-- `print_error`: the text, and `assert(false)`, behind which nothing runs.
unfoldable pub print_error : (Errc → Text) → Error → Console
unfolding error_text
print_error errc_message e = print_err (error_text errc_message e) abort

-- The loop over the errors, and `return 1`.
unfoldable pub print_errors : (Errc → Text) → List Error → Console
unfolding print_error
print_errors errc_message [] = exit 1
print_errors errc_message (e ∷ es) = print_error errc_message e

-- `std::expected` with a text for the error. The source's errors here are `string_view`s of strings that
-- are gone when they are printed; the text is the one that they had.
pub data Attempt (A : Type 0) : Type 0 where
  value : A → Attempt A
  error : Text → Attempt A

-- The files of the file system, each as its lines.
abbrev pub FileSystem : Type 0
FileSystem = Text → Option (List Text)

abbrev pub opened : Text → Option (List Text) → Attempt (List Text)
opened path none = error (codes "Failed to open file: " ++ path)
opened path (some lines) = value lines

-- `open_file`, and `get_lines` where there is a file.
unfoldable pub open_file : FileSystem → Text → Attempt (List Text)
open_file files path = opened path (files path)

-- `unwrap` in front of the rest of `main`: the text, and `std::exit(1)`.
abbrev pub unwrap : Attempt (List Text) → (List Text → Option Console) → Option Console
unwrap (error text) rest = some (print_err (codes "Error: " ++ (text ++ codes ".")) (exit 1))
unwrap (value lines) rest = rest lines

module _ (d : Device) (errc_message : Errc → Text) (in_order : Labels → Labels) where
  -- Behind `simulate`.
  abbrev pub print_result : Checked (Bool × System d) → Console
  print_result none = abort
  print_result (some (false, s)) =
      print_out (codes "Simulation didn't finish before the max operation limit!" ∷ []) (exit 1)
  print_result (some (true, s)) = print_out (print_memory 100 s.data_mem) (exit 0)

  -- `simulate` with what it prints to `stderr`, and what is behind it.
  abbrev pub run_simulation : System d → Console
  run_simulation s =
      print_errs (simulate_printed d num_channels max_num_cycles s)
        (print_result (simulate d num_channels max_num_cycles s))

  -- Behind `translate_to_binary`.
  abbrev pub simulate_words : Option Store → Program → Checked (List InstructionBits) → Console
  simulate_words file_data p none = abort
  simulate_words file_data p (some machine_code) =
      run_simulation (set_up d file_data p machine_code)

  -- Behind `parse_program`.
  abbrev pub assemble : Option Store → ParsedProgram → Console
  assemble file_data (failed errors) = print_errors errc_message errors
  assemble file_data (parsed p) =
      print_out (print_program in_order p) (simulate_words file_data p (translate_to_binary p))

  -- Behind `get_lines` of the source file.
  abbrev pub from_lines : Option Store → List Text → Option Console
  from_lines file_data lines = Option.map (assemble file_data) (parse_program lines)

  module _ (files : FileSystem) (input_filename : Text) where
    -- Behind the data file.
    abbrev pub from_source : Option Store → Option Console
    from_source file_data = unwrap (open_file files input_filename) (from_lines file_data)

    abbrev data_failure : Text → Text → Option Console
    data_failure path reason = some (
        print_err (codes "Failed to read data file '" ++ (path ++ (codes "': " ++ reason)))
          (exit 1))

    -- The result of `read_data` on the lines of its file.
    abbrev pub from_data : Text → DataFile → Option Console
    from_data path (DataReader.failed line) =
        data_failure path (codes "Failed to parse line: '" ++ (line ++ codes "'"))
    from_data path (DataReader.loaded m) = from_source (some m)

    abbrev pub from_data_file : Text → Attempt (List Text) → Option Console
    from_data_file path (error text) = data_failure path text
    from_data_file path (value data_lines) = from_data path (read_data data_lines)

  abbrev usage : Text → Option Console
  usage name =
      some
        (print_out ((codes "Usage: " ++ (name ++ codes " <input file> [data file]")) ∷ []) (exit 1))

  -- `main` on its arguments, its name first. `none` is an assembler that does not end. Without a name
  -- `argv[0]` is a null pointer.
  unfoldable pub main : FileSystem → List Text → Option Console
  unfolding print_errors print_program parse_program translate_to_binary read_data set_up simulate
      simulate_printed open_file
  main files [] = some abort
  main files (name ∷ []) = usage name
  main files (name ∷ input_filename ∷ []) = from_source files input_filename none
  main files (name ∷ input_filename ∷ data_filename ∷ []) =
      from_data_file files input_filename data_filename (open_file files data_filename)
  main files (name ∷ a ∷ b ∷ c ∷ more) = usage name
