-- ===== src/Simulator.antt =====
-- sim/main.cpp: a source file and a data file to a run of the device. The files are their lines.
pub mod Loading
pub mod Run
pub mod Finishing
pub mod Console
use smol_gpu.Prelude.{ℕ, ◌+◌, Bool, true, false, Option, none, some, List, [], ◌∷◌, Text}
use mathlib.Core.Option
use smol_gpu.Prelude.Word.{u32}
use smol_gpu.Prelude.Checked.{Checked}
use smol_gpu.Isa.Encode.{InstructionBits}
use smol_gpu.Aslib.Error.{Error}
use smol_gpu.Aslib.Syntax.{Program}
use smol_gpu.Aslib.Program.{ParsedProgram, parsed, failed, parse_program}
use smol_gpu.Aslib.Emitter.{translate_to_binary}
use smol_gpu.Aslib.DataReader
use smol_gpu.Aslib.DataReader.{DataFile, read_data}
use smol_gpu.Simlib.Store.{Store, write}
use smol_gpu.Simlib.Device.{Device}
use smol_gpu.Simlib.Simulation.{
  System, make_instruction_memory, make_data_memory, set_kernel_config, simulate,
}

abbrev pub num_channels : ℕ
num_channels = 8

abbrev pub max_num_cycles : ℕ
max_num_cycles = 200

-- `instruction_mem.memory[i] = machine_code[i].bits`, from `i` on.
unfoldable pub load_words : ℕ → List InstructionBits → Store → Store
load_words i [] memory = memory
load_words i (w ∷ ws) memory = load_words (u32 (i + 1)) ws (write i w.word memory)

-- `data_mem.memory = data.value()`, where there is a data file
abbrev pub initial_data : Option Store → Store → Store
initial_data none memory = memory
initial_data (some m) memory = m

module _ (d : Device) where
  -- How far `main` gets; see Console for what it prints and how its process ends.
  pub data Outcome : Type 0 where
    bad_data : Text → Outcome
    bad_program : List Error → Outcome
    crashed : Outcome
    finished : Bool → System d → Outcome

  -- The device with its configuration, and the memories with the words and the data.
  unfoldable pub set_up : Option Store → Program → List InstructionBits → System d
  unfolding load_words make_instruction_memory make_data_memory set_kernel_config
  set_up file_data program machine_code =
      let top = d.created in
      let instruction_mem = make_instruction_memory d top in
      let data_mem = make_data_memory d top in
      record {
        top = set_kernel_config d 0 0 program.blocks program.warps top;
        instruction_mem = record instruction_mem {
          memory = load_words 0 machine_code instruction_mem.memory;
        };
        data_mem = record data_mem { memory = initial_data file_data data_mem.memory };
      }

  abbrev outcome : Checked (Bool × System d) → Outcome
  outcome none = crashed
  outcome (some (done, s)) = finished done s

  abbrev pub run_words : Option Store → Program → Checked (List InstructionBits) → Outcome
  run_words file_data program none = crashed
  run_words file_data program (some machine_code) =
      outcome (simulate d num_channels max_num_cycles (set_up file_data program machine_code))

  abbrev pub run_program : Option Store → ParsedProgram → Outcome
  run_program file_data (failed errors) = bad_program errors
  run_program file_data (parsed program) = run_words file_data program (translate_to_binary program)

  abbrev pub run_source : Option Store → List Text → Option Outcome
  run_source file_data lines = Option.map (run_program file_data) (parse_program lines)

  abbrev run_data : List Text → DataFile → Option Outcome
  run_data lines (DataReader.failed line) = some (bad_data line)
  run_data lines (DataReader.loaded m) = run_source (some m) lines

  abbrev with_data : List Text → Option (List Text) → Option Outcome
  with_data lines none = run_source none lines
  with_data lines (some data_lines) = run_data lines (read_data data_lines)

  -- `main`, with the lines of the data file if there is one; `none` is an assembler that does not end.
  unfoldable pub main : List Text → Option (List Text) → Option Outcome
  unfolding parse_program translate_to_binary read_data set_up simulate
  main lines data_file = with_data lines data_file
