-- ===== src/Simulator/Console/Successes.antt =====
-- When the process of sim/main.cpp ends with exit code 0, and what it has printed then.
use smol_gpu.Prelude.{◌≡◌, true, Option, some, List, ◌++◌, Text}
use mathlib.Core.Option
use smol_gpu.Prelude.Checked.{Checked}
use smol_gpu.Isa.Encode.{InstructionBits}
use smol_gpu.Aslib.Error.{Errc, Error}
use smol_gpu.Aslib.Labels.{Labels}
use smol_gpu.Aslib.Syntax.{Program}
use smol_gpu.Aslib.Program.{parsed, parse_program}
use smol_gpu.Aslib.Emitter.{translate_to_binary}
use smol_gpu.Aslib.DataReader
use smol_gpu.Simlib.Store.{Store}
use smol_gpu.Simlib.DataMemory.Printing.{print_memory}
use smol_gpu.Simlib.Device.{Device}
use smol_gpu.Simlib.Simulation.{System, simulate, simulate_printed}
use smol_gpu.Simulator.{set_up}
use smol_gpu.Simulator.Console.{Console, exited, FileSystem, print_program}
use smol_gpu.Simulator.Console.Invocation.{Invokes}

module _ (d : Device) (errc_message : Errc → Text) (in_order : Labels → Labels) where
  -- The lines are a program that is assembled and simulated until the device is done; the console has
  -- the program and then the data memory, and what `simulate` prints to `stderr`.
  pub record Succeeds (file_data : Option Store) (lines : List Text) (c : Console) : Type 0 where
    pub program : Program
    pub words : List InstructionBits
    pub last : System d
    pub parses : parse_program lines ≡ some (parsed program)
    pub assembles : translate_to_binary program ≡ some words
    pub is_done : simulate d 8 200 (set_up d file_data program words) ≡ some (true, last)
    pub console_is : c ≡ record {
      out = print_program in_order program ++ print_memory 100 last.data_mem;
      err = simulate_printed d 8 200 (set_up d file_data program words);
      ending = exited 0;
    }

  -- The process can end with 0 only behind the files.
  module _ (files : FileSystem) (c : Console) (zero : c.ending ≡ exited 0) where
    -- How a success starts.
    abbrev Starts : List Text → Type 0
    Starts arguments =
        (lines : List Text) × (file_data : Option Store) × Invokes files arguments lines file_data
        × Succeeds file_data lines c
