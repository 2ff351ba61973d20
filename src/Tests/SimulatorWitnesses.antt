-- ===== src/Tests/SimulatorWitnesses.antt =====
-- The theorems on sim/main.cpp and on the loop of the simulation at a small device.
use smol_gpu.Prelude.{
  ℕ, suc, ◌≡◌, ◌↔◌, true, false, none, some, List, [], ◌∷◌, refl, codes, Text, arith, ltb, ◌==◌,
  equal, if◌then◌else◌,
}
use smol_gpu.Prelude.Int.{pos}
use smol_gpu.Isa.Register.{x_register}
use smol_gpu.Isa.Mnemonic
use smol_gpu.Isa.Mnemonic.{Mnemonic, name_to_determinant}
use smol_gpu.Gpu.Decoder.{decode}
use smol_gpu.Aslib.Syntax.{Program, itype, jalr, label_ref}
use smol_gpu.Aslib.Program.{parsed, parse_program}
use smol_gpu.Aslib.Emitter.Intended.{intended}
use smol_gpu.Aslib.Emitter.Assembled.{AreInBounds}
use smol_gpu.Aslib.Labels.{lookup}
use smol_gpu.Aslib.DataReader
use smol_gpu.Simlib.Store.{value_at}
use smol_gpu.Simlib.InstructionMemory
use smol_gpu.Simlib.DataMemory
use smol_gpu.Isa.Encode.{create_itype_instruction}
use smol_gpu.Isa.Instructions
use smol_gpu.Simlib.Device.{Device}
use smol_gpu.Simlib.Simulation.{System, simulate}
use smol_gpu.Simlib.Simulation.Steps.{Ends, simulate_iff, SameProgram, simulate-SameProgram}
use smol_gpu.Simulator.{finished, set_up, main}
use smol_gpu.Simulator.Run.{main-intended}
use smol_gpu.Simulator.Finishing.{set_up-IsAttached}
use smol_gpu.Simlib.Simulation.Crashes.{Crashes, started, simulate-eq_none_iff}

-- A device that counts its evaluations, asks for the first word on channel 0, and is done behind four.
abbrev pub device : Device
device = record {
  Vgpu = ℕ;
  created = 0;
  eval = suc;
  set_clk = λ value top. top;
  set_execution_start = λ value top. top;
  execution_done = λ top. if ltb top 4 then 0 else 1;
  set_config_word = λ i value top. top;
  instruction_mem_read_valid = λ top. 1;
  instruction_mem_read_address = λ top j. 0;
  instruction_mem_read_ready = λ top. 0;
  instruction_mem_read_data = λ top j. 0;
  set_instruction_mem_read_ready = λ value top. top;
  set_instruction_mem_read_data = λ value top. top;
  data_mem_read_valid = λ top. 1;
  data_mem_read_address = λ top j. 3;
  data_mem_read_ready = λ top. 0;
  data_mem_read_data = λ top j. 0;
  data_mem_write_valid = λ top. 0;
  data_mem_write_address = λ top j. 0;
  data_mem_write_data = λ top j. 0;
  data_mem_write_ready = λ top. 0;
  set_data_mem_read_ready = λ value top. top;
  set_data_mem_read_data = λ value top. top;
  set_data_mem_write_ready = λ value top. top;
}

abbrev pub lines : List Text
lines = codes ".blocks 2" ∷ codes "loop: addi x5, x6, 7 # next" ∷ codes "jalr x1, loop" ∷ []

abbrev pub program : Program
program = record {
  blocks = 2;
  warps = 1;
  instructions =
      record {
        label = some (codes "loop");
        mnemonic = record { name = Mnemonic.addi; has_s_prefix = false };
        operands = itype (x_register 5) (x_register 6) (pos 7);
      }
      ∷ record {
        label = none;
        mnemonic = record { name = Mnemonic.jalr; has_s_prefix = false };
        operands = jalr (x_register 1) (x_register 0) (label_ref (codes "loop"));
      }
      ∷ [];
  label_mappings = (codes "loop", 0) ∷ [];
}

pub lines-parsed : parse_program lines ≡ some (parsed program)
unfolding parse_program
lines-parsed = refl

pub bounds : AreInBounds program.label_mappings program.instructions
unfolding lookup equal
bounds = ((omega arith, omega arith, omega arith), ((omega arith, (0, refl, omega arith)), tt))

abbrev data_lines : List Text
data_lines = codes "3: 42" ∷ []

-- The end of this run, behind one cycle.
abbrev last_state : System device
last_state = record {
  top = 5;
  instruction_mem = record {
    read_valid = 1;
    read_address = λ j. 0;
    read_ready = 1;
    read_data = λ j. if j == 0 then 0x730293 else 0;
    memory = (1, 0xE7) ∷ (0, 0x730293) ∷ [];
    stack_ptr = 0;
  };
  data_mem = record {
    read_valid = 1;
    read_address = λ j. 3;
    read_ready = 1;
    read_data = λ j. if j == 0 then some 42 else some 0;
    write_valid = 0;
    write_address = λ j. 0;
    write_data = λ j. 0;
    write_ready = 0;
    memory = (3, 42) ∷ [];
    stack_ptr = 0;
  };
}

ends : main device lines (some data_lines) ≡ some (finished true last_state)
unfolding main create_itype_instruction Instructions.jalr InstructionMemory.process
    DataMemory.process
ends = refl

main-intended_example :
    decode (value_at 0 last_state.instruction_mem.memory)
    ≡ intended program.label_mappings
        (record { name = Mnemonic.addi; has_s_prefix = false })
        (itype (x_register 5) (x_register 6) (pos 7))
main-intended_example =
    main-intended device lines (some data_lines) program lines-parsed bounds (omega arith) true
      last_state ends 0
      (record {
        label = some (codes "loop");
        mnemonic = record { name = Mnemonic.addi; has_s_prefix = false };
        operands = itype (x_register 5) (x_register 6) (pos 7);
      })
      refl (refl, (omega arith, tt))

abbrev first_state : System device
first_state =
    set_up device (some ((3, 42) ∷ [])) program
      (record { word = 0x730293 } ∷ record { word = 0xE7 } ∷ [])

simulated : simulate device 8 200 first_state ≡ some (true, last_state)
unfolding simulate set_up InstructionMemory.process DataMemory.process
simulated = refl

simulate_iff_example :
    (simulate device 8 200 first_state ≡ some (true, last_state))
    ↔ Ends device 8 200 (record first_state { top = first_state.top }) (true, last_state)
simulate_iff_example = simulate_iff device 8 200 first_state (true, last_state)

simulate-SameProgram_example : SameProgram device first_state last_state
simulate-SameProgram_example =
    simulate-SameProgram device 8 (omega arith) 200 first_state last_state true simulated

simulate-eq_none_iff_example :
    (simulate device 8 200 first_state ≡ none) ↔ Crashes device 8 200 (started device first_state)
simulate-eq_none_iff_example = simulate-eq_none_iff device 8 (omega arith) 200 first_state (
    set_up-IsAttached device (some ((3, 42) ∷ [])) program
      (record { word = 0x730293 } ∷ record { word = 0xE7 } ∷ []))
