-- ===== src/Simlib/Simulation.antt =====
-- `tick`, `set_kernel_config`, `make_instruction_memory`, `make_data_memory` and `simulate` of
-- sim/simlib/sim.hpp, for a device that is a parameter.
pub mod Steps
pub mod Pointers
pub mod Crashes
use smol_gpu.Prelude.{
  ℕ, zero, suc, Bool, true, false, not, Option, none, some, [], ◌==◌, if◌then◌else◌, List, ◌++◌,
  Text,
}
use smol_gpu.Prelude.Checked.{Checked, ◌>>=◌}
use smol_gpu.Simlib.InstructionMemory
use smol_gpu.Simlib.InstructionMemory.{InstructionMemory}
use smol_gpu.Simlib.DataMemory
use smol_gpu.Simlib.DataMemory.{DataMemory}
use smol_gpu.Simlib.Device.{
  Device, attach_instructions, write_back_instructions, attach_data, write_back_data,
}

module _ (d : Device) where
  unfoldable pub tick : d.Vgpu → d.Vgpu
  tick top = d.eval (d.set_clk 1 (d.eval (d.set_clk 0 top)))

  unfoldable pub set_kernel_config : ℕ → ℕ → ℕ → ℕ → d.Vgpu → d.Vgpu
  set_kernel_config base_instructions base_data num_blocks num_warps_per_block top =
      d.set_config_word 0 num_warps_per_block (
        d.set_config_word 1 num_blocks
          (d.set_config_word 2 base_data (d.set_config_word 3 base_instructions top)))

  -- An empty memory whose pointers lead to the device.
  unfoldable pub make_instruction_memory : d.Vgpu → InstructionMemory
  make_instruction_memory top = record {
    read_valid = d.instruction_mem_read_valid top;
    read_address = d.instruction_mem_read_address top;
    read_ready = d.instruction_mem_read_ready top;
    read_data = d.instruction_mem_read_data top;
    memory = [];
    stack_ptr = 0;
  }

  unfoldable pub make_data_memory : d.Vgpu → DataMemory
  make_data_memory top = record {
    read_valid = d.data_mem_read_valid top;
    read_address = d.data_mem_read_address top;
    read_ready = d.data_mem_read_ready top;
    read_data = λ i. some (d.data_mem_read_data top i);
    write_valid = d.data_mem_write_valid top;
    write_address = d.data_mem_write_address top;
    write_data = d.data_mem_write_data top;
    write_ready = d.data_mem_write_ready top;
    memory = [];
    stack_ptr = 0;
  }

  -- The arguments of `simulate`, which it takes by reference.
  pub record System : Type 0 where
    pub top : d.Vgpu
    pub instruction_mem : InstructionMemory
    pub data_mem : DataMemory

  -- `top.eval()`
  abbrev pub evaluate : System → System
  evaluate s = record s { top = d.eval s.top }

  unfoldable pub is_done : System → Bool
  is_done s = not (d.execution_done s.top == 0)

  abbrev served_instructions : InstructionMemory → System → System
  served_instructions m s = record s {
    top = write_back_instructions d m s.top;
    instruction_mem = m;
  }

  abbrev served_data : System → DataMemory → System
  served_data s m = record s { top = write_back_data d m s.top; data_mem = m }

  -- `instruction_mem.process()`
  unfoldable pub process_instructions : ℕ → System → System
  process_instructions n s =
      served_instructions
        (InstructionMemory.process n (attach_instructions d s.top s.instruction_mem)) s

  -- `data_mem.process()`
  unfoldable pub process_data : ℕ → System → Checked System
  process_data n s = do
    m ← DataMemory.process n (attach_data d s.top s.data_mem)
    some (served_data s m)

  abbrev evaluate_and_tick : System → System
  evaluate_and_tick s = record s { top = tick (d.eval s.top) }

  -- A round of the loop behind the test; `n` channels. `none` is a write through a null pointer.
  unfoldable pub cycle : ℕ → System → Checked System
  unfolding process_instructions process_data tick
  cycle n s = do t ← process_data n (process_instructions n s); some (evaluate_and_tick t)

  -- The loop, with the rounds that are left.
  unfoldable pub run_cycles : ℕ → ℕ → System → Checked (Bool × System)
  run_cycles n zero s = some (false, s)
  run_cycles n (suc rounds) s =
      let rest = cycle n (evaluate s) >>= run_cycles n rounds in
      if is_done (evaluate s) then some (true, evaluate s) else rest

  -- What it prints is `simulate_printed`.
  unfoldable pub simulate : ℕ → ℕ → System → Checked (Bool × System)
  unfolding run_cycles cycle is_done
  simulate n max_num_cycles s =
      run_cycles n max_num_cycles (record s { top = d.set_execution_start 1 s.top })

  -- What a round prints to `stderr`.
  unfoldable pub printed_cycle : ℕ → System → List Text
  unfolding process_instructions InstructionMemory.printed DataMemory.printed
  printed_cycle n s =
      let t = process_instructions n s in
      InstructionMemory.printed n (attach_instructions d s.top s.instruction_mem)
      ++ DataMemory.printed n (attach_data d t.top t.data_mem)

  -- A round behind a write through a null pointer does not run.
  abbrev printed_behind : Checked System → (System → List Text) → List Text
  printed_behind none rest = []
  printed_behind (some s) rest = rest s

  unfoldable pub printed_cycles : ℕ → ℕ → System → List Text
  unfolding printed_cycle cycle is_done
  printed_cycles n zero s = []
  printed_cycles n (suc rounds) s =
      let rest = printed_behind (cycle n (evaluate s)) (printed_cycles n rounds) in
      if is_done (evaluate s) then [] else printed_cycle n (evaluate s) ++ rest

  -- What `simulate` prints to `stderr`, up to its end or to a write through a null pointer.
  unfoldable pub simulate_printed : ℕ → ℕ → System → List Text
  unfolding printed_cycles
  simulate_printed n max_num_cycles s =
      printed_cycles n max_num_cycles (record s { top = d.set_execution_start 1 s.top })
