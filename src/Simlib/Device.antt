-- ===== src/Simlib/Device.antt =====
-- The class `Vgpu` that Verilator generates from src/gpu.sv, as sim/simlib/sim.hpp uses it: a
-- parameter. A member of the class is read and assigned; an array is a function of the index.
use smol_gpu.Prelude.{ℕ, Option, none, some}
use smol_gpu.Simlib.InstructionMemory.{InstructionMemory}
use smol_gpu.Simlib.DataMemory.{DataMemory}

pub record Device : Type 1 where
  pub Vgpu : Type 0
  -- `Vgpu top{}`
  pub created : Vgpu
  pub eval : Vgpu → Vgpu
  pub set_clk : ℕ → Vgpu → Vgpu
  pub set_execution_start : ℕ → Vgpu → Vgpu
  pub execution_done : Vgpu → ℕ
  -- `top.kernel_config[i] = value`
  pub set_config_word : ℕ → ℕ → Vgpu → Vgpu
  pub instruction_mem_read_valid : Vgpu → ℕ
  pub instruction_mem_read_address : Vgpu → ℕ → ℕ
  pub instruction_mem_read_ready : Vgpu → ℕ
  pub instruction_mem_read_data : Vgpu → ℕ → ℕ
  pub set_instruction_mem_read_ready : ℕ → Vgpu → Vgpu
  pub set_instruction_mem_read_data : (ℕ → ℕ) → Vgpu → Vgpu
  pub data_mem_read_valid : Vgpu → ℕ
  pub data_mem_read_address : Vgpu → ℕ → ℕ
  pub data_mem_read_ready : Vgpu → ℕ
  pub data_mem_read_data : Vgpu → ℕ → ℕ
  pub data_mem_write_valid : Vgpu → ℕ
  pub data_mem_write_address : Vgpu → ℕ → ℕ
  pub data_mem_write_data : Vgpu → ℕ → ℕ
  pub data_mem_write_ready : Vgpu → ℕ
  pub set_data_mem_read_ready : ℕ → Vgpu → Vgpu
  pub set_data_mem_read_data : (ℕ → ℕ) → Vgpu → Vgpu
  pub set_data_mem_write_ready : ℕ → Vgpu → Vgpu

-- The signal behind a pointer that is still set.
abbrev pub through : Option ℕ → ℕ → Option ℕ
through none signal = none
through (some old) signal = some signal

-- What an assignment through the pointer leaves of the signal.
abbrev pub signal_behind : Option ℕ → ℕ → ℕ
signal_behind none signal = signal
signal_behind (some value) signal = value

module _ (d : Device) where
  -- The memory, whose pointers lead to the members of the device: their values.
  abbrev pub attach_instructions : d.Vgpu → InstructionMemory → InstructionMemory
  attach_instructions top m = record m {
    read_valid = d.instruction_mem_read_valid top;
    read_address = d.instruction_mem_read_address top;
    read_ready = d.instruction_mem_read_ready top;
    read_data = d.instruction_mem_read_data top;
  }

  -- The members that the memory has assigned.
  abbrev pub write_back_instructions : InstructionMemory → d.Vgpu → d.Vgpu
  write_back_instructions m top =
      d.set_instruction_mem_read_ready m.read_ready
        (d.set_instruction_mem_read_data m.read_data top)

  abbrev pub attach_data : d.Vgpu → DataMemory → DataMemory
  attach_data top m = record m {
    read_valid = d.data_mem_read_valid top;
    read_address = d.data_mem_read_address top;
    read_ready = d.data_mem_read_ready top;
    read_data = λ i. through (m.read_data i) (d.data_mem_read_data top i);
    write_valid = d.data_mem_write_valid top;
    write_address = d.data_mem_write_address top;
    write_data = d.data_mem_write_data top;
    write_ready = d.data_mem_write_ready top;
  }

  abbrev pub write_back_data : DataMemory → d.Vgpu → d.Vgpu
  write_back_data m top = d.set_data_mem_read_ready m.read_ready (
      d.set_data_mem_write_ready m.write_ready (
        d.set_data_mem_read_data (λ i. signal_behind (m.read_data i) (d.data_mem_read_data top i))
          top))
