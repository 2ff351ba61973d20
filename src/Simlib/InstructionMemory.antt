-- ===== src/Simlib/InstructionMemory.antt =====
-- `InstructionMemory` of sim/simlib/sim.hpp. The pointers into the device are the signals that they
-- point to; an array of them is a function of the channel.
pub mod Served
use smol_gpu.Prelude.{
  ℕ, zero, suc, ◌+◌, ◌-◌, ◌%◌, ◌^◌, Bool, true, false, ◌==◌, ltb, if◌then◌else◌, List, [], ◌∷◌,
  ◌++◌, Text, codes,
}
use smol_gpu.Prelude.Decimal.{decimal}
use smol_gpu.Prelude.Word.{u32}
use smol_gpu.Isa.Encode.{InstructionBits}
use smol_gpu.Simlib.Signal.{get_bit, set_bit}
use smol_gpu.Simlib.Store.{Store, value_at, touch, write}

abbrev pub max_size : ℕ
max_size = 2 ^ 32 - 1

-- The array with `value` at `i`.
unfoldable pub update : ℕ → ℕ → (ℕ → ℕ) → ℕ → ℕ
update i value f j = if j == i then value else f j

pub record InstructionMemory : Type 0 where
  pub read_valid : ℕ
  pub read_address : ℕ → ℕ
  pub read_ready : ℕ
  pub read_data : ℕ → ℕ
  pub memory : Store
  pub stack_ptr : ℕ

-- `*read_data[i] = ...` for the request of channel `i`.
abbrev pub serve : ℕ → Bool → InstructionMemory → InstructionMemory
serve i true m = record m {
  read_data = update i (value_at (m.read_address i) m.memory) m.read_data;
  memory = touch (m.read_address i) m.memory;
}
serve i false m = record m { read_data = update i 0 m.read_data }

abbrev pub acknowledge : ℕ → Bool → InstructionMemory → InstructionMemory
acknowledge i ready m = record m { read_ready = set_bit m.read_ready i ready }

abbrev pub process_request : ℕ → Bool → InstructionMemory → InstructionMemory
process_request i true m = acknowledge i true (serve i (ltb (m.read_address i) max_size) m)
process_request i false m = acknowledge i false m

-- One round of the loop.
unfoldable pub process_channel : ℕ → InstructionMemory → InstructionMemory
unfolding get_bit set_bit value_at touch update
process_channel i m = process_request i (get_bit m.read_valid i) m

-- `process` with so many channels; what it prints is `printed`.
unfoldable pub process : ℕ → InstructionMemory → InstructionMemory
unfolding process_channel
process zero m = m
process (suc n) m = process_channel n (process n m)

-- What it prints is `load_printed`.
unfoldable pub load_instruction : ℕ → ℕ → InstructionMemory → InstructionMemory
load_instruction address instruction m =
    if ltb address max_size then record m { memory = write address instruction m.memory } else m

unfoldable pub push_instruction : InstructionBits → InstructionMemory → InstructionMemory
push_instruction instruction m = record m {
  memory = write m.stack_ptr instruction.word m.memory;
  stack_ptr = u32 (m.stack_ptr + 1);
}

-- What one round prints to `stderr`: the error for a request that is out of range.
abbrev errors_of : Bool → Bool → ℕ → List Text
errors_of true false address = (codes "Error: Read out of bounds " ++ decimal address) ∷ []
errors_of true true address = []
errors_of false b address = []

abbrev channel_errors : ℕ → InstructionMemory → List Text
channel_errors i m =
    errors_of (get_bit m.read_valid i) (ltb (m.read_address i) max_size) (m.read_address i)

-- What `process` prints to `stderr`, each round on the state that the rounds before it leave.
unfoldable pub printed : ℕ → InstructionMemory → List Text
unfolding process get_bit decimal
printed zero m = []
printed (suc n) m = printed n m ++ channel_errors n (process n m)

-- What `load_instruction` prints to `stderr`.
unfoldable pub load_printed : ℕ → List Text
unfolding decimal
load_printed address =
    if ltb address max_size
    then []
    else (codes "Error: Attempt to load instruction at invalid address " ++ decimal address) ∷ []
