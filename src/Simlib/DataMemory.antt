-- ===== src/Simlib/DataMemory.antt =====
-- `DataMemory` of sim/simlib/sim.hpp. The source keeps a pointer to each `read_data` signal and
-- overwrites the pointer, not the signal, on an invalid address: `none` is that null pointer.
pub mod Faults
pub mod Reported
pub mod Cycle
pub mod Printing
use smol_gpu.Prelude.{
  ℕ, zero, suc, ◌+◌, Bool, true, false, Option, none, some, ◌==◌, ltb, if◌then◌else◌, List, [], ◌∷◌,
  ◌++◌, Text, codes,
}
use smol_gpu.Prelude.Decimal.{decimal}
use smol_gpu.Prelude.Word.{u32}
use smol_gpu.Prelude.Checked.{Checked, ◌>>=◌}
use smol_gpu.Simlib.Signal.{get_bit, set_bit}
use smol_gpu.Simlib.Store.{Store, value_at, touch, write}
use smol_gpu.Simlib.InstructionMemory.{max_size}

pub record DataMemory : Type 0 where
  pub read_valid : ℕ
  pub read_address : ℕ → ℕ
  pub read_ready : ℕ
  pub read_data : ℕ → Option ℕ
  pub write_valid : ℕ
  pub write_address : ℕ → ℕ
  pub write_data : ℕ → ℕ
  pub write_ready : ℕ
  pub memory : Store
  pub stack_ptr : ℕ

-- The array with `p` at `i`.
unfoldable pub update_pointer : ℕ → Option ℕ → (ℕ → Option ℕ) → ℕ → Option ℕ
update_pointer i p f j = if j == i then p else f j

abbrev pub acknowledge_write : ℕ → Bool → DataMemory → DataMemory
acknowledge_write i ready m = record m { write_ready = set_bit m.write_ready i ready }

abbrev pub store_word : ℕ → Bool → DataMemory → DataMemory
store_word i true m = record m { memory = write (m.write_address i) (m.write_data i) m.memory }
store_word i false m = m

abbrev pub write_request : ℕ → Bool → DataMemory → DataMemory
write_request i true m =
    acknowledge_write i true (store_word i (ltb (m.write_address i) max_size) m)
write_request i false m = acknowledge_write i false m

-- One round of the first loop, and the loop.
unfoldable pub write_channel : ℕ → DataMemory → DataMemory
unfolding get_bit set_bit
write_channel i m = write_request i (get_bit m.write_valid i) m

unfoldable pub process_writes : ℕ → DataMemory → DataMemory
unfolding write_channel
process_writes zero m = m
process_writes (suc n) m = write_channel n (process_writes n m)

-- `*read_data[i] = memory[address]`: a write through a null pointer fails.
abbrev pub load_word : ℕ → Option ℕ → DataMemory → Checked DataMemory
load_word i none m = none
load_word i (some old) m = some (record m {
  read_data = update_pointer i (some (value_at (m.read_address i) m.memory)) m.read_data;
  memory = touch (m.read_address i) m.memory;
})

abbrev pub serve : ℕ → Bool → DataMemory → Checked DataMemory
serve i true m = load_word i (m.read_data i) m
serve i false m = some (record m { read_data = update_pointer i none m.read_data })

abbrev pub acknowledge_read : ℕ → Bool → DataMemory → DataMemory
acknowledge_read i ready m = record m { read_ready = set_bit m.read_ready i ready }

abbrev pub read_request : ℕ → Bool → DataMemory → Checked DataMemory
read_request i true m = do
  t ← serve i (ltb (m.read_address i) max_size) m
  some (acknowledge_read i true t)
read_request i false m = some (acknowledge_read i false m)

-- One round of the second loop, and the loop.
unfoldable pub read_channel : ℕ → DataMemory → Checked DataMemory
unfolding get_bit set_bit value_at touch update_pointer
read_channel i m = read_request i (get_bit m.read_valid i) m

unfoldable pub process_reads : ℕ → DataMemory → Checked DataMemory
unfolding read_channel
process_reads zero m = some m
process_reads (suc n) m = process_reads n m >>= read_channel n

-- `process` with so many channels: the writes first; what it prints is `printed`.
unfoldable pub process : ℕ → DataMemory → Checked DataMemory
unfolding process_writes process_reads
process n m = process_reads n (process_writes n m)

unfoldable pub push_data : ℕ → DataMemory → DataMemory
push_data value m = record m {
  memory = write m.stack_ptr value m.memory;
  stack_ptr = u32 (m.stack_ptr + 1);
}

-- What a round prints to `stderr`: the error for a request that is out of range.
abbrev errors_of : Text → Bool → Bool → ℕ → List Text
errors_of text true false address = (text ++ decimal address) ∷ []
errors_of text true true address = []
errors_of text false b address = []

abbrev write_errors : ℕ → DataMemory → List Text
write_errors i m =
    errors_of (codes "Error: Write to invalid address ") (get_bit m.write_valid i)
      (ltb (m.write_address i) max_size) (m.write_address i)

abbrev read_errors : ℕ → DataMemory → List Text
read_errors i m =
    errors_of (codes "Error: Read from invalid address ") (get_bit m.read_valid i)
      (ltb (m.read_address i) max_size) (m.read_address i)

-- A round behind a write through a null pointer does not run.
abbrev errors_behind : ℕ → Checked DataMemory → List Text
errors_behind i none = []
errors_behind i (some m) = read_errors i m

-- What the two loops print to `stderr`, each round on the state that the rounds before it leave.
unfoldable pub printed_writes : ℕ → DataMemory → List Text
unfolding process_writes get_bit decimal
printed_writes zero m = []
printed_writes (suc n) m = printed_writes n m ++ write_errors n (process_writes n m)

unfoldable pub printed_reads : ℕ → DataMemory → List Text
unfolding process_reads get_bit decimal
printed_reads zero m = []
printed_reads (suc n) m = printed_reads n m ++ errors_behind n (process_reads n m)

-- What `process` prints to `stderr`, up to its end or to a write through a null pointer.
unfoldable pub printed : ℕ → DataMemory → List Text
unfolding process_writes printed_writes printed_reads
printed n m = printed_writes n m ++ printed_reads n (process_writes n m)
