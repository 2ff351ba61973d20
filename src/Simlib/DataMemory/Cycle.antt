-- ===== src/Simlib/DataMemory/Cycle.antt =====
-- What a cycle of the data memory does: the writes of all channels, and then the reads.
pub mod Writes
pub mod Reads
use smol_gpu.Prelude.{
  ℕ, zero, suc, ◌<◌, ◌≤◌, ◌≡◌, refl, subst, sym, ap, ◌∙◌, Bool, true, false, ◌&&◌, Option, none,
  some, ◌==◌, ltb, lt→ltb, le→ltb, if◌then◌else◌, arith,
}
use smol_gpu.Prelude.Checked.{bind-eq-some, some-injective}
use smol_gpu.Simlib.Signal.{get_bit}
use smol_gpu.Simlib.Channels.{cover, cover_same, ready-cover}
use smol_gpu.Simlib.Store.{value_at, value_at-write, value_at-touch}
use smol_gpu.Simlib.InstructionMemory.{max_size}
use smol_gpu.Simlib.DataMemory.{
  DataMemory, update_pointer, acknowledge_write, store_word, write_request, write_channel,
  process_writes, load_word, serve, acknowledge_read, read_request, read_channel, process_reads,
  process,
}
use Writes.{word_behind, Wrote, process_writes-Wrote}
use Reads.{HasRead, process_reads-HasRead}

-- `t` is `m` after a cycle of `n` channels.
pub record IsCycle (n : ℕ) (m t : DataMemory) : Type 0 where
  pub memory_is : (a : ℕ) → value_at a t.memory ≡ word_behind n m a
  pub data_is :
      (j : ℕ)
      → j < n
      → t.read_data j ≡ (
          if get_bit m.read_valid j
          then (if ltb (m.read_address j) max_size
              then some (word_behind n m (m.read_address j))
              else none)
          else m.read_data j)
  pub data_kept : (j : ℕ) → n ≤ j → t.read_data j ≡ m.read_data j
  pub read_ready_is :
      (j : ℕ)
      → j < 8
      → get_bit t.read_ready j
        ≡ (if ltb j n then get_bit m.read_valid j else get_bit m.read_ready j)
  pub write_ready_is :
      (j : ℕ)
      → j < 8
      → get_bit t.write_ready j
        ≡ (if ltb j n then get_bit m.write_valid j else get_bit m.write_ready j)

IsCycle-of : (n : ℕ) (m u t : DataMemory) → Wrote n m u → HasRead n u t → IsCycle n m t
IsCycle-of n m u t w r = record {
  memory_is = λ a. r.memory_is a ∙ w.memory_is a;
  data_is = λ j below.
      r.data_is j
      ∙ rw
          (
            lt→ltb j n below,
            w.read_valid_is,
            w.read_address_is,
            w.read_data_is,
            w.memory_is (m.read_address j),
          )
          refl;
  data_kept = λ j above. r.data_is j ∙ rw (le→ltb j n above, w.read_data_is) refl;
  read_ready_is = λ j small. r.read_ready_is j small ∙ rw (w.read_valid_is, w.read_ready_is) refl;
  write_ready_is =
      λ j small. ap (λ (v : ℕ). get_bit v j) r.write_ready_is ∙ w.write_ready_is j small;
}

-- A cycle of at most eight channels that ends: the word at an address is that of the last channel
-- that writes there, or the old one; a channel that asks for a word gets what is there behind all
-- these writes, one that asks for the last address is left with a null pointer, and the others' data
-- is kept; the ready bits are the valid bits, and those of further channels are kept.
pub process-IsCycle :
    (n : ℕ) (m : DataMemory) {t : DataMemory} → n ≤ 8 → process n m ≡ some t → IsCycle n m t
unfolding process
process-IsCycle n m {t} h ran =
    IsCycle-of n m (process_writes n m) t (process_writes-Wrote n m h)
      (process_reads-HasRead n (process_writes n m) t h ran)
