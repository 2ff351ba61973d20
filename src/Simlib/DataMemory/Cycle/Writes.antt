-- ===== src/Simlib/DataMemory/Cycle/Writes.antt =====
-- The first loop of a cycle of the data memory: the writes of all channels.
use smol_gpu.Prelude.{
  ℕ, zero, suc, ◌<◌, ◌≤◌, ◌≡◌, refl, sym, ap, ◌∙◌, Bool, true, false, ◌&&◌, ◌==◌, ltb,
  if◌then◌else◌, arith,
}
use smol_gpu.Simlib.Signal.{get_bit}
use smol_gpu.Simlib.Channels.{ready-cover}
use smol_gpu.Simlib.Store.{value_at, value_at-write}
use smol_gpu.Simlib.InstructionMemory.{max_size}
use smol_gpu.Simlib.DataMemory.{
  DataMemory, acknowledge_write, store_word, write_request, write_channel, process_writes,
}

-- Channel `j` writes to the address `a`.
abbrev pub writes_to : DataMemory → ℕ → ℕ → Bool
writes_to m a j =
    get_bit m.write_valid j && (ltb (m.write_address j) max_size && (m.write_address j == a))

-- The word at `a` behind the writes of the first `n` channels: that of the last channel that writes
-- there, or the word that was there.
abbrev pub word_behind : ℕ → DataMemory → ℕ → ℕ
word_behind zero m a = value_at a m.memory
word_behind (suc n) m a = if writes_to m a n then m.write_data n else word_behind n m a

-- `t` is `m` behind the writes of the first `n` channels.
pub record Wrote (n : ℕ) (m t : DataMemory) : Type 0 where
  pub read_valid_is : t.read_valid ≡ m.read_valid
  pub read_address_is : t.read_address ≡ m.read_address
  pub read_data_is : t.read_data ≡ m.read_data
  pub read_ready_is : t.read_ready ≡ m.read_ready
  pub write_valid_is : t.write_valid ≡ m.write_valid
  pub write_address_is : t.write_address ≡ m.write_address
  pub write_data_is : t.write_data ≡ m.write_data
  pub memory_is : (a : ℕ) → value_at a t.memory ≡ word_behind n m a
  pub write_ready_is :
      (j : ℕ)
      → j < 8
      → get_bit t.write_ready j
        ≡ (if ltb j n then get_bit m.write_valid j else get_bit m.write_ready j)

module _ (n : ℕ) (m t : DataMemory) (hn : n < 8) (h : Wrote n m t) where
  stored-Wrote :
      (b : Bool)
      → get_bit m.write_valid n ≡ true
      → ltb (t.write_address n) max_size ≡ b
      → Wrote (suc n) m (acknowledge_write n true (store_word n b t))
  stored-Wrote true e fits = record {
    read_valid_is = h.read_valid_is;
    read_address_is = h.read_address_is;
    read_data_is = h.read_data_is;
    read_ready_is = h.read_ready_is;
    write_valid_is = h.write_valid_is;
    write_address_is = h.write_address_is;
    write_data_is = h.write_data_is;
    memory_is = λ a.
        value_at-write a (t.write_address n) (t.write_data n) t.memory
        ∙ rw
            (
              h.write_address_is,
              h.write_data_is,
              e,
              ap (λ (f : ℕ → ℕ). ltb (f n) max_size) (sym h.write_address_is) ∙ fits,
              h.memory_is a,
            )
            refl;
    write_ready_is =
        ready-cover n hn m.write_valid m.write_ready t.write_ready h.write_ready_is true e;
  }
  stored-Wrote false e fits = record {
    read_valid_is = h.read_valid_is;
    read_address_is = h.read_address_is;
    read_data_is = h.read_data_is;
    read_ready_is = h.read_ready_is;
    write_valid_is = h.write_valid_is;
    write_address_is = h.write_address_is;
    write_data_is = h.write_data_is;
    memory_is = λ a.
        rw
          (e, ap (λ (f : ℕ → ℕ). ltb (f n) max_size) (sym h.write_address_is) ∙ fits, h.memory_is a)
          refl;
    write_ready_is =
        ready-cover n hn m.write_valid m.write_ready t.write_ready h.write_ready_is true e;
  }

  request-Wrote : (b : Bool) → get_bit m.write_valid n ≡ b → Wrote (suc n) m (write_request n b t)
  request-Wrote true e = stored-Wrote _ e refl
  request-Wrote false e = record {
    read_valid_is = h.read_valid_is;
    read_address_is = h.read_address_is;
    read_data_is = h.read_data_is;
    read_ready_is = h.read_ready_is;
    write_valid_is = h.write_valid_is;
    write_address_is = h.write_address_is;
    write_data_is = h.write_data_is;
    memory_is = λ a. rw (e, h.memory_is a) refl;
    write_ready_is =
        ready-cover n hn m.write_valid m.write_ready t.write_ready h.write_ready_is false e;
  }

pub process_writes-Wrote : (n : ℕ) (m : DataMemory) → n ≤ 8 → Wrote n m (process_writes n m)
unfolding process_writes write_channel
process_writes-Wrote zero m h = record {
  read_valid_is = refl;
  read_address_is = refl;
  read_data_is = refl;
  read_ready_is = refl;
  write_valid_is = refl;
  write_address_is = refl;
  write_data_is = refl;
  memory_is = λ a. refl;
  write_ready_is = λ j small. ground arith;
}
process_writes-Wrote (suc n) m h =
    let before = process_writes-Wrote n m (omega arith) in
    request-Wrote n m (process_writes n m) (omega arith) before _
      (ap (λ (v : ℕ). get_bit v n) (sym before.write_valid_is))
