-- ===== src/Simlib/InstructionMemory/Served.antt =====
-- Every request of a cycle is served, and no other.
use smol_gpu.Prelude.{
  ℕ, zero, suc, ◌<◌, ◌≤◌, ◌≡◌, refl, sym, ap, ◌∙◌, Bool, true, false, ◌==◌, ltb, if◌then◌else◌,
  arith,
}
use smol_gpu.Simlib.Signal.{get_bit}
use smol_gpu.Simlib.Channels.{cover, cover_same, ready-cover}
use smol_gpu.Simlib.Store.{value_at, value_at-touch}
use smol_gpu.Simlib.InstructionMemory.{
  InstructionMemory, max_size, update, serve, acknowledge, process_request, process_channel,
  process,
}

-- What the memory `m` answers channel `j`.
abbrev pub answer : InstructionMemory → ℕ → ℕ
answer m j = if ltb (m.read_address j) max_size then value_at (m.read_address j) m.memory else 0

-- `t` is `m` after the first `n` channels have been served.
pub record IsServed (n : ℕ) (m t : InstructionMemory) : Type 0 where
  pub valid_is : t.read_valid ≡ m.read_valid
  pub address_is : (j : ℕ) → t.read_address j ≡ m.read_address j
  pub memory_is : (a : ℕ) → value_at a t.memory ≡ value_at a m.memory
  pub ready_is :
      (j : ℕ)
      → j < 8
      → get_bit t.read_ready j
        ≡ (if ltb j n then get_bit m.read_valid j else get_bit m.read_ready j)
  pub data_is :
      (j : ℕ)
      → t.read_data j ≡ (
          if ltb j n
          then (if get_bit m.read_valid j then answer m j else m.read_data j)
          else m.read_data j)

-- The data signal that the memory `m` leaves on channel `j`.
abbrev data_of : InstructionMemory → ℕ → ℕ
data_of m j = if get_bit m.read_valid j then answer m j else m.read_data j

module _ (n : ℕ) (m t : InstructionMemory) (hn : n < 8) (h : IsServed n m t) where
  data-suc :
      (v : ℕ)
      → get_bit m.read_valid n ≡ true
      → v ≡ answer m n
      → (j : ℕ) → update n v t.read_data j ≡ (if ltb j (suc n) then data_of m j else m.read_data j)
  unfolding update
  data-suc v e same j =
      ap (λ (x : ℕ). if j == n then v else x) (h.data_is j)
      ∙ cover (data_of m) m.read_data j n v (rw e same)

  served :
      (b : Bool)
      → get_bit m.read_valid n ≡ true
      → ltb (t.read_address n) max_size ≡ b
      → IsServed (suc n) m (acknowledge n true (serve n b t))
  served true e fits = record {
    valid_is = h.valid_is;
    address_is = h.address_is;
    memory_is = λ a. value_at-touch a (t.read_address n) t.memory ∙ h.memory_is a;
    ready_is = ready-cover n hn m.read_valid m.read_ready t.read_ready h.ready_is true e;
    data_is = data-suc _ e (rw (← h.address_is n, fits, h.memory_is (t.read_address n)) refl);
  }
  served false e fits = record {
    valid_is = h.valid_is;
    address_is = h.address_is;
    memory_is = h.memory_is;
    ready_is = ready-cover n hn m.read_valid m.read_ready t.read_ready h.ready_is true e;
    data_is = data-suc 0 e (rw (← h.address_is n, fits) refl);
  }

  process-suc :
      (requested : Bool)
      → get_bit m.read_valid n ≡ requested
      → IsServed (suc n) m (process_request n requested t)
  process-suc true e = served _ e refl
  process-suc false e = record {
    valid_is = h.valid_is;
    address_is = h.address_is;
    memory_is = h.memory_is;
    ready_is = ready-cover n hn m.read_valid m.read_ready t.read_ready h.ready_is false e;
    data_is = λ j. h.data_is j ∙ cover_same (data_of m) m.read_data j n (rw e refl);
  }

-- After a cycle with at most eight channels, the ready bit of each channel is its valid bit, and the
-- bits of the others are kept; a channel with a request reads the word at its address, which is 0
-- where none is stored and for the last address; every other data signal, every address and the
-- words of the memory are kept.
pub process-IsServed : (n : ℕ) (m : InstructionMemory) → n ≤ 8 → IsServed n m (process n m)
unfolding process process_channel
process-IsServed zero m h = record {
  valid_is = refl;
  address_is = λ j. refl;
  memory_is = λ a. refl;
  ready_is = λ j small. ground arith;
  data_is = λ j. ground arith;
}
process-IsServed (suc n) m h =
    let before = process-IsServed n m (omega arith) in
    process-suc n m (process n m) (omega arith) before _
      (ap (λ (v : ℕ). get_bit v n) (sym before.valid_is))
