-- ===== src/Simlib/DataMemory/Cycle/Reads.antt =====
-- The second loop of a cycle of the data memory: the reads of all channels.
use smol_gpu.Prelude.{
  ℕ, zero, suc, ◌<◌, ◌≤◌, ◌≡◌, refl, subst, sym, ap, ◌∙◌, Bool, true, false, Option, none, some,
  ◌==◌, ltb, if◌then◌else◌, arith,
}
use smol_gpu.Prelude.Checked.{bind-eq-some, some-injective}
use smol_gpu.Simlib.Signal.{get_bit}
use smol_gpu.Simlib.Channels.{cover, cover_same, ready-cover}
use smol_gpu.Simlib.Store.{value_at, value_at-touch}
use smol_gpu.Simlib.InstructionMemory.{max_size}
use smol_gpu.Simlib.DataMemory.{
  DataMemory, update_pointer, load_word, serve, acknowledge_read, read_request, read_channel,
  process_reads,
}

-- The pointer that channel `j` is left with, and the signal it leads to: a request for a word of the
-- memory gets the word, one for the last address gets a null pointer.
abbrev pub fetched : DataMemory → ℕ → Option ℕ
fetched m j =
    if get_bit m.read_valid j
    then (if ltb (m.read_address j) max_size
        then some (value_at (m.read_address j) m.memory)
        else none)
    else m.read_data j

-- `t` is `m` behind the reads of the first `n` channels.
pub record HasRead (n : ℕ) (m t : DataMemory) : Type 0 where
  pub read_valid_is : t.read_valid ≡ m.read_valid
  pub read_address_is : (j : ℕ) → t.read_address j ≡ m.read_address j
  pub write_ready_is : t.write_ready ≡ m.write_ready
  pub memory_is : (a : ℕ) → value_at a t.memory ≡ value_at a m.memory
  pub read_ready_is :
      (j : ℕ)
      → j < 8
      → get_bit t.read_ready j
        ≡ (if ltb j n then get_bit m.read_valid j else get_bit m.read_ready j)
  pub data_is : (j : ℕ) → t.read_data j ≡ (if ltb j n then fetched m j else m.read_data j)

module _ (n : ℕ) (m t : DataMemory) (hn : n < 8) (h : HasRead n m t) where
  fetched-suc :
      (p : Option ℕ)
      → p ≡ fetched m n
      → (j : ℕ)
      → update_pointer n p t.read_data j ≡ (if ltb j (suc n) then fetched m j else m.read_data j)
  unfolding update_pointer
  fetched-suc p e j =
      ap (λ (x : Option ℕ). if j == n then p else x) (h.data_is j)
      ∙ cover (fetched m) m.read_data j n p e

  load-HasRead :
      (p : Option ℕ) (u : DataMemory)
      → get_bit m.read_valid n ≡ true
      → ltb (t.read_address n) max_size ≡ true
      → load_word n p t ≡ some u
      → HasRead (suc n) m (acknowledge_read n true u)
  load-HasRead none u e fits ran = cc
  load-HasRead (some old) u e fits ran =
      subst (λ (x : DataMemory). HasRead (suc n) m (acknowledge_read n true x)) (some-injective ran)
        (record {
          read_valid_is = h.read_valid_is;
          read_address_is = h.read_address_is;
          write_ready_is = h.write_ready_is;
          memory_is = λ a. value_at-touch a (t.read_address n) t.memory ∙ h.memory_is a;
          read_ready_is =
              ready-cover n hn m.read_valid m.read_ready t.read_ready h.read_ready_is true e;
          data_is =
              fetched-suc _
                (rw (e, ← h.read_address_is n, fits, h.memory_is (t.read_address n)) refl);
        })

  serve-HasRead :
      (b : Bool) (u : DataMemory)
      → get_bit m.read_valid n ≡ true
      → ltb (t.read_address n) max_size ≡ b
      → serve n b t ≡ some u
      → HasRead (suc n) m (acknowledge_read n true u)
  serve-HasRead true u e fits ran = load-HasRead (t.read_data n) u e fits ran
  serve-HasRead false u e fits ran =
      subst (λ (x : DataMemory). HasRead (suc n) m (acknowledge_read n true x)) (some-injective ran)
        (record {
          read_valid_is = h.read_valid_is;
          read_address_is = h.read_address_is;
          write_ready_is = h.write_ready_is;
          memory_is = h.memory_is;
          read_ready_is =
              ready-cover n hn m.read_valid m.read_ready t.read_ready h.read_ready_is true e;
          data_is = fetched-suc none (rw (e, ← h.read_address_is n, fits) refl);
        })

  request-HasRead :
      (b : Bool) (u : DataMemory)
      → get_bit m.read_valid n ≡ b
      → read_request n b t ≡ some u
      → HasRead (suc n) m u
  request-HasRead true u e ran =
      let (v, served, ended) = bind-eq-some (serve n (ltb (t.read_address n) max_size) t) _ ran in
      subst (HasRead (suc n) m) (some-injective ended) (serve-HasRead _ v e refl served)
  request-HasRead false u e ran = subst (HasRead (suc n) m) (some-injective ran) (record {
    read_valid_is = h.read_valid_is;
    read_address_is = h.read_address_is;
    write_ready_is = h.write_ready_is;
    memory_is = h.memory_is;
    read_ready_is = ready-cover n hn m.read_valid m.read_ready t.read_ready h.read_ready_is false e;
    data_is = λ j. h.data_is j ∙ cover_same (fetched m) m.read_data j n (rw e refl);
  })

pub process_reads-HasRead :
    (n : ℕ) (m t : DataMemory) → n ≤ 8 → process_reads n m ≡ some t → HasRead n m t
unfolding process_reads read_channel
process_reads-HasRead zero m t h ran = subst (HasRead 0 m) (some-injective ran) (record {
  read_valid_is = refl;
  read_address_is = λ j. refl;
  write_ready_is = refl;
  memory_is = λ a. refl;
  read_ready_is = λ j small. ground arith;
  data_is = λ j. ground arith;
})
process_reads-HasRead (suc n) m t h ran =
    let (u, first, last) = bind-eq-some (process_reads n m) (read_channel n) ran in
    let before = process_reads-HasRead n m u (omega arith) first in
    request-HasRead n m u (omega arith) before _ t
      (ap (λ (v : ℕ). get_bit v n) (sym before.read_valid_is)) last
