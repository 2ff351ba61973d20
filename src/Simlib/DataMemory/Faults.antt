-- ===== src/Simlib/DataMemory/Faults.antt =====
-- When a cycle of the data memory writes through a null pointer.
use smol_gpu.Prelude.{
  ℕ, zero, suc, ◌<◌, ◌≤◌, ◌≡◌, ◌↔◌, ◌⊎◌, inl, inr, refl, subst, sym, ◌∙◌, Bool, true, false, Option,
  none, some, ◌==◌, ==_iff, ltb, Bool-cases, arith, Option-cases,
}
use smol_gpu.Prelude.Checked.{Checked, ◌>>=◌, bind-eq-some, some-injective}
use smol_gpu.Simlib.Signal.{get_bit}
use smol_gpu.Simlib.InstructionMemory.{max_size}
use smol_gpu.Simlib.DataMemory.{
  DataMemory, update_pointer, store_word, write_request, write_channel, process_writes, load_word,
  serve, acknowledge_read, read_request, read_channel, process_reads, process,
}

-- Channel `j` asks for a word of the memory, and its data pointer is null.
abbrev pub IsFault : DataMemory → ℕ → Type 0
IsFault m j =
    (get_bit m.read_valid j ≡ true)
    × (ltb (m.read_address j) max_size ≡ true)
    × (m.read_data j ≡ none)

-- What the second loop keeps for the channels from `n` on.
record Keeps (n : ℕ) (m t : DataMemory) : Type 0 where
  valid_is : t.read_valid ≡ m.read_valid
  address_is : (j : ℕ) → t.read_address j ≡ m.read_address j
  data_is : (j : ℕ) → n ≤ j → t.read_data j ≡ m.read_data j

update-later :
    (n j : ℕ) (p : Option ℕ) (f : ℕ → Option ℕ) → suc n ≤ j → update_pointer n p f j ≡ f j
unfolding update_pointer
update-later n j p f later = ground arith

module _ (n : ℕ) (m : DataMemory) where
  load-Keeps : (p : Option ℕ) (t : DataMemory) → load_word n p m ≡ some t → Keeps (suc n) m t
  load-Keeps none t h = cc
  load-Keeps (some old) t h = subst (Keeps (suc n) m) (some-injective h) (record {
    valid_is = refl;
    address_is = λ j. refl;
    data_is = λ j later. update-later n j _ m.read_data later;
  })

  serve-Keeps : (b : Bool) (t : DataMemory) → serve n b m ≡ some t → Keeps (suc n) m t
  serve-Keeps true t h = load-Keeps (m.read_data n) t h
  serve-Keeps false t h = subst (Keeps (suc n) m) (some-injective h) (record {
    valid_is = refl;
    address_is = λ j. refl;
    data_is = λ j later. update-later n j none m.read_data later;
  })

  acknowledged :
      (b : Bool) (t : DataMemory) → Keeps (suc n) m t → Keeps (suc n) m (acknowledge_read n b t)
  acknowledged b t h = record {
    valid_is = h.valid_is;
    address_is = h.address_is;
    data_is = h.data_is;
  }

  request-Keeps : (b : Bool) (t : DataMemory) → read_request n b m ≡ some t → Keeps (suc n) m t
  request-Keeps true t h =
      let (u, made, ended) = bind-eq-some (serve n (ltb (m.read_address n) max_size) m) _ h in
      subst (Keeps (suc n) m) (some-injective ended) (acknowledged true u (serve-Keeps _ u made))
  request-Keeps false t h = subst (Keeps (suc n) m) (some-injective h) (
      acknowledged false m
        (record { valid_is = refl; address_is = λ j. refl; data_is = λ j later. refl }))

  serve-eq_none_iff : (b : Bool) → (serve n b m ≡ none) ↔ ((b ≡ true) × (m.read_data n ≡ none))
  serve-eq_none_iff true = by_pointer (m.read_data n)
    where
      by_pointer : (p : Option ℕ) → (load_word n p m ≡ none) ↔ ((true ≡ true) × (p ≡ none))
      by_pointer none = ground arith
      by_pointer (some old) = ground arith
  serve-eq_none_iff false = ground arith

  bind-eq_none :
      (r : Checked DataMemory) (f : DataMemory → DataMemory)
      → ((r >>= λ t. some (f t)) ≡ none) ↔ (r ≡ none)
  bind-eq_none none f = ground arith
  bind-eq_none (some t) f = ground arith

  -- Channel `n` fails exactly on a fault of its own.
  request-eq_none_iff :
      (b : Bool)
      → (read_request n b m ≡ none)
        ↔ ((b ≡ true) × (ltb (m.read_address n) max_size ≡ true) × (m.read_data n ≡ none))
  request-eq_none_iff true =
      let bound =
        bind-eq_none (serve n (ltb (m.read_address n) max_size) m) (acknowledge_read n true) in
      let served = serve-eq_none_iff (ltb (m.read_address n) max_size) in
      (
        λ h. (refl, (served.0 (bound.0 h)).0, (served.0 (bound.0 h)).1),
        λ h. bound.1 (served.1 (h.1, h.2)),
      )
  request-eq_none_iff false = ground arith

process_reads-Keeps : (n : ℕ) (m t : DataMemory) → process_reads n m ≡ some t → Keeps n m t
unfolding process_reads read_channel
process_reads-Keeps zero m t h =
    subst (Keeps 0 m) (some-injective h)
      (record { valid_is = refl; address_is = λ j. refl; data_is = λ j later. refl })
process_reads-Keeps (suc n) m t h =
    let (u, first, last) = bind-eq-some (process_reads n m) (read_channel n) h in
    let before = process_reads-Keeps n m u first in
    let after = request-Keeps n u _ t last in
    record {
      valid_is = after.valid_is ∙ before.valid_is;
      address_is = λ j. after.address_is j ∙ before.address_is j;
      data_is = λ j later. after.data_is j later ∙ before.data_is j (omega arith);
    }

same-IsFault : (n : ℕ) (m t : DataMemory) → Keeps n m t → IsFault t n ↔ IsFault m n
same-IsFault n m t h = rw (h.valid_is, h.address_is n, h.data_is n (omega arith)) (λ x. x, λ x. x)

abbrev FaultBelow : ℕ → DataMemory → Type 0
FaultBelow n m = (j : ℕ) × (j < n) × IsFault m j

more-FaultBelow : (n : ℕ) (m : DataMemory) → FaultBelow n m → FaultBelow (suc n) m
more-FaultBelow n m (j, below, fault) = (j, omega arith, fault)

last-FaultBelow : (n : ℕ) (m : DataMemory) → FaultBelow (suc n) m → FaultBelow n m ⊎ IsFault m n
last-FaultBelow n m (j, below, fault) = elim (Bool-cases (j == n)) [
  | inl same ↦ inr (subst (IsFault m) ((==_iff j n).0 same) fault)
  | inr differ ↦ inl (j, ground (arith, differ, below), fault)
]

process_reads-eq_none_iff : (n : ℕ) (m : DataMemory) → (process_reads n m ≡ none) ↔ FaultBelow n m
unfolding process_reads read_channel
process_reads-eq_none_iff zero m = (λ h. absurd (cc h), λ (j, below, fault). absurd (omega arith))
process_reads-eq_none_iff (suc n) m = elim (Option-cases (process_reads n m)) [
  | inl fails ↦
      rw fails (λ h. more-FaultBelow n m ((process_reads-eq_none_iff n m).0 fails), λ h. refl)
  | inr (u, runs) ↦
      let own = request-eq_none_iff n u (get_bit u.read_valid n) in
      let same = same-IsFault n m u (process_reads-Keeps n m u runs) in
      rw runs (
        λ h. (n, omega arith, same.0 (own.0 h)),
        λ h. own.1 (
            same.1 (elim (last-FaultBelow n m h) [
              | inl earlier ↦ absurd (cc (runs, (process_reads-eq_none_iff n m).1 earlier))
              | inr now ↦ now
            ])),
      )
]

store_word-same :
    (i : ℕ) (b : Bool) (m : DataMemory) (j : ℕ) → IsFault (store_word i b m) j ≡ IsFault m j
store_word-same i true m j = refl
store_word-same i false m j = refl

write_request-same :
    (i : ℕ) (b : Bool) (m : DataMemory) (j : ℕ) → IsFault (write_request i b m) j ≡ IsFault m j
write_request-same i true m j = store_word-same i _ m j
write_request-same i false m j = refl

process_writes-same :
    (n : ℕ) (m : DataMemory) (j : ℕ) → IsFault (process_writes n m) j ≡ IsFault m j
unfolding process_writes write_channel
process_writes-same zero m j = refl
process_writes-same (suc n) m j =
    write_request-same n _ (process_writes n m) j ∙ process_writes-same n m j

-- A cycle fails exactly where one of its channels asks for a word of the memory while its data
-- pointer is null.
pub process-eq_none_iff :
    (n : ℕ) (m : DataMemory) → (process n m ≡ none) ↔ ((j : ℕ) × (j < n) × IsFault m j)
unfolding process
process-eq_none_iff n m =
    let fails = process_reads-eq_none_iff n (process_writes n m) in
    (
      λ h.
          let (j, below, fault) = fails.0 h in
          (j, below, subst (λ (A : Type 0). A) (process_writes-same n m j) fault),
      λ (j, below, fault).
          fails.1 (j, below, subst (λ (A : Type 0). A) (sym (process_writes-same n m j)) fault),
    )
