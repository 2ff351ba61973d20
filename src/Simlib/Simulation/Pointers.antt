-- ===== src/Simlib/Simulation/Pointers.antt =====
-- The pointers to the data signals over the rounds of `simulate`: what makes one null, and that it stays so.
use smol_gpu.Prelude.{
  ℕ, ◌<◌, ◌≤◌, ◌≡◌, ◌↔◌, refl, sym, ◌∙◌, subst, true, false, Option, none, some, Bool-cases,
  Option-cases, inl, inr, ltb,
}
use smol_gpu.Prelude.Checked.{bind-eq-some, some-injective}
use smol_gpu.Simlib.Signal.{get_bit}
use smol_gpu.Simlib.InstructionMemory.{max_size}
use smol_gpu.Simlib.DataMemory
use smol_gpu.Simlib.DataMemory.{DataMemory}
use smol_gpu.Simlib.DataMemory.Faults.{IsFault, process-eq_none_iff}
use smol_gpu.Simlib.DataMemory.Cycle.{IsCycle, process-IsCycle}
use smol_gpu.Simlib.Device.{Device, attach_data, through}
use smol_gpu.Simlib.Simulation.{System, evaluate, process_instructions, process_data, cycle}
use smol_gpu.Simlib.Simulation.Steps.{Running, start, next}

-- The pointers to the data signals are not null.
abbrev pub IsAttached : DataMemory → Type 0
IsAttached m = (j : ℕ) → (v : ℕ) × (m.read_data j ≡ some v)

-- The data memory as the round on `u` finds it, with the requests of the device.
abbrev pub requests : (d : Device) → ℕ → System d → DataMemory
requests d n u = let t = process_instructions d n (evaluate d u) in attach_data d t.top t.data_mem

-- Channel `j` asks for the word at the last address.
abbrev pub AsksAbove : DataMemory → ℕ → Type 0
AsksAbove m j = (get_bit m.read_valid j ≡ true) × (ltb (m.read_address j) max_size ≡ false)

-- Channel `j` asks for a word of the memory.
abbrev pub AsksBelow : DataMemory → ℕ → Type 0
AsksBelow m j = (get_bit m.read_valid j ≡ true) × (ltb (m.read_address j) max_size ≡ true)

pub through-null : (o : Option ℕ) (signal : ℕ) → through o signal ≡ none → o ≡ none
through-null none signal h = refl
through-null (some old) signal h = cc

module _ (d : Device) (n : ℕ) (few : n ≤ 8) where
  abbrev pub IsNull : System d → ℕ → Type 0
  IsNull s j = s.data_mem.read_data j ≡ none

  pub cycle-eq_none_iff :
      (u : System d)
      → (cycle d n (evaluate d u) ≡ none) ↔ ((j : ℕ) × (j < n) × IsFault (requests d n u) j)
  unfolding cycle process_data
  cycle-eq_none_iff u = elim (Option-cases (DataMemory.process n (requests d n u))) [
    | inl fails ↦ (λ h. (process-eq_none_iff n (requests d n u)).0 fails, λ h. rw fails refl)
    | inr (m, runs) ↦
        (λ h. cc (rw runs at h), λ h. cc (runs, (process-eq_none_iff n (requests d n u)).1 h))
  ]

  cycle-IsCycle :
      (u t : System d) → cycle d n (evaluate d u) ≡ some t → IsCycle n (requests d n u) t.data_mem
  unfolding cycle process_data
  cycle-IsCycle u t h =
      let (v, ran, same) =
        bind-eq-some (process_data d n (process_instructions d n (evaluate d u))) _ h in
      let (m, served, made) = bind-eq-some (DataMemory.process n (requests d n u)) _ ran in
      subst (λ (x : System d). IsCycle n (requests d n u) x.data_mem) (some-injective same)
        (subst (λ (x : System d). IsCycle n (requests d n u) x.data_mem) (some-injective made)
          (process-IsCycle n (requests d n u) few served))

  module _ (j : ℕ) (below : j < n) where
    -- A pointer becomes null by a request for the last address alone.
    pub cycle-AsksAbove :
        (u t : System d) (v : ℕ)
        → cycle d n (evaluate d u) ≡ some t
        → u.data_mem.read_data j ≡ some v
        → IsNull t j
        → AsksAbove (requests d n u) j
    unfolding process_instructions
    cycle-AsksAbove u t v h set null =
        let m = requests d n u in
        let is = sym ((cycle-IsCycle u t h).data_is j below) ∙ null in
        elim (Bool-cases (get_bit m.read_valid j)) [
          | inl asks ↦ elim (Bool-cases (ltb (m.read_address j) max_size)) [
            | inl low ↦ cc (rw (asks, low) at is)
            | inr above ↦ (asks, above)
          ]
          | inr idle ↦ cc (set, through-null (u.data_mem.read_data j) _ (rw idle at is))
        ]

    pub cycle-IsNull :
        (u t : System d)
        → cycle d n (evaluate d u) ≡ some t
        → AsksAbove (requests d n u) j
        → IsNull t j
    cycle-IsNull u t h (asks, above) = (cycle-IsCycle u t h).data_is j below ∙ rw (asks, above) refl

    -- A null pointer stays null.
    cycle-stays : (u t : System d) → cycle d n (evaluate d u) ≡ some t → IsNull u j → IsNull t j
    unfolding process_instructions
    cycle-stays u t h null =
        let m = requests d n u in
        elim (Bool-cases (get_bit m.read_valid j)) [
          | inl asks ↦ elim (Bool-cases (ltb (m.read_address j) max_size)) [
            | inl low ↦ cc (h, (cycle-eq_none_iff u).1 (j, below, (asks, low, rw null refl)))
            | inr above ↦ cycle-IsNull u t h (asks, above)
          ]
          | inr idle ↦ (cycle-IsCycle u t h).data_is j below ∙ rw (idle, null) refl
        ]

    pub Running-stays : {k : ℕ} {s u : System d} → Running d n k s u → IsNull s j → IsNull u j
    Running-stays start null = null
    Running-stays (next {s} {t} busy ran run) null = Running-stays run (cycle-stays s t ran null)
