-- ===== src/Simlib/Simulation/Steps.antt =====
-- The loop of `simulate` as a sequence of cycles, and what every cycle keeps.
use smol_gpu.Prelude.{
  ℕ, zero, suc, ◌<◌, ◌≤◌, ◌≡◌, ◌↔◌, refl, sym, ap, ◌∙◌, subst, Bool, true, false, some, arith,
  Bool-cases, inl, inr,
}
use smol_gpu.Prelude.Checked.{bind-eq-some, some-injective}
use smol_gpu.Simlib.Store.{value_at}
use smol_gpu.Simlib.InstructionMemory.Served.{process-IsServed}
use smol_gpu.Simlib.DataMemory
use smol_gpu.Simlib.DataMemory.{DataMemory}
use smol_gpu.Simlib.Device.{Device, attach_instructions}
use smol_gpu.Simlib.Simulation.{
  System, evaluate, is_done, process_instructions, process_data, cycle, run_cycles, simulate,
}

-- `k` rounds of the loop lead from `s` to `t`, and the device is done in none of them.
pub data Running (d : Device) (n : ℕ) : ℕ → System d → System d → Type 0 where
  start : {s : System d} → Running d n 0 s s
  next :
      {k : ℕ} {s t u : System d}
      → is_done d (evaluate d s) ≡ false
      → cycle d n (evaluate d s) ≡ some t
      → Running d n k t u
      → Running d n (suc k) s u

-- How a loop of at most `rounds` rounds ends: in the first round in which the device is done, or after
-- all of them.
abbrev pub Ends : (d : Device) → ℕ → ℕ → System d → Bool × System d → Type 0
Ends d n rounds s (true, t) =
    (k : ℕ) × (u : System d) × (k < rounds)
    × Running d n k s u
    × (is_done d (evaluate d u) ≡ true)
    × (evaluate d u ≡ t)
Ends d n rounds s (false, t) = Running d n rounds s t

module _ (d : Device) (n : ℕ) where
  Ends-next :
      (rounds : ℕ) (s u : System d) (r : Bool × System d)
      → is_done d (evaluate d s) ≡ false
      → cycle d n (evaluate d s) ≡ some u
      → Ends d n rounds u r
      → Ends d n (suc rounds) s r
  Ends-next rounds s u (true, t) busy ran (k, v, below, run, done, same) =
      (suc k, v, omega arith, next busy ran run, done, same)
  Ends-next rounds s u (false, t) busy ran run = next busy ran run

  run_cycles-Ends :
      (rounds : ℕ) (s : System d) (r : Bool × System d)
      → run_cycles d n rounds s ≡ some r
      → Ends d n rounds s r
  unfolding run_cycles
  run_cycles-Ends zero s r h = subst (Ends d n 0 s) (some-injective h) start
  run_cycles-Ends (suc rounds) s r h = elim (Bool-cases (is_done d (evaluate d s))) [
    | inl done ↦
        subst (Ends d n (suc rounds) s) (some-injective (rw done at h))
          (0, s, omega arith, start, done, refl)
    | inr busy ↦
        let (u, ran, rest) =
          bind-eq-some (cycle d n (evaluate d s)) (run_cycles d n rounds) (rw busy at h) in
        Ends-next rounds s u r busy ran (run_cycles-Ends rounds u r rest)
  ]

  Running-done :
      (rounds : ℕ) {k : ℕ} {s u : System d}
      → Running d n k s u
      → k < rounds
      → is_done d (evaluate d u) ≡ true
      → run_cycles d n rounds s ≡ some (true, evaluate d u)
  unfolding run_cycles
  Running-done zero run below done = absurd (omega arith)
  Running-done (suc rounds) start below done = rw done
  Running-done (suc rounds) (next busy ran run) below done =
      rw (busy, ran) (Running-done rounds run (omega arith) done)

  Running-all : {k : ℕ} {s u : System d} → Running d n k s u → run_cycles d n k s ≡ some (false, u)
  unfolding run_cycles
  Running-all start = refl
  Running-all (next busy ran run) = rw (busy, ran) (Running-all run)

  Ends-run_cycles :
      (rounds : ℕ) (s : System d) (r : Bool × System d)
      → Ends d n rounds s r
      → run_cycles d n rounds s ≡ some r
  Ends-run_cycles rounds s (true, t) (k, u, below, run, done, same) =
      Running-done rounds run below done ∙ ap (λ (x : System d). some (true, x)) same
  Ends-run_cycles rounds s (false, t) run = Running-all run

  -- `simulate` returns `(true, t)` exactly where, behind the start signal, some number of cycles below
  -- the limit lead to a state whose evaluation is done and is `t`, the device being done in none before;
  -- and `(false, t)` exactly where as many cycles as the limit lead to `t`, done in none.
  pub simulate_iff :
      (limit : ℕ) (s : System d) (r : Bool × System d)
      → (simulate d n limit s ≡ some r)
        ↔ Ends d n limit (record s { top = d.set_execution_start 1 s.top }) r
  unfolding simulate
  simulate_iff limit s r = (run_cycles-Ends limit _ r, Ends-run_cycles limit _ r)

-- The instruction memory of `t` has the words of that of `s`.
abbrev pub SameProgram : (d : Device) → System d → System d → Type 0
SameProgram d s t =
    (a : ℕ) → value_at a t.instruction_mem.memory ≡ value_at a s.instruction_mem.memory

module _ (d : Device) (n : ℕ) (few : n ≤ 8) where
  cycle-SameProgram : (s t : System d) → cycle d n s ≡ some t → SameProgram d s t
  unfolding cycle process_data process_instructions
  cycle-SameProgram s t h a =
      let (u, ran, same) = bind-eq-some (process_data d n (process_instructions d n s)) _ h in
      let (m, served, made) = bind-eq-some (DataMemory.process n _) _ ran in
      ap (λ (x : System d). value_at a x.instruction_mem.memory) (sym (some-injective same))
      ∙ ap (λ (x : System d). value_at a x.instruction_mem.memory) (sym (some-injective made))
      ∙ (process-IsServed n (attach_instructions d s.top s.instruction_mem) few).memory_is a

  Running-SameProgram : {k : ℕ} {s t : System d} → Running d n k s t → SameProgram d s t
  Running-SameProgram start a = refl
  Running-SameProgram (next busy ran run) a =
      Running-SameProgram run a ∙ cycle-SameProgram _ _ ran a

  Ends-SameProgram :
      (rounds : ℕ) (s : System d) (r : Bool × System d)
      → Ends d n rounds s r
      → SameProgram d s (r.1)
  Ends-SameProgram rounds s (true, t) (k, u, below, run, done, same) a =
      ap (λ (x : System d). value_at a x.instruction_mem.memory) (sym same)
      ∙ Running-SameProgram run a
  Ends-SameProgram rounds s (false, t) run a = Running-SameProgram run a

  -- Whatever the device does, with at most eight channels and whether or not it is done in time,
  -- `simulate` leaves every word of the instruction memory as it was.
  pub simulate-SameProgram :
      (limit : ℕ) (s t : System d) (b : Bool)
      → simulate d n limit s ≡ some (b, t)
      → SameProgram d s t
  simulate-SameProgram limit s t b h a =
      Ends-SameProgram limit _ (b, t) ((simulate_iff d n limit s (b, t)).0 h) a
