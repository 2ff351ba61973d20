-- ===== src/Simlib/Simulation/Crashes.antt =====
-- When the loop of `simulate` writes through a null pointer: a channel reads a word of the data memory,
-- in a round behind one in which it has asked for the word at the last address.
use smol_gpu.Prelude.{
  ℕ, zero, suc, ◌+◌, ◌<◌, ◌≤◌, ◌≡◌, ◌↔◌, refl, subst, false, none, some, arith, Bool-cases,
  Option-cases, inl, inr,
}
use smol_gpu.Simlib.DataMemory.Faults.{IsFault}
use smol_gpu.Simlib.Device.{Device}
use smol_gpu.Simlib.Simulation.{
  System, evaluate, is_done, process_instructions, cycle, run_cycles, simulate,
}
use smol_gpu.Simlib.Simulation.Steps.{Running, start, next}
use smol_gpu.Simlib.Simulation.Pointers.{
  IsAttached, requests, AsksAbove, AsksBelow, IsNull, through-null, cycle-eq_none_iff,
  cycle-AsksAbove, cycle-IsNull, Running-stays,
}

-- The state in which the loop of `simulate` starts.
abbrev pub started : (d : Device) → System d → System d
started d s = record s { top = d.set_execution_start 1 s.top }

-- Among the first `limit` rounds from `s` on there is one in which a channel asks for the word at the last
-- address, and a later one, the device still not done, in which it asks for another.
pub record Crashes (d : Device) (n limit : ℕ) (s : System d) : Type 0 where
  pub channel : ℕ
  pub before : ℕ
  pub between : ℕ
  pub is_channel : channel < n
  pub in_time : before + suc between < limit
  pub first : System d
  pub behind : System d
  pub second : System d
  pub runs_to : Running d n before s first
  pub first_busy : is_done d (evaluate d first) ≡ false
  pub asks_above : AsksAbove (requests d n first) channel
  pub round : cycle d n (evaluate d first) ≡ some behind
  pub runs_on : Running d n between behind second
  pub second_busy : is_done d (evaluate d second) ≡ false
  pub asks_below : AsksBelow (requests d n second) channel

module _ (d : Device) (n : ℕ) (few : n ≤ 8) where
  -- The round in which a run of the loop fails.
  run_cycles-fails :
      (rounds : ℕ) (s : System d)
      → run_cycles d n rounds s ≡ none
      → (k : ℕ) × (u : System d) × (j : ℕ) × (k < rounds)
        × Running d n k s u
        × (is_done d (evaluate d u) ≡ false)
        × (j < n)
        × IsFault (requests d n u) j
  unfolding run_cycles
  run_cycles-fails zero s h = cc
  run_cycles-fails (suc rounds) s h = elim (Bool-cases (is_done d (evaluate d s))) [
    | inl done ↦ cc (rw done at h)
    | inr busy ↦ elim (Option-cases (cycle d n (evaluate d s))) [
      | inl fails ↦
          let (j, below, fault) = (cycle-eq_none_iff d n few s).0 fails in
          (0, s, j, omega arith, start, busy, below, fault)
      | inr (t, runs) ↦
          let (k, u, j, early, run, still, below, fault) =
            run_cycles-fails rounds t (rw (busy, runs) at h) in
          (suc k, u, j, omega arith, next busy runs run, still, below, fault)
    ]
  ]

  -- A pointer that is null at the end of a run, and not at its start, became null in one of its rounds.
  Running-AsksAbove :
      (j : ℕ) (below : j < n) {k : ℕ} {s u : System d} (v : ℕ)
      → Running d n k s u
      → s.data_mem.read_data j ≡ some v
      → IsNull d n few u j
      → (before : ℕ) × (between : ℕ) × (first : System d) × (behind : System d) × (before
            + suc between
          ≡ k)
        × Running d n before s first
        × (is_done d (evaluate d first) ≡ false)
        × AsksAbove (requests d n first) j
        × (cycle d n (evaluate d first) ≡ some behind)
        × Running d n between behind u
  Running-AsksAbove j below v start set null = cc
  Running-AsksAbove j below v (next {k} {s} {t} busy ran run) set null =
      elim (Option-cases (t.data_mem.read_data j)) [
        | inl gone ↦ (
          0,
          k,
          s,
          t,
          omega arith,
          start,
          busy,
          cycle-AsksAbove d n few j below s t v ran set gone,
          ran,
          run,
        )
        | inr (w, kept) ↦
            let (before, between, first, behind, sum, to, first_busy, above, made, on) =
              Running-AsksAbove j below w run kept null in
            (
              suc before,
              between,
              first,
              behind,
              omega arith,
              next busy ran to,
              first_busy,
              above,
              made,
              on,
            )
      ]

  run_cycles-Crashes :
      (rounds : ℕ) (s : System d)
      → IsAttached s.data_mem
      → run_cycles d n rounds s ≡ none
      → Crashes d n rounds s
  unfolding process_instructions
  run_cycles-Crashes rounds s attached h =
      let (k, u, j, early, run, busy, below, (asks, low, null)) = run_cycles-fails rounds s h in
      let (v, set) = attached j in
      let (before, between, first, behind, sum, to, first_busy, above, ran, on) =
        Running-AsksAbove j below v run set (through-null (u.data_mem.read_data j) _ null) in
      record {
        channel = j;
        before = before;
        between = between;
        is_channel = below;
        in_time = omega arith;
        first = first;
        behind = behind;
        second = u;
        runs_to = to;
        first_busy = first_busy;
        asks_above = above;
        round = ran;
        runs_on = on;
        second_busy = busy;
        asks_below = (asks, low);
      }

  Running-fails :
      (rounds : ℕ) {k : ℕ} {s u : System d}
      → Running d n k s u
      → k < rounds
      → is_done d (evaluate d u) ≡ false
      → cycle d n (evaluate d u) ≡ none
      → run_cycles d n rounds s ≡ none
  unfolding run_cycles
  Running-fails zero run early busy fails = absurd (omega arith)
  Running-fails (suc rounds) start early busy fails = rw (busy, fails) refl
  Running-fails (suc rounds) (next here ran run) early busy fails =
      rw (here, ran) (Running-fails rounds run (omega arith) busy fails)

  Running-append :
      {j k : ℕ} {s t u v : System d}
      → Running d n j s t
      → is_done d (evaluate d t) ≡ false
      → cycle d n (evaluate d t) ≡ some u
      → Running d n k u v
      → Running d n (j + suc k) s v
  Running-append {k} {s} {v} start busy ran run =
      subst (λ (m : ℕ). Running d n m s v) (omega arith) (next busy ran run)
  Running-append {k} {s} {v} (next {k = i} here went to) busy ran run =
      subst (λ (m : ℕ). Running d n m s v) (omega arith)
        (next here went (Running-append to busy ran run))

  Crashes-run_cycles :
      (rounds : ℕ) (s : System d) → Crashes d n rounds s → run_cycles d n rounds s ≡ none
  unfolding process_instructions
  Crashes-run_cycles rounds s c =
      let null =
        Running-stays d n few c.channel c.is_channel c.runs_on
          (cycle-IsNull d n few c.channel c.is_channel c.first c.behind c.round c.asks_above) in
      Running-fails rounds (Running-append c.runs_to c.first_busy c.round c.runs_on) c.in_time
        c.second_busy
        ((cycle-eq_none_iff d n few c.second).1
          (c.channel, c.is_channel, (c.asks_below.0, c.asks_below.1, rw null refl)))

  -- With at most eight channels, and pointers that are not null at the start, `simulate` writes through a
  -- null pointer exactly where, in two of its rounds, the same channel asks for the word at the last
  -- address and later for a word below it.
  pub simulate-eq_none_iff :
      (limit : ℕ) (s : System d)
      → IsAttached s.data_mem
      → (simulate d n limit s ≡ none) ↔ Crashes d n limit (started d s)
  unfolding simulate
  simulate-eq_none_iff limit s attached =
      (run_cycles-Crashes limit _ attached, Crashes-run_cycles limit _)
