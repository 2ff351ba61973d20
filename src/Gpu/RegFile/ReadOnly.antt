-- ===== src/Gpu/RegFile/ReadOnly.antt =====
-- The registers that no instruction writes.
use smol_gpu.Prelude.{
  ℕ, ◌<◌, ◌≡◌, refl, Bool, false, ◌&&◌, ◌==◌, leb, if◌then◌else◌, List, [], ◌∷◌, Bool-cases, inl,
  inr, arith,
}
use smol_gpu.Gpu.RegFile.{
  Identity, Inputs, RegFile, special, thread_id, writes, is_update, reset, clock, run,
}

-- The first four registers of every thread are its special values.
abbrev pub IsReadOnly : Identity → RegFile → Type 0
IsReadOnly id f = (i r : ℕ) → r < 4 → f.registers i r ≡ special id i r 0

special-low : (id : Identity) (i r other : ℕ) → r < 4 → special id i r other ≡ special id i r 0
unfolding special
special-low id i r other h = by_cases (thread_id id i) id.block_id id.block_size
  where
    by_cases :
        (a b c : ℕ)
        → (if r == 0
            then 0
            else if r == 1
            then a
            else if r == 2
            then b
            else if r == 3
            then c
            else other)
          ≡ (if r == 0
              then 0
              else if r == 1
              then a
              else if r == 2
              then b
              else if r == 3
              then c
              else 0)
    by_cases a b c = ground (arith, h)

-- The identity at the last edge with `enable`, or that of the reset.
abbrev pub last_identity : Identity → List (Identity × Inputs) → Identity
last_identity id [] = id
last_identity id ((other, inputs) ∷ more) = last_identity (if inputs.enable then other else id) more

-- None of them is written.
no_write : (inputs : Inputs) (i r : ℕ) → r < 4 → writes inputs i r ≡ false
no_write inputs i r h =
    low_address (inputs.thread_enable i) (is_update inputs.warp_state) inputs.write_enable
      inputs.decoded.rd_address
  where
    low_address : (a b c : Bool) (d : ℕ) → (a && (b && (c && (leb 4 d && r == d)))) ≡ false
    low_address a b c d = ground (arith, h)

clock-IsReadOnly :
    (id other : Identity) (inputs : Inputs) (f : RegFile)
    → IsReadOnly id f
    → IsReadOnly (if inputs.enable then other else id) (clock other inputs f)
unfolding clock
clock-IsReadOnly id other inputs f h i r low = elim (Bool-cases inputs.enable) [
  | inl on ↦ rw (on, no_write inputs i r low) (special-low other i r (f.registers i r) low)
  | inr off ↦ rw off (h i r low)
]

run-IsReadOnly :
    (id : Identity) (edges : List (Identity × Inputs)) (f : RegFile)
    → IsReadOnly id f
    → IsReadOnly (last_identity id edges) (run edges f)
unfolding run
run-IsReadOnly id [] f h = h
run-IsReadOnly id ((other, inputs) ∷ more) f h =
    run-IsReadOnly (if inputs.enable then other else id) more (clock other inputs f)
      (clock-IsReadOnly id other inputs f h)

-- Behind a reset, whatever the instructions, the state of the warp and its identity at the edges of the
-- clock, the first four registers of each thread hold 0 and the thread id, the block id and the block size
-- of the last edge with `enable`, or of the reset where there is none.
pub run-reset-IsReadOnly :
    (id : Identity) (edges : List (Identity × Inputs)) (f : RegFile)
    → IsReadOnly (last_identity id edges) (run edges (reset id f))
unfolding reset
run-reset-IsReadOnly id edges f = run-IsReadOnly id edges (reset id f) (λ i r low. refl)
