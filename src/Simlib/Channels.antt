-- ===== src/Simlib/Channels.antt =====
-- The loops of sim/simlib/sim.hpp over the channels: what holds below a channel holds below the next.
use smol_gpu.Prelude.{
  ℕ, suc, ◌<◌, ◌≡◌, refl, sym, ap, ◌∙◌, Bool, false, ◌==◌, ==_iff, ltb, lt→ltb, le→ltb, Bool-cases,
  inl, inr, if◌then◌else◌, arith,
}
use smol_gpu.Simlib.Signal.{get_bit, set_bit, get_bit-set_bit}

module _ {A : Type 0} (f g : ℕ → A) (j n : ℕ) where
  -- One more channel: the value at `n` is new, or already there.
  pub cover :
      (v : A)
      → v ≡ f n
      → (if j == n then v else (if ltb j n then f j else g j))
        ≡ (if ltb j (suc n) then f j else g j)
  cover v e = elim (Bool-cases (j == n)) [
    | inl same ↦ rw (same, lt→ltb j (suc n) (ground (arith, same)), (==_iff j n).0 same) e
    | inr differ ↦ rw (differ, ltb-suc differ) refl
  ]
    where
      ltb-suc : (j == n) ≡ false → ltb j (suc n) ≡ ltb j n
      ltb-suc d = ground (arith, d)

  pub cover_same : f n ≡ g n → (if ltb j n then f j else g j) ≡ (if ltb j (suc n) then f j else g j)
  cover_same e = elim (Bool-cases (j == n)) [
    | inl same ↦
        rw
          (
            lt→ltb j (suc n) (ground (arith, same)),
            le→ltb j n (ground (arith, same)),
            (==_iff j n).0 same,
          )
          (sym e)
    | inr differ ↦ rw (ltb-suc differ) refl
  ]
    where
      ltb-suc : (j == n) ≡ false → ltb j (suc n) ≡ ltb j n
      ltb-suc d = ground (arith, d)

-- The bits below `n` are those of `valid`, and with channel `n` acknowledged so are those below `n + 1`.
pub ready-cover :
    (n : ℕ)
    → n < 8
    → (valid before ready : ℕ)
    → ((j : ℕ) → j < 8 → get_bit ready j ≡ (if ltb j n then get_bit valid j else get_bit before j))
    → (b : Bool) → get_bit valid n ≡ b
    → (j : ℕ) → j < 8
    → get_bit (set_bit ready n b) j ≡ (if ltb j (suc n) then get_bit valid j else get_bit before j)
ready-cover n hn valid before ready h b e j small =
    get_bit-set_bit ready n j b hn small
    ∙ ap (λ (x : Bool). if j == n then b else x) (h j small)
    ∙ cover (get_bit valid) (get_bit before) j n b (sym e)
