-- ===== src/Prelude/Bit.antt =====
-- Single bits of `bit_or` and of `bit_and`, and tables over small ranges.
use Prim.Native.Nat.{
  ℕ, zero, suc, ◌+◌, ◌*◌, ◌/◌, ◌%◌, ◌<◌, min, max, bit_and, bit_or, bit_and-bitwise,
}
use mathlib.Core.Path.{◌≡◌}
use mathlib.Core.Bool.{Bool, true, ◌&&◌}
use native.Mathlib.Omega.{arith}
use smol_gpu.Prelude.Word.{field, bit_or_step, bitwise-suc, div-pow-suc}

-- The lowest digit of `a & b`.
lowest_bit_and : (x y : ℕ) → bit_and x y ≡ bit_and (x / 2) (y / 2) * 2 + min (x % 2) (y % 2)
lowest_bit_and zero y = omega (arith, bit_and-bitwise 0 y, bit_and-bitwise 0 (y / 2))
lowest_bit_and (suc x) y = omega (
  arith,
  bitwise-suc (λ r. zero) min x y,
  bit_and-bitwise (suc x / 2) (y / 2),
  bit_and-bitwise (suc x) y,
)

-- A bit of `a & b`.
pub bit-bit_and : (k a b : ℕ) → field k 1 (bit_and a b) ≡ min (field k 1 a) (field k 1 b)
bit-bit_and zero a b = omega (arith, lowest_bit_and a b)
bit-bit_and (suc k) a b = simp div-pow-suc (rw (halves) (bit-bit_and k (a / 2) (b / 2)))
  where
    halves : bit_and a b / 2 ≡ bit_and (a / 2) (b / 2)
    halves = omega (arith, lowest_bit_and a b)

-- A bit of `a | b`.
pub bit-bit_or : (k a b : ℕ) → field k 1 (bit_or a b) ≡ max (field k 1 a) (field k 1 b)
bit-bit_or zero a b = omega (arith, bit_or_step a b)
bit-bit_or (suc k) a b = simp div-pow-suc (rw (halves) (bit-bit_or k (a / 2) (b / 2)))
  where
    halves : bit_or a b / 2 ≡ bit_or (a / 2) (b / 2)
    halves = omega (arith, bit_or_step a b)

-- A test of every number below `n`.
unfoldable pub all_below : ℕ → (ℕ → Bool) → Bool
all_below zero p = true
all_below (suc n) p = p n && all_below n p

pub all_below_sound : (n : ℕ) (p : ℕ → Bool) (x : ℕ) → all_below n p ≡ true → x < n → p x ≡ true
unfolding all_below
all_below_sound zero p x h small = absurd (omega arith)
all_below_sound (suc bound) p x passed small = ground (arith, all_below_sound bound p x)
