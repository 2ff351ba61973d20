-- ===== src/Prelude/Word.antt =====
-- Facts about `bit_or` at every width: it acts on each field of a word on its own.
use Prim.Native.Nat.{
  ℕ, zero, suc, ◌+◌, ◌*◌, ◌/◌, ◌%◌, ◌^◌, ◌≤◌, ◌<◌, bit_or, max, digits, bitwise, bit_or-bitwise,
}
use mathlib.Core.Path.{◌≡◌, refl, ap, ap₂, ◌∙◌}
use native.Mathlib.Nat.{
  pow-suc, div-div-eq-div-mul, div-mul-le_self, mod-eq-sub-div-mul, mul_comm, div-one, mod-one,
  div-add-mod', div-eq_of_lt, mod-eq_of_lt, mul-mod_left, mul-div_cancel, one-le-pow,
  add-mul-div_right, add-mul-mod_self_right, zero-add,
}
use native.Mathlib.Omega.{arith}
use mathlib.Core.Logic.{inl, inr}
use smol_gpu.Prelude.Tests.{◌==◌, ==_iff, Bool-cases}

-- The wrap of a `uint32_t`.
abbrev pub u32 : ℕ → ℕ
u32 n = n % 2 ^ 32

-- The `w` bits of a word from bit `k` on.
abbrev pub field : ℕ → ℕ → ℕ → ℕ
field k w x = x / 2 ^ k % 2 ^ w

-- The recursion of the native operations, in which a round for each digit is enough.
module _ (run_out : ℕ → ℕ) (join : ℕ → ℕ → ℕ) where
  abbrev rounds : ℕ → ℕ → ℕ → ℕ
  rounds = digits run_out join

  -- A further round has nothing to do.
  spare_round : (n x y : ℕ) → x ≤ n → rounds (suc n) x y ≡ rounds n x y
  spare_round n zero y enough = no_digits n
    where
      no_digits : (k : ℕ) → rounds (suc k) 0 y ≡ rounds k 0 y
      no_digits zero = refl
      no_digits (suc k) = refl
  spare_round zero (suc x) y enough = absurd (omega arith)
  spare_round (suc n) (suc x) y enough =
      ap (λ (high : ℕ). high * 2 + join (suc x % 2) (y % 2))
        (spare_round n (suc x / 2) (y / 2) (omega arith))

  settled : (n x y : ℕ) → x ≤ n → rounds n x y ≡ rounds x x y
  settled zero x y enough = rw (le_zero x enough)
    where
      le_zero : (x : ℕ) → x ≤ 0 → x ≡ 0
      le_zero x h = omega arith
  settled (suc n) x y enough = elim (Bool-cases (x == suc n)) [
    | inl exact ↦ rw ((==_iff x (suc n)).0 exact)
    | inr differ ↦
        let below : x ≤ n = ground (arith, enough, differ) in
        spare_round n x y below ∙ settled n x y below
  ]

  pub bitwise-suc :
      (x y : ℕ)
      → bitwise run_out join (suc x) y
        ≡ bitwise run_out join (suc x / 2) (y / 2) * 2 + join (suc x % 2) (y % 2)
  bitwise-suc x y =
      ap (λ (high : ℕ). high * 2 + join (suc x % 2) (y % 2))
        (settled x (suc x / 2) (y / 2) (omega arith))

-- The lowest digit of `a | b`.
pub bit_or_step : (x y : ℕ) → bit_or x y ≡ bit_or (x / 2) (y / 2) * 2 + max (x % 2) (y % 2)
bit_or_step zero y = omega (arith, bit_or-bitwise 0 y, bit_or-bitwise 0 (y / 2))
bit_or_step (suc x) y = omega (
  arith,
  bit_or-bitwise (suc x) y,
  bit_or-bitwise (suc x / 2) (y / 2),
  bitwise-suc (λ y. y) max x y,
)

pub zero-bit_or : (a : ℕ) → bit_or 0 a ≡ a
zero-bit_or a = bit_or-bitwise 0 a

pub bit_or-zero : (x : ℕ) → bit_or x 0 ≡ x
bit_or-zero x = below (suc x) x (omega arith)
  where
    below : (bound y : ℕ) → y < bound → bit_or y 0 ≡ y
    below zero y small = absurd (omega arith)
    below (suc bound) zero small = refl
    below (suc bound) (suc y) small =
        let digits_above = below bound (suc y / 2) (omega arith) in
        omega (arith, digits_above, bit_or_step (suc y) 0)

bit_or-half : (a b : ℕ) → bit_or a b / 2 ≡ bit_or (a / 2) (b / 2)
bit_or-half a b = omega (arith, bit_or_step a b)

pub div-pow-suc : (a k : ℕ) → a / 2 ^ suc k ≡ a / 2 / 2 ^ k
div-pow-suc a k = rw (pow-suc 2 k, div-div-eq-div-mul a 2 (2 ^ k), mul_comm 2 (2 ^ k))

-- `(a | b) >> k` is `(a >> k) | (b >> k)`.
pub bit_or-shift : (k a b : ℕ) → bit_or a b / 2 ^ k ≡ bit_or (a / 2 ^ k) (b / 2 ^ k)
bit_or-shift zero a b = simp div-one
bit_or-shift (suc k) a b = simp (div-pow-suc, bit_or-half) (bit_or-shift k (a / 2) (b / 2))

mod-pow-suc : (a k : ℕ) → a % 2 ^ suc k ≡ a / 2 % 2 ^ k * 2 + a % 2
mod-pow-suc a k = omega (
  arith,
  mod-eq-sub-div-mul a (2 ^ suc k),
  mod-eq-sub-div-mul (a / 2) (2 ^ k),
  div-mul-le_self (a / 2) (2 ^ k),
  ap (λ (t : ℕ). t * 2 ^ suc k) (div-pow-suc a k),
  ap (λ (t : ℕ). a / 2 / 2 ^ k * t) (pow-suc 2 k),
)

-- `(a | b) & mask` is `(a & mask) | (b & mask)` for the mask of the low `k` bits.
pub bit_or-low : (k a b : ℕ) → bit_or a b % 2 ^ k ≡ bit_or (a % 2 ^ k) (b % 2 ^ k)
bit_or-low zero a b = simp mod-one
bit_or-low (suc k) a b = omega (
  arith,
  mod-pow-suc (bit_or a b) k,
  mod-pow-suc a k,
  mod-pow-suc b k,
  bit_or_step a b,
  bit_or_step (a % 2 ^ suc k) (b % 2 ^ suc k),
  bit_or-low k (a / 2) (b / 2),
  ap (λ (t : ℕ). t % 2 ^ k) (bit_or-half a b),
  ap₂ bit_or (half_low a k) (half_low b k),
)
  where
    half_low : (x j : ℕ) → x % 2 ^ suc j / 2 ≡ x / 2 % 2 ^ j
    half_low x j = omega (arith, mod-pow-suc x j)

-- `|` acts on each field of a word on its own.
pub field-bit_or : (k w a b : ℕ) → field k w (bit_or a b) ≡ bit_or (field k w a) (field k w b)
field-bit_or k w a b = rw bit_or-shift (bit_or-low w (a / 2 ^ k) (b / 2 ^ k))

-- `|` with a value below the low bits that are clear in `q` is a sum.
bit_or-clear_low : (w q x : ℕ) → q % 2 ^ w ≡ 0 → x < 2 ^ w → bit_or q x ≡ q + x
bit_or-clear_low w q x clear fits = omega (
  arith,
  div-add-mod' (bit_or q x) (2 ^ w),
  div-add-mod' q (2 ^ w),
  ap (λ (t : ℕ). t * 2 ^ w) shifted,
  low,
)
  where
    shifted : bit_or q x / 2 ^ w ≡ q / 2 ^ w
    shifted = rw (bit_or-shift, div-eq_of_lt fits, bit_or-zero)

    low : bit_or q x % 2 ^ w ≡ x
    low = rw (bit_or-low, clear, mod-eq_of_lt fits, zero-bit_or)

-- `|` of a field into `w` clear bits from bit `k` on is a sum.
pub bit_or-insert :
    (k w a x : ℕ) → field k w a ≡ 0 → x < 2 ^ w → bit_or a (x * 2 ^ k) ≡ a + x * 2 ^ k
bit_or-insert k w a x clear fits = omega (
  arith,
  div-add-mod' (bit_or a (x * 2 ^ k)) (2 ^ k),
  div-add-mod' a (2 ^ k),
  ap (λ (t : ℕ). t * 2 ^ k) shifted,
  low,
)
  where
    shifted : bit_or a (x * 2 ^ k) / 2 ^ k ≡ a / 2 ^ k + x
    shifted =
        rw (bit_or-shift, mul-div_cancel x (one-le-pow k 2 (omega arith)))
          (bit_or-clear_low w (a / 2 ^ k) x clear fits)

    low : bit_or a (x * 2 ^ k) % 2 ^ k ≡ a % 2 ^ k
    low = rw (bit_or-low, mul-mod_left, bit_or-zero)

-- `|` of two values shifted above the same low bits.
pub bit_or-above :
    (k a x y : ℕ) → a < 2 ^ k → bit_or (a + x * 2 ^ k) (y * 2 ^ k) ≡ a + bit_or x y * 2 ^ k
bit_or-above k a x y fits = omega (
  arith,
  div-add-mod' (bit_or (a + x * 2 ^ k) (y * 2 ^ k)) (2 ^ k),
  ap (λ (t : ℕ). t * 2 ^ k) shifted,
  low,
)
  where
    shifted : bit_or (a + x * 2 ^ k) (y * 2 ^ k) / 2 ^ k ≡ bit_or x y
    shifted = rw (
      bit_or-shift,
      mul-div_cancel y (one-le-pow k 2 (omega arith)),
      add-mul-div_right a x (one-le-pow k 2 (omega arith)),
      div-eq_of_lt fits,
      zero-add,
    )

    low : bit_or (a + x * 2 ^ k) (y * 2 ^ k) % 2 ^ k ≡ a
    low = rw (bit_or-low, mul-mod_left, add-mul-mod_self_right, mod-eq_of_lt fits, bit_or-zero)
