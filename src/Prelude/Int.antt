-- ===== src/Prelude/Int.antt =====
-- Signed 32-bit values as integers over the native numbers, under the library's names.
use Prim.Native.Nat.{ℕ, zero, suc, ◌-◌, ◌%◌, ◌^◌, ◌<◌}
use mathlib.Core.Bool.{Bool, true, false}
use smol_gpu.Prelude.Tests.{leb, if◌then◌else◌}

-- `negsuc n` is -(n + 1).
pub data ℤ : Type 0 where
  pos : ℕ → ℤ
  negsuc : ℕ → ℤ

-- -n, for a number that is not negative
abbrev pub neg : ℕ → ℤ
neg zero = pos 0
neg (suc n) = negsuc n

-- The unary minus.
abbrev pub negate : ℤ → ℤ
negate (pos n) = neg n
negate (negsuc n) = pos (suc n)

-- `a < b` for a `b` that is not negative
abbrev pub ltb_pos : ℤ → ℕ → Bool
ltb_pos (pos n) b = if leb b n then false else true
ltb_pos (negsuc n) b = true

-- The cast of an `int32_t` to `uint32_t`.
abbrev pub to_u32 : ℤ → ℕ
to_u32 (pos n) = n % 2 ^ 32
to_u32 (negsuc n) = 2 ^ 32 - 1 - n % 2 ^ 32

-- The values whose negation fits an `int32_t` too.
abbrev pub IsInt32 : ℤ → Type 0
IsInt32 (pos n) = n < 2 ^ 31
IsInt32 (negsuc n) = suc n < 2 ^ 31
