-- ===== src/Prelude/Decimal.antt =====
-- Numbers as decimal texts: `std::to_string` and `{}` of `std::format`.
use Prim.Native.Nat.{ℕ, zero, suc, ◌+◌, ◌/◌, ◌%◌}
use mathlib.Core.List.{[], ◌∷◌}
use smol_gpu.Prelude.Int.{ℤ, pos, negsuc}
use smol_gpu.Prelude.Tests.{ltb, if◌then◌else◌}
use smol_gpu.Prelude.Lists.{Text}

-- The digits of `n` in front of `acc`; one unit of fuel for each digit.
unfoldable pub digits_onto : ℕ → ℕ → Text → Text
digits_onto zero n acc = acc
digits_onto (suc fuel) n acc =
    let more = digits_onto fuel (n / 10) ((b'0' + n % 10) ∷ acc) in
    if ltb n 10 then (b'0' + n) ∷ acc else more

-- A number has at most as many digits as its successor is large.
unfoldable pub decimal : ℕ → Text
unfolding digits_onto
decimal n = digits_onto (suc n) n []

unfoldable pub decimal_ℤ : ℤ → Text
unfolding decimal
decimal_ℤ (pos n) = decimal n
decimal_ℤ (negsuc n) = b'-' ∷ decimal (suc n)
