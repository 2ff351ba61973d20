-- ===== src/Simlib/Signal.antt =====
-- `set_bit` and `get_bit` of sim/simlib/sim.hpp, on a `CData` of eight bits.
use smol_gpu.Prelude.{
  ℕ, zero, suc, ◌-◌, ◌%◌, ◌^◌, ◌<◌, ◌≡◌, refl, Bool, true, false, ◌==◌, ==_iff, if◌then◌else◌,
  arith, bit_and, bit_or,
}
use smol_gpu.Prelude.Word.{field}
use smol_gpu.Prelude.Bit.{bit-bit_and, bit-bit_or, all_below, all_below_sound}

-- `signal |= 1 << bit`, `signal &= ~(1 << bit)`: computed as `int`, and stored as a byte.
unfoldable pub set_bit : ℕ → ℕ → Bool → ℕ
set_bit signal bit true = bit_or signal (2 ^ bit) % 2 ^ 8
set_bit signal bit false = bit_and signal (2 ^ 32 - 1 - 2 ^ bit) % 2 ^ 8

unfoldable pub get_bit : ℕ → ℕ → Bool
get_bit signal bit = field bit 1 signal == 1

-- The bits of the two masks.
mask_table :
    all_below 8 (λ b. all_below 8 (λ j. field j 1 (2 ^ b) == (if j == b then 1 else 0))) ≡ true
unfolding all_below
mask_table = refl

clear_table :
    all_below 8
      (λ b. all_below 8 (λ j. field j 1 (2 ^ 32 - 1 - 2 ^ b) == (if j == b then 0 else 1)))
    ≡ true
unfolding all_below
clear_table = refl

mask_bit : (b j : ℕ) → b < 8 → j < 8 → field j 1 (2 ^ b) ≡ (if j == b then 1 else 0)
mask_bit b j hb hj = (==_iff _ _).0 (all_below_sound 8 _ j (all_below_sound 8 _ b mask_table hb) hj)

clear_bit : (b j : ℕ) → b < 8 → j < 8 → field j 1 (2 ^ 32 - 1 - 2 ^ b) ≡ (if j == b then 0 else 1)
clear_bit b j hb hj =
    (==_iff _ _).0 (all_below_sound 8 _ j (all_below_sound 8 _ b clear_table hb) hj)

-- The store in a byte keeps its bits.
byte_bit : (x j : ℕ) → j < 8 → field j 1 (x % 2 ^ 8) ≡ field j 1 x
byte_bit x zero h = omega arith
byte_bit x (suc zero) h = omega arith
byte_bit x (suc (suc zero)) h = omega arith
byte_bit x (suc (suc (suc zero))) h = omega arith
byte_bit x (suc (suc (suc (suc zero)))) h = omega arith
byte_bit x (suc (suc (suc (suc (suc zero))))) h = omega arith
byte_bit x (suc (suc (suc (suc (suc (suc zero)))))) h = omega arith
byte_bit x (suc (suc (suc (suc (suc (suc (suc zero))))))) h = omega arith
byte_bit x (suc (suc (suc (suc (suc (suc (suc (suc j)))))))) h = absurd (omega arith)

-- `set_bit` sets the bit to the value, and changes no other bit of the byte.
pub get_bit-set_bit :
    (signal bit j : ℕ) (value : Bool)
    → bit < 8
    → j < 8
    → get_bit (set_bit signal bit value) j ≡ (if j == bit then value else get_bit signal j)
unfolding get_bit set_bit
get_bit-set_bit signal bit j true hb hj =
    rw (byte_bit (bit_or signal (2 ^ bit)) j hj, bit-bit_or, mask_bit bit j hb hj) (ground arith)
get_bit-set_bit signal bit j false hb hj =
    rw (byte_bit (bit_and signal (2 ^ 32 - 1 - 2 ^ bit)) j hj, bit-bit_and, clear_bit bit j hb hj)
      (ground arith)
