-- ===== src/Gpu/Alu/Exact.antt =====
-- Where src/alu.sv computes what the ISA says.
use smol_gpu.Prelude.{
  ℕ, ◌-◌, ◌*◌, ◌/◌, ◌%◌, ◌^◌, lt→ltb, ◌<◌, ◌≡◌, ◌↔◌, refl, sym, true, false, ltb, arith, Bool-cases,
  inl, inr,
}
use native.Mathlib.Nat.{mod-eq_of_lt, div-le_self}
use smol_gpu.Prelude.Int.{to_u32}
use smol_gpu.Prelude.Word.{u32}
use smol_gpu.Isa.Mnemonic
use smol_gpu.Isa.Mnemonic.{MnemonicName}
use smol_gpu.Isa.Execution.{signed, less, shift_down, execute}
use smol_gpu.Gpu.Decoder
use smol_gpu.Gpu.Decoder.{AluInstruction}
use smol_gpu.Gpu.Alu.{shift_left, shift_right, truth, result}

-- Both values are negative, or none is.
abbrev pub SameSign : ℕ → ℕ → Type 0
SameSign a b = ltb a (2 ^ 31) ≡ ltb b (2 ^ 31)

apart : (a b : ℕ) → ltb a (2 ^ 31) ≡ true → ltb b (2 ^ 31) ≡ false → ltb a b ≡ true
apart a b p q = ground (arith, p, q)

apart_back : (a b : ℕ) → ltb a (2 ^ 31) ≡ false → ltb b (2 ^ 31) ≡ true → ltb a b ≡ false
apart_back a b p q = ground (arith, p, q)

mirrored : (a b : ℕ) → a < 2 ^ 32 → b < 2 ^ 32 → ltb a b ≡ ltb (2 ^ 32 - 1 - b) (2 ^ 32 - 1 - a)
mirrored a b ha hb = ground arith

-- Comparing without a sign is comparing with one exactly for values of the same sign.
pub less-SameSign :
    (a b : ℕ)
    → a < 2 ^ 32
    → b < 2 ^ 32
    → (truth (ltb a b) ≡ truth (less (signed a) (signed b))) ↔ SameSign a b
less-SameSign a b ha hb = elim (Bool-cases (ltb a (2 ^ 31))) [
  | inl p ↦ elim (Bool-cases (ltb b (2 ^ 31))) [
    | inl q ↦ rw (p, q) (λ h. refl, λ h. refl)
    | inr q ↦ rw (p, q) (rw (apart a b p q) (λ h. cc, λ h. cc))
  ]
  | inr p ↦ elim (Bool-cases (ltb b (2 ^ 31))) [
    | inl q ↦ rw (p, q) (rw (apart_back a b p q) (λ h. cc, λ h. cc))
    | inr q ↦ rw (p, q) (rw (mirrored a b ha hb) (λ h. refl, λ h. refl))
  ]
]

-- On two 32-bit values SLT is what the ISA says exactly where both are negative or none is.
pub slt-SameSign :
    (pc imm a b : ℕ)
    → a < 2 ^ 32
    → b < 2 ^ 32
    → (result Decoder.slt pc imm a b ≡ execute Mnemonic.slt a b) ↔ SameSign a b
unfolding result execute
slt-SameSign pc imm a b ha hb = less-SameSign a b ha hb

pub shift_left-small : (a n : ℕ) → n < 32 → shift_left a n ≡ u32 (a * 2 ^ (n % 32))
unfolding shift_left
shift_left-small a n h = rw (lt→ltb n 32 h, mod-eq_of_lt h) refl

pub shift_right-small : (a n : ℕ) → n < 32 → shift_right a n ≡ a / 2 ^ (n % 32)
unfolding shift_right
shift_right-small a n h = rw (lt→ltb n 32 h, mod-eq_of_lt h) refl

pub shift_right-pos :
    (a n : ℕ) → a < 2 ^ 31 → n < 32 → shift_right a n ≡ to_u32 (shift_down (signed a) (n % 32))
shift_right-pos a n small h =
    rw (shift_right-small a n h, lt→ltb a (2 ^ 31) small)
      (sym (mod-eq_of_lt (below (2 ^ (n % 32)))))
  where
    below : (d : ℕ) → a / d < 2 ^ 32
    below d = omega (arith, small, div-le_self a d)

-- Where the unit's result on two 32-bit values is that of the ISA: values of the same sign for a
-- comparison, an amount below 32 for a shift, and a value that is not negative for an arithmetic one.
abbrev pub IsExact : MnemonicName → ℕ → ℕ → Type 0
IsExact Mnemonic.slti a b = SameSign a b
IsExact Mnemonic.slt a b = SameSign a b
IsExact Mnemonic.sx_slt a b = SameSign a b
IsExact Mnemonic.sx_slti a b = SameSign a b
IsExact Mnemonic.slli a b = b < 32
IsExact Mnemonic.sll a b = b < 32
IsExact Mnemonic.srli a b = b < 32
IsExact Mnemonic.srl a b = b < 32
IsExact Mnemonic.srai a b = (a < 2 ^ 31) × (b < 32)
IsExact Mnemonic.sra a b = (a < 2 ^ 31) × (b < 32)
IsExact _ a b = Unit
