-- ===== src/Isa/Execution.antt =====
-- What the arithmetic instructions compute by the ISA that README.md describes: RV32I, on signed 32-bit
-- values. A description that src/alu.sv is compared with.
use smol_gpu.Prelude.{
  ℕ, ◌+◌, ◌-◌, ◌*◌, ◌/◌, ◌%◌, ◌^◌, Bool, true, false, bit_and, bit_or, bit_xor, ltb, if◌then◌else◌,
}
use smol_gpu.Prelude.Int.{ℤ, pos, negsuc, to_u32}
use smol_gpu.Prelude.Word.{u32}
use smol_gpu.Isa.Mnemonic
use smol_gpu.Isa.Mnemonic.{MnemonicName}

-- The signed value of a 32-bit pattern.
abbrev pub signed : ℕ → ℤ
signed a = if ltb a (2 ^ 31) then pos a else negsuc (2 ^ 32 - 1 - a)

abbrev pub less : ℤ → ℤ → Bool
less (pos a) (pos b) = ltb a b
less (pos a) (negsuc b) = false
less (negsuc a) (pos b) = true
less (negsuc a) (negsuc b) = ltb b a

-- Division by 2 ^ n, rounded down.
abbrev pub shift_down : ℤ → ℕ → ℤ
shift_down (pos a) n = pos (a / 2 ^ n)
shift_down (negsuc a) n = negsuc (a / 2 ^ n)

abbrev truth : Bool → ℕ
truth b = if b then 1 else 0

-- The result of the instruction on two 32-bit patterns; a shift takes the low five bits.
unfoldable pub execute : MnemonicName → ℕ → ℕ → ℕ
execute Mnemonic.slti a b = truth (less (signed a) (signed b))
execute Mnemonic.slt a b = truth (less (signed a) (signed b))
execute Mnemonic.sx_slt a b = truth (less (signed a) (signed b))
execute Mnemonic.sx_slti a b = truth (less (signed a) (signed b))
execute Mnemonic.xori a b = bit_xor a b
execute Mnemonic.xor a b = bit_xor a b
execute Mnemonic.ori a b = bit_or a b
execute Mnemonic.or a b = bit_or a b
execute Mnemonic.andi a b = bit_and a b
execute Mnemonic.and a b = bit_and a b
execute Mnemonic.slli a b = u32 (a * 2 ^ (b % 32))
execute Mnemonic.sll a b = u32 (a * 2 ^ (b % 32))
execute Mnemonic.srli a b = a / 2 ^ (b % 32)
execute Mnemonic.srl a b = a / 2 ^ (b % 32)
execute Mnemonic.srai a b = to_u32 (shift_down (signed a) (b % 32))
execute Mnemonic.sra a b = to_u32 (shift_down (signed a) (b % 32))
execute Mnemonic.sub a b = u32 (a + (2 ^ 32 - b))
execute _ a b = u32 (a + b)
