-- ===== src/Isa/Encode/Layout.antt =====
-- The words that the builders of sim/simlib/instructions.hpp make, as sums of their fields.
use smol_gpu.Prelude.{ℕ, ◌+◌, ◌*◌, ◌^◌, ◌<◌, ◌≡◌, refl, some, true, arith, lt→ltb, bit_or}
use native.Mathlib.Nat.{mod-eq_of_lt}
use smol_gpu.Prelude.Word.{u32, field, bit_or-insert}
use smol_gpu.Isa.Opcode.{Opcode, opcode_bits, lui}
use smol_gpu.Isa.Register.{Register}
use smol_gpu.Isa.Encode.{
  InstructionBits, empty, contains, set_opcode, set_rd, set_rs1, set_rs2, set_funct3, set_funct7,
  set_imm12, set_imm20,
}
use smol_gpu.Isa.Funct3.{funct3s}
use smol_gpu.Isa.Funct7.{funct7s}

pub opcode_bits-lt : (o : Opcode) → opcode_bits o < 128
unfolding opcode_bits
opcode_bits-lt lui = omega arith
opcode_bits-lt _ = omega arith

pub funct3-lt : (f : ℕ) → contains f funct3s ≡ true → f < 2 ^ 3
unfolding contains
funct3-lt f known = ground arith

pub funct7-lt : (f : ℕ) → contains f funct7s ≡ true → f < 2 ^ 7
unfolding contains
funct7-lt f known = ground arith

-- `|=` with a shifted field that fits 32 bits.
insert_field :
    (k w a x : ℕ)
    → field k w a ≡ 0
    → x < 2 ^ w
    → x * 2 ^ k < 2 ^ 32
    → bit_or a (u32 (x * 2 ^ k)) ≡ a + x * 2 ^ k
insert_field k w a x clear fits small = rw (mod-eq_of_lt small) (bit_or-insert k w a x clear fits)

pub set_opcode_lem : (o : Opcode) → set_opcode o empty ≡ some (record { word = opcode_bits o })
unfolding set_opcode
set_opcode_lem lui = refl
set_opcode_lem _ = refl

pub set_rd_lem :
    (r : Register) (i : InstructionBits)
    → r.register_number < 32
    → field 7 5 i.word ≡ 0
    → set_rd r i ≡ some (record { word = i.word + r.register_number * 2 ^ 7 })
unfolding set_rd
set_rd_lem r i valid clear =
    rw (lt→ltb _ _ valid, insert_field 7 5 i.word r.register_number clear valid (omega arith))

pub set_rs1_lem :
    (r : Register) (i : InstructionBits)
    → r.register_number < 32
    → field 15 5 i.word ≡ 0
    → set_rs1 r i ≡ some (record { word = i.word + r.register_number * 2 ^ 15 })
unfolding set_rs1
set_rs1_lem r i valid clear =
    rw (lt→ltb _ _ valid, insert_field 15 5 i.word r.register_number clear valid (omega arith))

pub set_rs2_lem :
    (r : Register) (i : InstructionBits)
    → r.register_number < 32
    → field 20 5 i.word ≡ 0
    → set_rs2 r i ≡ some (record { word = i.word + r.register_number * 2 ^ 20 })
unfolding set_rs2
set_rs2_lem r i valid clear =
    rw (lt→ltb _ _ valid, insert_field 20 5 i.word r.register_number clear valid (omega arith))

pub set_imm12_lem :
    (imm : ℕ) (i : InstructionBits)
    → imm < 4096
    → field 20 12 i.word ≡ 0
    → set_imm12 imm i ≡ some (record { word = i.word + imm * 2 ^ 20 })
unfolding set_imm12
set_imm12_lem imm i valid clear =
    rw (lt→ltb _ _ valid, insert_field 20 12 i.word imm clear valid (omega arith))

pub set_imm20_lem :
    (imm : ℕ) (i : InstructionBits)
    → imm < 1048576
    → field 12 20 i.word ≡ 0
    → set_imm20 imm i ≡ some (record { word = i.word + imm * 2 ^ 12 })
unfolding set_imm20
set_imm20_lem imm i valid clear =
    rw (lt→ltb _ _ valid, insert_field 12 20 i.word imm clear valid (omega arith))

pub set_funct3_lem :
    (f : ℕ) (i : InstructionBits)
    → contains f funct3s ≡ true
    → field 12 3 i.word ≡ 0
    → set_funct3 f i ≡ some (record { word = i.word + f * 2 ^ 12 })
unfolding set_funct3
set_funct3_lem f i known clear = rw (
  known,
  insert_field 12 3 i.word f clear (funct3-lt f known) (ground (arith, funct3-lt f known)),
)

pub set_funct7_lem :
    (f : ℕ) (i : InstructionBits)
    → contains f funct7s ≡ true
    → field 25 7 i.word ≡ 0
    → set_funct7 f i ≡ some (record { word = i.word + f * 2 ^ 25 })
unfolding set_funct7
set_funct7_lem f i known clear = rw (
  known,
  insert_field 25 7 i.word f clear (funct7-lt f known) (ground (arith, funct7-lt f known)),
)
