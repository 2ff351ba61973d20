-- ===== src/Gpu/Alu.antt =====
-- src/alu.sv: the arithmetic unit, on 32-bit values without a sign: `data_t` is `logic [31:0]`.
pub mod Exact
use smol_gpu.Prelude.{
  ℕ, ◌+◌, ◌-◌, ◌*◌, ◌/◌, ◌^◌, Bool, true, false, not, bit_and, bit_or, bit_xor, ◌==◌, ltb,
  if◌then◌else◌,
}
use smol_gpu.Prelude.Word.{u32}
use smol_gpu.Gpu.Decoder
use smol_gpu.Gpu.Decoder.{AluInstruction}

-- `<<` and `>>`: a shift by the width or more leaves nothing.
unfoldable pub shift_left : ℕ → ℕ → ℕ
shift_left a n = if ltb n 32 then u32 (a * 2 ^ n) else 0

unfoldable pub shift_right : ℕ → ℕ → ℕ
shift_right a n = if ltb n 32 then a / 2 ^ n else 0

abbrev pub difference : ℕ → ℕ → ℕ
difference a b = u32 (a + (2 ^ 32 - b))

abbrev pub truth : Bool → ℕ
truth b = if b then 1 else 0

-- The `case` of the clocked block. `>>>` is a logical shift, since its operand has no sign.
unfoldable pub result : AluInstruction → ℕ → ℕ → ℕ → ℕ → ℕ
unfolding shift_left shift_right
result Decoder.addi pc imm rs1 rs2 = u32 (rs1 + imm)
result Decoder.slti pc imm rs1 rs2 = truth (ltb rs1 imm)
result Decoder.xori pc imm rs1 rs2 = bit_xor rs1 imm
result Decoder.ori pc imm rs1 rs2 = bit_or rs1 imm
result Decoder.andi pc imm rs1 rs2 = bit_and rs1 imm
result Decoder.slli pc imm rs1 rs2 = shift_left rs1 imm
result Decoder.srli pc imm rs1 rs2 = shift_right rs1 imm
result Decoder.srai pc imm rs1 rs2 = shift_right rs1 imm
result Decoder.add pc imm rs1 rs2 = u32 (rs1 + rs2)
result Decoder.sub pc imm rs1 rs2 = difference rs1 rs2
result Decoder.sll pc imm rs1 rs2 = shift_left rs1 rs2
result Decoder.slt pc imm rs1 rs2 = truth (ltb rs1 rs2)
result Decoder.xor pc imm rs1 rs2 = bit_xor rs1 rs2
result Decoder.srl pc imm rs1 rs2 = shift_right rs1 rs2
result Decoder.sra pc imm rs1 rs2 = shift_right rs1 rs2
result Decoder.or pc imm rs1 rs2 = bit_or rs1 rs2
result Decoder.and pc imm rs1 rs2 = bit_and rs1 rs2
result Decoder.beq pc imm rs1 rs2 = truth (rs1 == rs2)
result Decoder.bne pc imm rs1 rs2 = truth (not (rs1 == rs2))
result Decoder.blt pc imm rs1 rs2 = truth (ltb rs1 rs2)
result Decoder.bge pc imm rs1 rs2 = truth (not (ltb rs1 rs2))
result Decoder.jal pc imm rs1 rs2 = u32 (pc + imm)
result Decoder.jalr pc imm rs1 rs2 = u32 (rs1 + imm)

-- A rising edge of the clock, on `alu_out`.
unfoldable pub clock : Bool → Bool → AluInstruction → ℕ → ℕ → ℕ → ℕ → ℕ → ℕ
unfolding result
clock true enable instruction pc imm rs1 rs2 alu_out = 0
clock false true instruction pc imm rs1 rs2 alu_out = result instruction pc imm rs1 rs2
clock false false instruction pc imm rs1 rs2 alu_out = alu_out
