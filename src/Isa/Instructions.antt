-- ===== src/Isa/Instructions.antt =====
-- The instruction constructors of the namespace `sim::instructions` of
-- sim/simlib/instructions.hpp.
use smol_gpu.Prelude.{ℕ}
use smol_gpu.Prelude.Checked.{Checked}
use smol_gpu.Isa.Opcode.{Opcode}
use smol_gpu.Isa.Funct3
use smol_gpu.Isa.Funct7
use smol_gpu.Isa.Register.{Register}
use smol_gpu.Isa.Encode.{
  InstructionBits, empty, set_opcode, create_utype_instruction, create_itype_instruction,
  create_itype_shift_instruction, create_rtype_instruction, create_jtype_instruction,
  create_btype_instruction, create_stype_instruction,
}

unfoldable pub lui : Register → ℕ → Checked InstructionBits
unfolding create_utype_instruction
lui rd imm20 = create_utype_instruction Opcode.lui rd imm20

unfoldable pub auipc : Register → ℕ → Checked InstructionBits
unfolding create_utype_instruction
auipc rd imm20 = create_utype_instruction Opcode.auipc rd imm20

unfoldable pub addi : Register → Register → ℕ → Checked InstructionBits
unfolding create_itype_instruction
addi rd rs1 imm12 = create_itype_instruction Opcode.itype Funct3.addi rd rs1 imm12

unfoldable pub slti : Register → Register → ℕ → Checked InstructionBits
unfolding create_itype_instruction
slti rd rs1 imm12 = create_itype_instruction Opcode.itype Funct3.slti rd rs1 imm12

unfoldable pub xori : Register → Register → ℕ → Checked InstructionBits
unfolding create_itype_instruction
xori rd rs1 imm = create_itype_instruction Opcode.itype Funct3.xori rd rs1 imm

unfoldable pub ori : Register → Register → ℕ → Checked InstructionBits
unfolding create_itype_instruction
ori rd rs1 imm = create_itype_instruction Opcode.itype Funct3.ori rd rs1 imm

unfoldable pub andi : Register → Register → ℕ → Checked InstructionBits
unfolding create_itype_instruction
andi rd rs1 imm = create_itype_instruction Opcode.itype Funct3.andi rd rs1 imm

unfoldable pub slli : Register → Register → ℕ → Checked InstructionBits
unfolding create_itype_shift_instruction
slli rd rs1 imm = create_itype_shift_instruction Opcode.itype Funct3.slli Funct7.slli rd rs1 imm

unfoldable pub srli : Register → Register → ℕ → Checked InstructionBits
unfolding create_itype_shift_instruction
srli rd rs1 imm = create_itype_shift_instruction Opcode.itype Funct3.srli Funct7.srli rd rs1 imm

unfoldable pub srai : Register → Register → ℕ → Checked InstructionBits
unfolding create_itype_shift_instruction
srai rd rs1 imm = create_itype_shift_instruction Opcode.itype Funct3.srai Funct7.srai rd rs1 imm

unfoldable pub add : Register → Register → Register → Checked InstructionBits
unfolding create_rtype_instruction
add rd rs1 rs2 = create_rtype_instruction Opcode.rtype Funct3.add Funct7.add rd rs1 rs2

unfoldable pub sub : Register → Register → Register → Checked InstructionBits
unfolding create_rtype_instruction
sub rd rs1 rs2 = create_rtype_instruction Opcode.rtype Funct3.sub Funct7.sub rd rs1 rs2

unfoldable pub sll : Register → Register → Register → Checked InstructionBits
unfolding create_rtype_instruction
sll rd rs1 rs2 = create_rtype_instruction Opcode.rtype Funct3.sll Funct7.sll rd rs1 rs2

unfoldable pub slt : Register → Register → Register → Checked InstructionBits
unfolding create_rtype_instruction
slt rd rs1 rs2 = create_rtype_instruction Opcode.rtype Funct3.slt Funct7.slt rd rs1 rs2

unfoldable pub xor_ : Register → Register → Register → Checked InstructionBits
unfolding create_rtype_instruction
xor_ rd rs1 rs2 = create_rtype_instruction Opcode.rtype Funct3.xor Funct7.xor rd rs1 rs2

unfoldable pub srl : Register → Register → Register → Checked InstructionBits
unfolding create_rtype_instruction
srl rd rs1 rs2 = create_rtype_instruction Opcode.rtype Funct3.srl Funct7.srl rd rs1 rs2

unfoldable pub sra : Register → Register → Register → Checked InstructionBits
unfolding create_rtype_instruction
sra rd rs1 rs2 = create_rtype_instruction Opcode.rtype Funct3.sra Funct7.sra rd rs1 rs2

unfoldable pub or_ : Register → Register → Register → Checked InstructionBits
unfolding create_rtype_instruction
or_ rd rs1 rs2 = create_rtype_instruction Opcode.rtype Funct3.or Funct7.or rd rs1 rs2

unfoldable pub and_ : Register → Register → Register → Checked InstructionBits
unfolding create_rtype_instruction
and_ rd rs1 rs2 = create_rtype_instruction Opcode.rtype Funct3.and Funct7.and rd rs1 rs2

unfoldable pub lb : Register → Register → ℕ → Checked InstructionBits
unfolding create_itype_instruction
lb rd rs1 imm12 = create_itype_instruction Opcode.load Funct3.lb rd rs1 imm12

unfoldable pub lh : Register → Register → ℕ → Checked InstructionBits
unfolding create_itype_instruction
lh rd rs1 imm12 = create_itype_instruction Opcode.load Funct3.lh rd rs1 imm12

unfoldable pub lw : Register → Register → ℕ → Checked InstructionBits
unfolding create_itype_instruction
lw rd rs1 imm12 = create_itype_instruction Opcode.load Funct3.lw rd rs1 imm12

unfoldable pub sb : Register → Register → ℕ → Checked InstructionBits
unfolding create_stype_instruction
sb rs1 rs2 imm12 = create_stype_instruction Opcode.stype Funct3.sb rs1 rs2 imm12

unfoldable pub sh : Register → Register → ℕ → Checked InstructionBits
unfolding create_stype_instruction
sh rs1 rs2 imm12 = create_stype_instruction Opcode.stype Funct3.sh rs1 rs2 imm12

unfoldable pub sw : Register → Register → ℕ → Checked InstructionBits
unfolding create_stype_instruction
sw rs1 rs2 imm12 = create_stype_instruction Opcode.stype Funct3.sw rs1 rs2 imm12

unfoldable pub jal : Register → ℕ → Checked InstructionBits
unfolding create_jtype_instruction
jal rd imm21 = create_jtype_instruction Opcode.jtype rd imm21

unfoldable pub jalr : Register → Register → ℕ → Checked InstructionBits
unfolding create_itype_instruction
jalr rd rs1 imm12 = create_itype_instruction Opcode.jalr Funct3.jalr rd rs1 imm12

unfoldable pub beq : Register → Register → ℕ → Checked InstructionBits
unfolding create_btype_instruction
beq rs1 rs2 imm12 = create_btype_instruction Opcode.btype Funct3.beq rs1 rs2 imm12

unfoldable pub bne : Register → Register → ℕ → Checked InstructionBits
unfolding create_btype_instruction
bne rs1 rs2 imm12 = create_btype_instruction Opcode.btype Funct3.bne rs1 rs2 imm12

unfoldable pub blt : Register → Register → ℕ → Checked InstructionBits
unfolding create_btype_instruction
blt rs1 rs2 imm12 = create_btype_instruction Opcode.btype Funct3.blt rs1 rs2 imm12

unfoldable pub bge : Register → Register → ℕ → Checked InstructionBits
unfolding create_btype_instruction
bge rs1 rs2 imm12 = create_btype_instruction Opcode.btype Funct3.bge rs1 rs2 imm12

unfoldable pub halt : Checked InstructionBits
unfolding set_opcode
halt = set_opcode Opcode.halt empty

unfoldable pub sx_slt : Register → Register → Register → Checked InstructionBits
unfolding create_rtype_instruction
sx_slt rd rs1 rs2 = create_rtype_instruction Opcode.sx_slt Funct3.slt Funct7.slt rd rs1 rs2

unfoldable pub sx_slti : Register → Register → ℕ → Checked InstructionBits
unfolding create_itype_instruction
sx_slti rd rs1 imm12 = create_itype_instruction Opcode.sx_slti Funct3.slti rd rs1 imm12
