-- ===== src/Gpu/Decoder.antt =====
-- src/decoder.sv: the fields of an instruction word, and the control signals that one decode step
-- latches; src/common/common.sv: the opcodes and the sign extensions.
use smol_gpu.Prelude.{ℕ, ◌+◌, ◌-◌, ◌*◌, ◌^◌, Bool, true, false, ◌==◌, ltb, if◌then◌else◌}
use smol_gpu.Prelude.Word.{field}

-- The wires: each a slice of the instruction.
abbrev pub opcode : ℕ → ℕ
opcode = field 0 7

abbrev pub inst : ℕ → ℕ
inst = field 0 6

abbrev pub scalar : ℕ → Bool
scalar w = field 6 1 w == 1

abbrev pub rd : ℕ → ℕ
rd = field 7 5

abbrev pub funct3 : ℕ → ℕ
funct3 = field 12 3

abbrev pub rs1 : ℕ → ℕ
rs1 = field 15 5

abbrev pub rs2 : ℕ → ℕ
rs2 = field 20 5

abbrev pub funct7 : ℕ → ℕ
funct7 = field 25 7

abbrev pub imm_i : ℕ → ℕ
imm_i = field 20 12

abbrev pub imm_s : ℕ → ℕ
imm_s w = field 25 7 w * 2 ^ 5 + field 7 5 w

abbrev pub imm_b : ℕ → ℕ
imm_b w = field 31 1 w * 2 ^ 12 + field 7 1 w * 2 ^ 11 + field 25 6 w * 2 ^ 5 + field 8 4 w * 2

abbrev pub imm_u : ℕ → ℕ
imm_u = field 12 20

abbrev pub imm_j : ℕ → ℕ
imm_j w = field 31 1 w * 2 ^ 20 + field 12 8 w * 2 ^ 12 + field 20 1 w * 2 ^ 11 + field 21 10 w * 2

-- The 32-bit pattern of a signed value of `w` bits.
abbrev extend : ℕ → ℕ → ℕ
extend w x = if ltb x (2 ^ (w - 1)) then x else x + (2 ^ 32 - 2 ^ w)

unfoldable pub sign_extend : ℕ → ℕ
sign_extend = extend 12

unfoldable pub sign_extend_13 : ℕ → ℕ
sign_extend_13 = extend 13

unfoldable pub sign_extend_21 : ℕ → ℕ
sign_extend_21 = extend 21

pub data AluInstruction : Type 0 where
  addi slti xori ori andi slli srli srai : AluInstruction
  add sub sll slt xor srl sra or and : AluInstruction
  beq bne blt bge jal jalr : AluInstruction

pub data RegInputMux : Type 0 where
  alu_out lsu_out immediate_in pc_plus_1 vector_to_scalar : RegInputMux

-- The `decoded_*` registers.
pub record Control : Type 0 where
  pub reg_write_enable : Bool
  pub mem_write_enable : Bool
  pub mem_read_enable : Bool
  pub branch : Bool
  pub reg_input_mux : RegInputMux
  pub scalar_instruction : Bool
  pub immediate : ℕ
  pub rd_address : ℕ
  pub rs1_address : ℕ
  pub rs2_address : ℕ
  pub alu_instruction : AluInstruction
  pub is_halt : Bool

-- The default assignments of a decode.
abbrev pub start : ℕ → Control
start w = record {
  reg_write_enable = false;
  mem_write_enable = false;
  mem_read_enable = false;
  branch = false;
  reg_input_mux = alu_out;
  scalar_instruction = scalar w;
  immediate = 0;
  rd_address = 0;
  rs1_address = 0;
  rs2_address = 0;
  alu_instruction = addi;
  is_halt = false;
}

-- The inner `case (funct3)` of R-type, I-type and B-type. A `$error` keeps the default.
unfoldable pub rtype_alu : ℕ → ℕ → AluInstruction
rtype_alu f3 f7 =
    if f3 == 0b000
    then (if f7 == 0 then add else if f7 == 0b0100000 then sub else addi)
    else if f3 == 0b001
    then sll
    else if f3 == 0b010
    then slt
    else if f3 == 0b100
    then xor
    else if f3 == 0b101
    then (if f7 == 0 then srl else if f7 == 0b0100000 then sra else addi)
    else if f3 == 0b110
    then or
    else if f3 == 0b111
    then and
    else addi

unfoldable pub itype_alu : ℕ → ℕ → AluInstruction
itype_alu f3 f7 =
    if f3 == 0b000
    then addi
    else if f3 == 0b010
    then slti
    else if f3 == 0b100
    then xori
    else if f3 == 0b110
    then ori
    else if f3 == 0b111
    then andi
    else if f3 == 0b001
    then slli
    else if f3 == 0b101
    then (if f7 == 0 then srli else if f7 == 0b0100000 then srai else addi)
    else addi

unfoldable pub btype_alu : ℕ → AluInstruction
btype_alu f3 =
    if f3 == 0b000
    then beq
    else if f3 == 0b001
    then bne
    else if f3 == 0b100
    then blt
    else if f3 == 0b101
    then bge
    else addi

-- `decoded_immediate`, `decoded_rs1_address`, `decoded_rd_address` and the write enable, which most
-- cases set alike.
abbrev pub writes_rd : ℕ → ℕ → Control → Control
writes_rd w imm c = record c {
  rd_address = rd w;
  rs1_address = rs1 w;
  immediate = imm;
  reg_write_enable = true;
}

-- The `case (inst)` at the end: opcodes of 6 bits.
unfoldable pub decode_inst : ℕ → Control
unfolding sign_extend rtype_alu itype_alu
decode_inst w =
    if inst w == 0b110011
    then record (writes_rd w 0 (start w)) {
      rs2_address = rs2 w;
      alu_instruction = rtype_alu (funct3 w) (funct7 w);
    }
    else if inst w == 0b010011
    then record (writes_rd w (sign_extend (imm_i w)) (start w)) {
      alu_instruction = itype_alu (funct3 w) (funct7 w);
    }
    else if inst w == 0b000011
    then record (writes_rd w (sign_extend (imm_i w)) (start w)) {
      reg_input_mux = lsu_out;
      mem_read_enable = true;
    }
    else if inst w == 0b100011
    then record (start w) {
      rs1_address = rs1 w;
      rs2_address = rs2 w;
      immediate = sign_extend (imm_s w);
      mem_write_enable = true;
    }
    else if inst w == 0b110111
    then record (start w) {
      rd_address = rd w;
      immediate = imm_u w * 2 ^ 12;
      reg_write_enable = true;
      reg_input_mux = immediate_in;
    }
    else if inst w == 0b010111
    then record (start w) {
      rd_address = rd w;
      immediate = imm_u w * 2 ^ 12;
      reg_write_enable = true;
      alu_instruction = add;
    }
    else start w

-- One decode of the instruction `w`, in state `WARP_DECODE` with `reset` low.
unfoldable pub decode : ℕ → Control
unfolding decode_inst sign_extend sign_extend_13 sign_extend_21 btype_alu
decode w =
    if opcode w == 0b1111111
    then record (start w) { is_halt = true }
    else if opcode w == 0b1111110
    then record (writes_rd w 0 (start w)) {
      scalar_instruction = false;
      rs2_address = rs2 w;
      reg_input_mux = vector_to_scalar;
      alu_instruction = slt;
    }
    else if opcode w == 0b1111101
    then record (writes_rd w (sign_extend (imm_i w)) (start w)) {
      scalar_instruction = false;
      reg_input_mux = vector_to_scalar;
      alu_instruction = slti;
    }
    else if opcode w == 0b1100011
    then record (start w) {
      rs1_address = rs1 w;
      rs2_address = rs2 w;
      immediate = sign_extend_13 (imm_b w);
      branch = true;
      alu_instruction = btype_alu (funct3 w);
    }
    else if opcode w == 0b1101111
    then record (start w) {
      rd_address = rd w;
      reg_write_enable = true;
      reg_input_mux = pc_plus_1;
      scalar_instruction = true;
      alu_instruction = jal;
      immediate = sign_extend_21 (imm_j w);
    }
    else if opcode w == 0b1100111
    then record (writes_rd w (sign_extend (imm_i w)) (start w)) {
      reg_input_mux = pc_plus_1;
      scalar_instruction = true;
      alu_instruction = jalr;
    }
    else decode_inst w
