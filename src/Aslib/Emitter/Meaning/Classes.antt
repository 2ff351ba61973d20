-- ===== src/Aslib/Emitter/Meaning/Classes.antt =====
-- The control signals that src/decoder.sv reads from a word with the fields of its format, for the
-- opcodes of loads, upper immediates, jumps, the vector-scalar instructions and `halt`.
use smol_gpu.Prelude.{ℕ, ◌*◌, ◌/◌, ◌^◌, ◌≡◌, refl, ap, ◌∙◌, true, false}
use smol_gpu.Isa.Opcode
use smol_gpu.Isa.Opcode.{opcode_bits}
use smol_gpu.Isa.Register.{Register}
use smol_gpu.Isa.Encode.{InstructionBits}
use smol_gpu.Isa.Encode.Fields.{HasItypeFields, HasRtypeFields, HasUtypeFields}
use smol_gpu.Isa.Encode.Jump.{HasJtypeFields}
use smol_gpu.Gpu.Decoder
use smol_gpu.Gpu.Decoder.{
  AluInstruction, Control, RegInputMux, alu_out, lsu_out, immediate_in, pc_plus_1, vector_to_scalar,
  decode, decode_inst, sign_extend, sign_extend_21,
}
use smol_gpu.Aslib.Emitter.Decoded.{inst_of_opcode}

-- All signals low.
abbrev pub idle : Control
idle = record {
  reg_write_enable = false;
  mem_write_enable = false;
  mem_read_enable = false;
  branch = false;
  reg_input_mux = alu_out;
  scalar_instruction = false;
  immediate = 0;
  rd_address = 0;
  rs1_address = 0;
  rs2_address = 0;
  alu_instruction = Decoder.addi;
  is_halt = false;
}

-- `rd = memory[rs1 + offset]` in every lane
abbrev pub load : Register → Register → ℕ → Control
load rd rs1 offset = record idle {
  reg_write_enable = true;
  mem_read_enable = true;
  reg_input_mux = lsu_out;
  immediate = sign_extend offset;
  rd_address = rd.register_number;
  rs1_address = rs1.register_number;
}

-- `rd = imm << 12`
abbrev pub load_upper : Register → ℕ → Control
load_upper rd imm = record idle {
  reg_write_enable = true;
  reg_input_mux = immediate_in;
  immediate = imm * 2 ^ 12;
  rd_address = rd.register_number;
}

-- `rd = pc + (imm << 12)` by README.md; the arithmetic unit adds registers for these signals.
abbrev pub add_upper : Register → ℕ → Control
add_upper rd imm = record idle {
  reg_write_enable = true;
  immediate = imm * 2 ^ 12;
  rd_address = rd.register_number;
  alu_instruction = Decoder.add;
}

-- `rd = pc + 1`, and a jump by `offset`
abbrev pub jump : Register → ℕ → Control
jump rd offset = record idle {
  reg_write_enable = true;
  reg_input_mux = pc_plus_1;
  scalar_instruction = true;
  immediate = sign_extend_21 offset;
  rd_address = rd.register_number;
  alu_instruction = Decoder.jal;
}

-- `rd = pc + 1`, and a jump to `rs1 + offset`
abbrev pub jump_register : Register → Register → ℕ → Control
jump_register rd rs1 offset = record idle {
  reg_write_enable = true;
  reg_input_mux = pc_plus_1;
  scalar_instruction = true;
  immediate = sign_extend offset;
  rd_address = rd.register_number;
  rs1_address = rs1.register_number;
  alu_instruction = Decoder.jalr;
}

-- A bit of the scalar `rd` for each lane's `rs1 < rs2`
abbrev pub compare_lanes : Register → Register → Register → Control
compare_lanes rd rs1 rs2 = record idle {
  reg_write_enable = true;
  reg_input_mux = vector_to_scalar;
  rd_address = rd.register_number;
  rs1_address = rs1.register_number;
  rs2_address = rs2.register_number;
  alu_instruction = Decoder.slt;
}

-- A bit of the scalar `rd` for each lane's `rs1 < imm`
abbrev pub compare_lanes_immediate : Register → Register → ℕ → Control
compare_lanes_immediate rd rs1 imm = record idle {
  reg_write_enable = true;
  reg_input_mux = vector_to_scalar;
  immediate = sign_extend imm;
  rd_address = rd.register_number;
  rs1_address = rs1.register_number;
  alu_instruction = Decoder.slti;
}

-- The end of the warp
abbrev pub halted : Control
halted = record idle { scalar_instruction = true; is_halt = true }

module _ {o : Opcode.Opcode} {w : InstructionBits} where
  module _ {f3 : ℕ} {rd rs1 : Register} {imm : ℕ} (h : HasItypeFields o f3 rd rs1 imm w) where
    pub load-decode : o ≡ Opcode.load → decode w.word ≡ load rd rs1 imm
    unfolding decode decode_inst opcode_bits
    load-decode same =
        let opcode_is = h.opcode_is ∙ ap opcode_bits same in
        let (inst_is, scalar_is) = inst_of_opcode w.word _ opcode_is in
        rw (opcode_is, inst_is, scalar_is, h.rd_is, h.rs1_is, h.imm_is) refl

    pub jalr-decode : o ≡ Opcode.jalr → decode w.word ≡ jump_register rd rs1 imm
    unfolding decode opcode_bits
    jalr-decode same = rw (h.opcode_is ∙ ap opcode_bits same, h.rd_is, h.rs1_is, h.imm_is) refl

    pub sx_slti-decode : o ≡ Opcode.sx_slti → decode w.word ≡ compare_lanes_immediate rd rs1 imm
    unfolding decode opcode_bits
    sx_slti-decode same = rw (h.opcode_is ∙ ap opcode_bits same, h.rd_is, h.rs1_is, h.imm_is) refl

    pub halt-decode : o ≡ Opcode.halt → decode w.word ≡ halted
    unfolding decode opcode_bits
    halt-decode same =
        let opcode_is = h.opcode_is ∙ ap opcode_bits same in
        rw (opcode_is, (inst_of_opcode w.word _ opcode_is).1) refl

  pub sx_slt-decode :
      {f3 f7 : ℕ} {rd rs1 rs2 : Register}
      → HasRtypeFields o f3 f7 rd rs1 rs2 w
      → o ≡ Opcode.sx_slt
      → decode w.word ≡ compare_lanes rd rs1 rs2
  unfolding decode opcode_bits
  sx_slt-decode h same = rw (h.opcode_is ∙ ap opcode_bits same, h.rd_is, h.rs1_is, h.rs2_is) refl

  module _ {rd : Register} {imm : ℕ} (h : HasUtypeFields o rd imm w) where
    pub lui-decode : o ≡ Opcode.lui → decode w.word ≡ load_upper rd imm
    unfolding decode decode_inst opcode_bits
    lui-decode same =
        let opcode_is = h.opcode_is ∙ ap opcode_bits same in
        let (inst_is, scalar_is) = inst_of_opcode w.word _ opcode_is in
        rw (opcode_is, inst_is, scalar_is, h.rd_is, h.imm_is) refl

    pub auipc-decode : o ≡ Opcode.auipc → decode w.word ≡ add_upper rd imm
    unfolding decode decode_inst opcode_bits
    auipc-decode same =
        let opcode_is = h.opcode_is ∙ ap opcode_bits same in
        let (inst_is, scalar_is) = inst_of_opcode w.word _ opcode_is in
        rw (opcode_is, inst_is, scalar_is, h.rd_is, h.imm_is) refl

  pub jal-decode :
      {rd : Register} {imm : ℕ}
      → HasJtypeFields o rd imm w
      → o ≡ Opcode.jtype
      → decode w.word ≡ jump rd (imm / 2 * 2)
  unfolding decode opcode_bits
  jal-decode h same = rw (h.opcode_is ∙ ap opcode_bits same, h.rd_is, h.imm_is) refl
