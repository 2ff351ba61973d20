-- ===== src/Aslib/Emitter/Decoded.antt =====
-- What src/decoder.sv makes of the words of sim/aslib/emitter.cpp.
use smol_gpu.Prelude.{
  bit_or, ℕ, ◌*◌, ◌/◌, ◌%◌, ◌^◌, ◌<◌, ◌≡◌, refl, ap, ◌∙◌, some, true, false, arith, Option, none,
  List, inr,
}
use smol_gpu.Prelude.Int.{pos, negsuc}
use native.Mathlib.Nat.{mod-eq_of_lt}
use smol_gpu.Isa.Opcode
use smol_gpu.Isa.Opcode.{opcode_bits}
use smol_gpu.Isa.Register.{Register}
use smol_gpu.Isa.Funct3.{funct3s}
use smol_gpu.Isa.Funct7.{funct7s}
use smol_gpu.Isa.Mnemonic
use smol_gpu.Isa.Mnemonic.{MnemonicName, Mnemonic, name_to_determinant}
use smol_gpu.Isa.Encode.{InstructionBits, contains}
use smol_gpu.Isa.Encode.Fields.{
  InRange, HasItypeFields, HasRtypeFields, HasStypeFields, create_rtype_instruction-HasRtypeFields,
  create_itype_instruction-HasItypeFields, create_stype_instruction-HasStypeFields,
}
use smol_gpu.Isa.Encode.Rejects.{create_itype_instruction-eq_none_iff}
use smol_gpu.Gpu.Decoder
use smol_gpu.Gpu.Decoder.{
  AluInstruction, Control, alu_out, lsu_out, decode, decode_inst, sign_extend, rtype_alu, itype_alu,
}
use smol_gpu.Aslib.Syntax.{Operands, Instruction, itype, rtype, stype}
use smol_gpu.Aslib.Labels.{Labels}
use smol_gpu.Aslib.Emitter.{emit, emit_operands}

-- The operation of the unit for a mnemonic of the register formats: a description of the tables.
abbrev pub alu_of : MnemonicName → AluInstruction
alu_of Mnemonic.slti = Decoder.slti
alu_of Mnemonic.xori = Decoder.xori
alu_of Mnemonic.ori = Decoder.ori
alu_of Mnemonic.andi = Decoder.andi
alu_of Mnemonic.slli = Decoder.slli
alu_of Mnemonic.srli = Decoder.srli
alu_of Mnemonic.srai = Decoder.srai
alu_of Mnemonic.add = Decoder.add
alu_of Mnemonic.sub = Decoder.sub
alu_of Mnemonic.sll = Decoder.sll
alu_of Mnemonic.slt = Decoder.slt
alu_of Mnemonic.xor = Decoder.xor
alu_of Mnemonic.srl = Decoder.srl
alu_of Mnemonic.sra = Decoder.sra
alu_of Mnemonic.or = Decoder.or
alu_of Mnemonic.and = Decoder.and
alu_of _ = Decoder.addi

-- The control signals of `rd = rs1 op rs2` in every lane.
abbrev pub three_registers : AluInstruction → Register → Register → Register → Control
three_registers op rd rs1 rs2 = record {
  reg_write_enable = true;
  mem_write_enable = false;
  mem_read_enable = false;
  branch = false;
  reg_input_mux = alu_out;
  scalar_instruction = false;
  immediate = 0;
  rd_address = rd.register_number;
  rs1_address = rs1.register_number;
  rs2_address = rs2.register_number;
  alu_instruction = op;
  is_halt = false;
}

-- Those of `rd = rs1 op imm` in every lane.
abbrev pub register_immediate : AluInstruction → Register → Register → ℕ → Control
register_immediate op rd rs1 imm = record {
  reg_write_enable = true;
  mem_write_enable = false;
  mem_read_enable = false;
  branch = false;
  reg_input_mux = alu_out;
  scalar_instruction = false;
  immediate = sign_extend imm;
  rd_address = rd.register_number;
  rs1_address = rs1.register_number;
  rs2_address = 0;
  alu_instruction = op;
  is_halt = false;
}

-- The opcode is the class and, above it, the scalar bit.
pub inst_of_opcode :
    (w n : ℕ) → Decoder.opcode w ≡ n → (Decoder.inst w ≡ n % 64) × (w / 2 ^ 6 % 2 ≡ n / 64)
inst_of_opcode w n h = omega arith

pub rtype-decode :
    {o : Opcode.Opcode} {f3 f7 : ℕ} {rd rs1 rs2 : Register} {w : InstructionBits}
    → o ≡ Opcode.rtype
    → HasRtypeFields o f3 f7 rd rs1 rs2 w
    → decode w.word ≡ three_registers (rtype_alu f3 f7) rd rs1 rs2
unfolding decode decode_inst opcode_bits
rtype-decode {w} same h =
    let opcode_is = h.opcode_is ∙ ap opcode_bits same in
    let (inst_is, scalar_is) = inst_of_opcode w.word _ opcode_is in
    rw (opcode_is, inst_is, scalar_is, h.funct3_is, h.funct7_is, h.rd_is, h.rs1_is, h.rs2_is) refl

pub itype-decode :
    {o : Opcode.Opcode} {f3 : ℕ} {rd rs1 : Register} {imm : ℕ} {w : InstructionBits}
    → o ≡ Opcode.itype
    → HasItypeFields o f3 rd rs1 imm w
    → decode w.word ≡ register_immediate (itype_alu f3 (imm / 32)) rd rs1 imm
unfolding decode decode_inst opcode_bits
itype-decode {imm} {w} same h =
    let opcode_is = h.opcode_is ∙ ap opcode_bits same in
    let (inst_is, scalar_is) = inst_of_opcode w.word _ opcode_is in
    let funct7_is : Decoder.funct7 w.word ≡ imm / 32 = omega (arith, h.imm_is) in
    rw (opcode_is, inst_is, scalar_is, h.funct3_is, funct7_is, h.rd_is, h.rs1_is, h.imm_is) refl

-- The tables of the assembler and of the decoder agree on the instructions of three registers.
pub rtype-tables :
    (n : MnemonicName)
    → (name_to_determinant n).opcode ≡ Opcode.rtype
    → (rtype_alu (name_to_determinant n).funct3 (name_to_determinant n).funct7 ≡ alu_of n)
      × (contains (name_to_determinant n).funct3 funct3s ≡ true)
      × (contains (name_to_determinant n).funct7 funct7s ≡ true)
unfolding name_to_determinant rtype_alu contains
rtype-tables Mnemonic.lui h = cc
rtype-tables Mnemonic.add h = (refl, refl, refl)
rtype-tables _ h = ground arith

-- The operation that the decoder reads from a word of the immediate format: for the two right shifts
-- it is the upper part of the immediate that selects it.
abbrev pub emitted_alu : MnemonicName → ℕ → AluInstruction
emitted_alu Mnemonic.srli imm = itype_alu 0b101 (imm / 32)
emitted_alu Mnemonic.srai imm = itype_alu 0b101 (imm / 32)
emitted_alu n imm = alu_of n

pub itype-tables :
    (n : MnemonicName) (imm : ℕ)
    → (name_to_determinant n).opcode ≡ Opcode.itype
    → (itype_alu (name_to_determinant n).funct3 (imm / 32) ≡ emitted_alu n imm)
      × (contains (name_to_determinant n).funct3 funct3s ≡ true)
unfolding name_to_determinant itype_alu contains
itype-tables Mnemonic.lui imm h = cc
itype-tables _ imm h = ground arith

abbrev pub with_operands : Option (List ℕ) → Mnemonic → Operands → Instruction
with_operands label m o = record { label = label; mnemonic = m; operands = o }

module _ (labels : Labels) (label : Option (List ℕ)) (m : Mnemonic) where
  -- An instruction of three registers, with a mnemonic of the R-type opcode and registers below 32, is
  -- assembled to a word that the decoder reads as the operation of its mnemonic, on its registers, in
  -- every lane.
  emit-three_registers :
      (rd rs1 rs2 : Register)
      → (name_to_determinant m.name).opcode ≡ Opcode.rtype
      → InRange rd
      → InRange rs1
      → InRange rs2
      → (w : InstructionBits) × (emit labels (with_operands label m (rtype rd rs1 rs2)) ≡ some w)
        × (decode w.word ≡ three_registers (alu_of m.name) rd rs1 rs2)
  unfolding emit emit_operands
  emit-three_registers rd rs1 rs2 of_type hd h1 h2 =
      let (op, known3, known7) = rtype-tables m.name of_type in
      let (w, made, fields) =
        create_rtype_instruction-HasRtypeFields _ _ known3 _ rd rs1 rs2 known7 hd h1 h2 in
      (
        w,
        made,
        rtype-decode of_type fields ∙ ap (λ (a : AluInstruction). three_registers a rd rs1 rs2) op,
      )

  -- An instruction of a register and an immediate, with a mnemonic of the I-type opcode, registers below
  -- 32 and an immediate from 0 to 4095, is assembled to a word that the decoder reads as the operation
  -- of its mnemonic, on its registers and the sign-extended immediate, in every lane; except that for
  -- `srli` and `srai` alike the upper seven bits of the immediate choose the operation.
  pub emit-register_immediate :
      (rd rs1 : Register) (imm : ℕ)
      → (name_to_determinant m.name).opcode ≡ Opcode.itype
      → InRange rd
      → InRange rs1
      → imm < 4096
      → (w : InstructionBits) × (emit labels (with_operands label m (itype rd rs1 (pos imm)))
          ≡ some w)
        × (decode w.word ≡ register_immediate (emitted_alu m.name imm) rd rs1 imm)
  unfolding emit emit_operands
  emit-register_immediate rd rs1 imm of_type hd h1 hi =
      let (op, known) = itype-tables m.name imm of_type in
      let (w, made, fields) =
        create_itype_instruction-HasItypeFields _ _ known rd rs1 imm hd h1 hi in
      (
        w,
        rw (mod-eq_of_lt {n = imm} {m = 2 ^ 32} (omega arith)) made,
        itype-decode of_type fields
            ∙ ap (λ (a : AluInstruction). register_immediate a rd rs1 imm) op,
      )

  -- An instruction of a register and an immediate, with an `int32_t` below zero as its immediate, ends
  -- the assembler, whatever its mnemonic.
  pub emit-negative :
      (rd rs1 : Register) (n : ℕ)
      → n < 2 ^ 31
      → emit labels (with_operands label m (itype rd rs1 (negsuc n))) ≡ none
  unfolding emit emit_operands
  emit-negative rd rs1 n small =
      (create_itype_instruction-eq_none_iff _ _ rd rs1 _).1 (inr (inr (inr (omega arith))))

-- Those of a store of `rs2` to `rs1 + imm`, as far as the decoder sets them.
abbrev pub store : ℕ → ℕ → ℕ → Control
store rs1 rs2 imm = record {
  reg_write_enable = false;
  mem_write_enable = true;
  mem_read_enable = false;
  branch = false;
  reg_input_mux = alu_out;
  scalar_instruction = false;
  immediate = sign_extend imm;
  rd_address = 0;
  rs1_address = rs1;
  rs2_address = rs2;
  alu_instruction = Decoder.addi;
  is_halt = false;
}

pub stype-decode :
    {o : Opcode.Opcode} {f3 : ℕ} {rs1 rs2 : Register} {imm : ℕ} {w : InstructionBits}
    → o ≡ Opcode.stype
    → HasStypeFields o f3 rs1 rs2 imm w
    → decode w.word
      ≡ store rs1.register_number (bit_or rs2.register_number (imm % 32)) (imm / 32 * 32)
unfolding decode decode_inst opcode_bits
stype-decode {imm} {w} same h =
    let opcode_is = h.opcode_is ∙ ap opcode_bits same in
    let (inst_is, scalar_is) = inst_of_opcode w.word _ opcode_is in
    rw (opcode_is, inst_is, scalar_is, h.rs1_is, h.rs2_is, h.imm_is) refl

pub stype-tables :
    (n : MnemonicName)
    → (name_to_determinant n).opcode ≡ Opcode.stype
    → contains (name_to_determinant n).funct3 funct3s ≡ true
unfolding name_to_determinant contains
stype-tables Mnemonic.lui h = cc
stype-tables _ h = ground arith

-- A store with a mnemonic of the S-type opcode, registers below 32 and an offset from 0 to 4095 is
-- assembled to a word that the decoder reads as a store; but its offset is rounded down to a multiple
-- of 32, and its low five bits are or-ed into the number of the stored register.
pub emit-store :
    (labels : Labels) (label : Option (List ℕ)) (m : Mnemonic) (rs1 rs2 : Register) (imm : ℕ)
    → (name_to_determinant m.name).opcode ≡ Opcode.stype
    → InRange rs1
    → InRange rs2
    → imm < 4096
    → (w : InstructionBits) × (emit labels (with_operands label m (stype rs1 rs2 (pos imm)))
        ≡ some w)
      × (decode w.word
          ≡ store rs1.register_number (bit_or rs2.register_number (imm % 32)) (imm / 32 * 32))
unfolding emit emit_operands
emit-store labels label m rs1 rs2 imm of_type h1 h2 hi =
    let (w, made, fields) =
      create_stype_instruction-HasStypeFields _ _ (stype-tables m.name of_type) rs1 rs2 imm h1 h2
        hi in
    (w, rw (mod-eq_of_lt {n = imm} {m = 2 ^ 32} (omega arith)) made, stype-decode of_type fields)
