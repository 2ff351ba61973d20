-- ===== src/Aslib/Emitter.antt =====
-- sim/aslib/emitter.cpp: the instructions of a program to machine words.
pub mod Intended
pub mod Decoded
pub mod Meaning
pub mod Executed
pub mod Constructed
pub mod Lanes
pub mod Assembled
use smol_gpu.Prelude.{ℕ, Option, none, some, List, [], ◌∷◌}
use smol_gpu.Prelude.Int.{to_u32}
use smol_gpu.Prelude.Checked.{Checked, ◌>>=◌}
use smol_gpu.Isa.Register.{x_register}
use smol_gpu.Isa.Mnemonic.{InstructionDeterminant, name_to_determinant}
use smol_gpu.Isa.Encode.{
  InstructionBits, create_itype_instruction, create_rtype_instruction, create_stype_instruction,
  create_utype_instruction, create_jtype_instruction,
}
use smol_gpu.Isa.Instructions
use smol_gpu.Aslib.Syntax.{
  Operands, Instruction, Program, itype, rtype, stype, utype, jtype, jalr, immediate, label_ref,
}
use smol_gpu.Aslib.Labels.{Labels, lookup}

-- The visitor on the operands. `none` is a failed assertion of a builder, or the exception that
-- `label_mappings.at` throws for an unknown label.
unfoldable pub emit_operands : Labels → InstructionDeterminant → Operands → Checked InstructionBits
emit_operands labels d (itype rd rs1 imm12) =
    create_itype_instruction d.opcode d.funct3 rd rs1 (to_u32 imm12)
emit_operands labels d (rtype rd rs1 rs2) =
    create_rtype_instruction d.opcode d.funct3 d.funct7 rd rs1 rs2
emit_operands labels d (stype rs1 rs2 imm12) =
    create_stype_instruction d.opcode d.funct3 rs1 rs2 (to_u32 imm12)
emit_operands labels d (utype rd imm20) = create_utype_instruction d.opcode rd (to_u32 imm20)
emit_operands labels d (jtype rd imm20) = create_jtype_instruction d.opcode rd (to_u32 imm20)
emit_operands labels d (jalr rd rs1 (label_ref name)) = do
  target ← lookup name labels
  Instructions.jalr rd (x_register 0) target
emit_operands labels d (jalr rd rs1 (immediate value)) = Instructions.jalr rd rs1 (to_u32 value)

unfoldable pub emit : Labels → Instruction → Checked InstructionBits
unfolding emit_operands
emit labels i = emit_operands labels (name_to_determinant i.mnemonic.name) i.operands

-- The loop over the instructions.
unfoldable pub emit_all : Labels → List Instruction → Checked (List InstructionBits)
emit_all labels [] = some []
emit_all labels (i ∷ is) = do w ← emit labels i; ws ← emit_all labels is; some (w ∷ ws)

unfoldable pub translate_to_binary : Program → Checked (List InstructionBits)
unfolding emit_all emit name_to_determinant
translate_to_binary program = emit_all program.label_mappings program.instructions
