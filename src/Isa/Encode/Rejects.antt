-- ===== src/Isa/Encode/Rejects.antt =====
-- The builders end the process exactly when an operand is out of range.
use smol_gpu.Prelude.{ℕ, ◌^◌, ◌≤◌, ◌≡◌, ◌⊎◌, ◌↔◌, none, false, arith}
use smol_gpu.Isa.Opcode.{Opcode}
use smol_gpu.Isa.Register.{Register}
use smol_gpu.Isa.Encode.{
  contains, create_rtype_instruction, create_itype_instruction, create_stype_instruction,
  create_utype_instruction, create_jtype_instruction,
}
use smol_gpu.Isa.Encode.Layout.{set_opcode_lem}
use smol_gpu.Isa.Funct3.{funct3s}
use smol_gpu.Isa.Funct7.{funct7s}

abbrev Outside : Register → Type 0
Outside r = 32 ≤ r.register_number

abbrev IsUnknown3 : ℕ → Type 0
IsUnknown3 f = contains f funct3s ≡ false

abbrev IsUnknown7 : ℕ → Type 0
IsUnknown7 f = contains f funct7s ≡ false

-- `create_itype_instruction` ends the process exactly for an unknown funct3, a register from 32 on, or
-- an immediate from 4096 on.
pub create_itype_instruction-eq_none_iff :
    (o : Opcode) (f3 : ℕ) (rd rs1 : Register) (imm : ℕ)
    → (create_itype_instruction o f3 rd rs1 imm ≡ none)
      ↔ (IsUnknown3 f3 ⊎ Outside rd ⊎ Outside rs1 ⊎ (4096 ≤ imm))
unfolding create_itype_instruction
create_itype_instruction-eq_none_iff o f3 rd rs1 imm = rw (set_opcode_lem o) (ground arith)

-- `create_stype_instruction` ends the process exactly for an unknown funct3, a register from 32 on, or
-- an immediate from 4096 on.
pub create_stype_instruction-eq_none_iff :
    (o : Opcode) (f3 : ℕ) (rs1 rs2 : Register) (imm : ℕ)
    → (create_stype_instruction o f3 rs1 rs2 imm ≡ none)
      ↔ (IsUnknown3 f3 ⊎ Outside rs1 ⊎ Outside rs2 ⊎ (4096 ≤ imm))
unfolding create_stype_instruction
create_stype_instruction-eq_none_iff o f3 rs1 rs2 imm = rw (set_opcode_lem o) (ground arith)

-- `create_rtype_instruction` ends the process exactly for an unknown funct3 or funct7, or a register
-- from 32 on.
pub create_rtype_instruction-eq_none_iff :
    (o : Opcode) (f3 f7 : ℕ) (rd rs1 rs2 : Register)
    → (create_rtype_instruction o f3 f7 rd rs1 rs2 ≡ none)
      ↔ (IsUnknown3 f3 ⊎ IsUnknown7 f7 ⊎ Outside rd ⊎ Outside rs1 ⊎ Outside rs2)
unfolding create_rtype_instruction
create_rtype_instruction-eq_none_iff o f3 f7 rd rs1 rs2 = rw (set_opcode_lem o) (ground arith)

-- `create_utype_instruction` ends the process exactly for a register from 32 on, or an immediate from
-- 2^20 on.
create_utype_instruction-eq_none_iff :
    (o : Opcode) (rd : Register) (imm : ℕ)
    → (create_utype_instruction o rd imm ≡ none) ↔ (Outside rd ⊎ (2 ^ 20 ≤ imm))
unfolding create_utype_instruction
create_utype_instruction-eq_none_iff o rd imm = rw (set_opcode_lem o) (ground arith)

-- `create_jtype_instruction` ends the process exactly for a register from 32 on, or an offset from 2^21
-- on.
pub create_jtype_instruction-eq_none_iff :
    (o : Opcode) (rd : Register) (imm : ℕ)
    → (create_jtype_instruction o rd imm ≡ none) ↔ (Outside rd ⊎ (2 ^ 21 ≤ imm))
unfolding create_jtype_instruction
create_jtype_instruction-eq_none_iff o rd imm = rw (set_opcode_lem o) (ground arith)
