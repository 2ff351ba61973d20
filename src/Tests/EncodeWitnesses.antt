-- ===== src/Tests/EncodeWitnesses.antt =====
-- The theorems on sim/simlib/instructions.hpp at concrete operands.
use smol_gpu.Prelude.{◌≡◌, ◌↔◌, ◌⊎◌, ◌≤◌, true, false, ◌||◌, none, some, refl, codes, arith}
use smol_gpu.Isa.Opcode
use smol_gpu.Isa.Funct3
use smol_gpu.Isa.Funct3.{funct3s}
use smol_gpu.Isa.Funct7.{funct7s}
use smol_gpu.Isa.Register.{x_register}
use smol_gpu.Isa.Mnemonic
use smol_gpu.Isa.Mnemonic.{
  Mnemonic, name_to_determinant, mnemonic_name_to_opcode, to_opcode, name_eq, str_to_mnemonic,
  to_str,
}
use smol_gpu.Isa.Mnemonic.Names.{str_to_mnemonic_iff}
use smol_gpu.Isa.Mnemonic.Tables.{is_scalar-to_opcode}
use smol_gpu.Isa.Encode.{
  InstructionBits, contains, create_itype_instruction, create_rtype_instruction,
  create_stype_instruction, create_jtype_instruction,
}
use smol_gpu.Isa.Encode.Fields.{HasStypeFields, create_stype_instruction-HasStypeFields}
use smol_gpu.Isa.Encode.Jump.{HasJtypeFields, create_jtype_instruction-HasJtypeFields}
use smol_gpu.Isa.Encode.Rejects.{
  create_itype_instruction-eq_none_iff, create_rtype_instruction-eq_none_iff,
}

abbrev scalar_add : Mnemonic
scalar_add = record { name = Mnemonic.add; has_s_prefix = true }

create_stype_instruction-HasStypeFields_example :
    (w : InstructionBits) × (create_stype_instruction Opcode.stype Funct3.sw
        (x_register 5)
        (x_register 6)
        33
      ≡ some w)
    × HasStypeFields Opcode.stype Funct3.sw (x_register 5) (x_register 6) 33 w
unfolding contains
create_stype_instruction-HasStypeFields_example =
    create_stype_instruction-HasStypeFields Opcode.stype Funct3.sw refl (x_register 5)
      (x_register 6) 33 (omega arith) (omega arith) (omega arith)

create_jtype_instruction-HasJtypeFields_example :
    (w : InstructionBits) × (create_jtype_instruction Opcode.jtype (x_register 1) 100000 ≡ some w)
    × HasJtypeFields Opcode.jtype (x_register 1) 100000 w
create_jtype_instruction-HasJtypeFields_example =
    create_jtype_instruction-HasJtypeFields Opcode.jtype (x_register 1) 100000 (omega arith)
      (omega arith)

create_itype_instruction-eq_none_iff_example :
    (create_itype_instruction Opcode.itype Funct3.addi (x_register 5) (x_register 6) 4096 ≡ none)
    ↔ ((contains Funct3.addi funct3s ≡ false) ⊎ (32 ≤ 5) ⊎ (32 ≤ 6) ⊎ (4096 ≤ 4096))
create_itype_instruction-eq_none_iff_example =
    create_itype_instruction-eq_none_iff Opcode.itype Funct3.addi (x_register 5) (x_register 6) 4096

create_rtype_instruction-eq_none_iff_example :
    (create_rtype_instruction Opcode.rtype Funct3.add 3 (x_register 1) (x_register 2) (x_register 3)
      ≡ none)
    ↔ ((contains Funct3.add funct3s ≡ false)
        ⊎ (contains 3 funct7s ≡ false)
        ⊎ (32 ≤ 1)
        ⊎ (32 ≤ 2)
        ⊎ (32 ≤ 3))
create_rtype_instruction-eq_none_iff_example =
    create_rtype_instruction-eq_none_iff Opcode.rtype Funct3.add 3 (x_register 1) (x_register 2)
      (x_register 3)

str_to_mnemonic_iff_example :
    (str_to_mnemonic (codes "s.add") ≡ some scalar_add) ↔ (codes "s.add" ≡ to_str scalar_add)
str_to_mnemonic_iff_example = str_to_mnemonic_iff (codes "s.add") scalar_add

is_scalar-to_opcode_example :
    Opcode.is_scalar (to_opcode scalar_add)
    ≡ (Mnemonic.is_scalar scalar_add || name_eq Mnemonic.add Mnemonic.halt)
is_scalar-to_opcode_example = is_scalar-to_opcode scalar_add
