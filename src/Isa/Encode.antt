-- ===== src/Isa/Encode.antt =====
-- `InstructionBits` of sim/simlib/instructions.hpp and the functions that build an instruction word.
-- A failed `assert_or_err` ends the process (`assert(false)` in `print_error`), so a builder is
-- `Checked`, and `none` is that end.
pub mod Imm21
pub mod Layout
pub mod Jump
pub mod Rejects
pub mod Fields
use smol_gpu.Prelude.{
  ℕ, ◌+◌, ◌-◌, ◌*◌, ◌^◌, Bool, true, false, ◌||◌, Option, none, some, List, [], ◌∷◌, map, ◌==◌, ltb,
  bit_and, bit_or,
}
use smol_gpu.Prelude.Word.{u32}
use smol_gpu.Prelude.Checked.{Checked, ◌>>=◌, ◌>>◌}
use smol_gpu.Isa.Opcode.{Opcode, opcode_bits, opcodes}
use smol_gpu.Isa.Funct3.{funct3s}
use smol_gpu.Isa.Funct7.{funct7s}
use smol_gpu.Isa.Register.{Register, bits, validate}
use Imm21.{imm_j_bits}

-- sim/simlib/error.hpp, as the Debug build has it
unfoldable pub assert_or_err : Bool → Checked (Unit {0})
assert_or_err true = some tt
assert_or_err false = none

-- `std::find` reached an element.
unfoldable pub contains : ℕ → List ℕ → Bool
contains id [] = false
contains id (x ∷ xs) = id == x || contains id xs

unfoldable pub validate_instr_id : ℕ → List ℕ → Checked (Unit {0})
unfolding assert_or_err contains
validate_instr_id id possible_ids = assert_or_err (contains id possible_ids)

unfoldable pub validate_register : Register → Checked (Unit {0})
unfolding assert_or_err validate
validate_register reg = assert_or_err (validate reg)

pub record InstructionBits : Type 0 where
  pub word : ℕ

abbrev pub empty : InstructionBits
empty = record { word = 0 }

-- `bits |= x`
abbrev pub or_bits : InstructionBits → ℕ → InstructionBits
or_bits i x = record { word = bit_or i.word x }

unfoldable pub set_opcode : Opcode → InstructionBits → Checked InstructionBits
unfolding validate_instr_id opcode_bits opcodes
set_opcode opcode i = do
  validate_instr_id (opcode_bits opcode) (map opcode_bits opcodes)
  some (or_bits i (opcode_bits opcode))

unfoldable pub set_rd : Register → InstructionBits → Checked InstructionBits
unfolding validate_register
set_rd rd i = do validate_register rd; some (or_bits i (u32 (bits rd * 2 ^ 7)))

unfoldable pub set_funct3 : ℕ → InstructionBits → Checked InstructionBits
unfolding validate_instr_id
set_funct3 funct3 i = do validate_instr_id funct3 funct3s; some (or_bits i (u32 (funct3 * 2 ^ 12)))

unfoldable pub set_rs1 : Register → InstructionBits → Checked InstructionBits
unfolding validate_register
set_rs1 rs1 i = do validate_register rs1; some (or_bits i (u32 (bits rs1 * 2 ^ 15)))

unfoldable pub set_rs2 : Register → InstructionBits → Checked InstructionBits
unfolding validate_register
set_rs2 rs2 i = do validate_register rs2; some (or_bits i (u32 (bits rs2 * 2 ^ 20)))

unfoldable pub set_imm12 : ℕ → InstructionBits → Checked InstructionBits
unfolding assert_or_err
set_imm12 imm i = do assert_or_err (ltb imm 4096); some (or_bits i (u32 (imm * 2 ^ 20)))

unfoldable pub set_funct7 : ℕ → InstructionBits → Checked InstructionBits
unfolding validate_instr_id
set_funct7 funct7 i = do validate_instr_id funct7 funct7s; some (or_bits i (u32 (funct7 * 2 ^ 25)))

unfoldable pub set_imm20 : ℕ → InstructionBits → Checked InstructionBits
unfolding assert_or_err
set_imm20 imm20 i = do assert_or_err (ltb imm20 1048576); some (or_bits i (u32 (imm20 * 2 ^ 12)))

unfoldable pub set_imm21 : ℕ → InstructionBits → Checked InstructionBits
unfolding assert_or_err imm_j_bits
set_imm21 imm21 i = do assert_or_err (ltb imm21 2097152); some (or_bits i (imm_j_bits imm21))

abbrev pub make_scalar : InstructionBits → InstructionBits
make_scalar i = or_bits i (2 ^ 6)

-- `bits &= ~(1 << 6)`
abbrev pub make_vector : InstructionBits → InstructionBits
make_vector i = record { word = bit_and i.word (2 ^ 32 - 1 - 2 ^ 6) }

unfoldable pub create_utype_instruction : Opcode → Register → ℕ → Checked InstructionBits
unfolding set_opcode set_rd set_imm20
create_utype_instruction opcode rd imm20 = set_opcode opcode empty >>= set_rd rd >>= set_imm20 imm20

unfoldable pub create_itype_instruction :
    Opcode → ℕ → Register → Register → ℕ → Checked InstructionBits
unfolding set_opcode set_funct3 set_rd set_rs1 set_imm12
create_itype_instruction opcode funct3 rd rs1 imm12 =
    set_opcode opcode empty >>= set_funct3 funct3 >>= set_rd rd >>= set_rs1 rs1 >>= set_imm12 imm12

unfoldable pub create_itype_shift_instruction :
    Opcode → ℕ → ℕ → Register → Register → ℕ → Checked InstructionBits
unfolding assert_or_err set_opcode set_funct3 set_funct7 set_rd set_rs1 set_imm12
create_itype_shift_instruction opcode funct3 funct7 rd rs1 imm12 = do
  assert_or_err (ltb imm12 32)
  set_opcode opcode empty
      >>= set_funct3 funct3
      >>= set_funct7 funct7
      >>= set_rd rd
      >>= set_rs1 rs1
      >>= set_imm12 imm12

unfoldable pub create_rtype_instruction :
    Opcode → ℕ → ℕ → Register → Register → Register → Checked InstructionBits
unfolding set_opcode set_funct3 set_funct7 set_rd set_rs1 set_rs2
create_rtype_instruction opcode funct3 funct7 rd rs1 rs2 =
    set_opcode opcode empty
    >>= set_funct3 funct3
    >>= set_funct7 funct7
    >>= set_rd rd
    >>= set_rs1 rs1
    >>= set_rs2 rs2

unfoldable pub create_jtype_instruction : Opcode → Register → ℕ → Checked InstructionBits
unfolding set_opcode set_rd set_imm21
create_jtype_instruction opcode rd imm21 = set_opcode opcode empty >>= set_rd rd >>= set_imm21 imm21

-- The source leaves this one to do: the word is empty whatever the operands.
unfoldable pub create_btype_instruction :
    Opcode → ℕ → Register → Register → ℕ → Checked InstructionBits
create_btype_instruction opcode funct3 rs1 rs2 imm12 = some empty

unfoldable pub create_stype_instruction :
    Opcode → ℕ → Register → Register → ℕ → Checked InstructionBits
unfolding set_opcode set_funct3 set_rs1 set_rs2 set_imm12
create_stype_instruction opcode funct3 rs1 rs2 imm12 =
    set_opcode opcode empty
    >>= set_funct3 funct3
    >>= set_rs1 rs1
    >>= set_rs2 rs2
    >>= set_imm12 imm12
