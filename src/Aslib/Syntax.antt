-- ===== src/Aslib/Syntax.antt =====
-- sim/aslib/parser.hpp: parsed lines and instructions, the classes of mnemonics, and the texts.
use smol_gpu.Prelude.{ℕ, Bool, ◌||◌, Option, none, some, List, [], ◌++◌, Text, codes, if◌then◌else◌}
use smol_gpu.Prelude.Int.{ℤ, pos}
use smol_gpu.Prelude.Decimal.{decimal, decimal_ℤ}
use smol_gpu.Isa.Register
use smol_gpu.Isa.Register.{Register, x_register}
use smol_gpu.Isa.Mnemonic
use smol_gpu.Isa.Mnemonic.{MnemonicName, Mnemonic, name_eq}

-- `ImmediateOrLabelref`
pub data ImmediateOrLabelref : Type 0 where
  immediate : ℤ → ImmediateOrLabelref
  label_ref : Text → ImmediateOrLabelref

-- The alternatives of `Operands`, each with its fields in order.
pub data Operands : Type 0 where
  -- rd, rs1, imm12
  itype : Register → Register → ℤ → Operands
  -- rd, rs1, rs2
  rtype : Register → Register → Register → Operands
  -- rs1, rs2, imm12
  stype : Register → Register → ℤ → Operands
  -- rd, imm20
  utype : Register → ℤ → Operands
  jtype : Register → ℤ → Operands
  -- rd, rs1, immediate_or_label_ref
  jalr : Register → Register → ImmediateOrLabelref → Operands

-- What a value-initialised `Operands` holds.
abbrev pub no_operands : Operands
no_operands = itype (x_register 0) (x_register 0) (pos 0)

pub record Instruction : Type 0 where
  pub label : Option Text
  pub mnemonic : Mnemonic
  pub operands : Operands

pub data Line : Type 0 where
  just_label : Text → Line
  warps_directive : ℕ → Line
  blocks_directive : ℕ → Line
  instruction : Instruction → Line

pub record Program : Type 0 where
  pub blocks : ℕ
  pub warps : ℕ
  pub instructions : List Instruction
  pub label_mappings : List (Text × ℕ)

unfoldable pub is_itype_arithmetic : MnemonicName → Bool
unfolding name_eq
is_itype_arithmetic name =
    name_eq name Mnemonic.addi
    || name_eq name Mnemonic.slti
    || name_eq name Mnemonic.xori
    || name_eq name Mnemonic.ori
    || name_eq name Mnemonic.andi
    || name_eq name Mnemonic.slli
    || name_eq name Mnemonic.srli
    || name_eq name Mnemonic.srai
    || name_eq name Mnemonic.sx_slti

unfoldable pub is_rtype : MnemonicName → Bool
unfolding name_eq
is_rtype name =
    name_eq name Mnemonic.add
    || name_eq name Mnemonic.sub
    || name_eq name Mnemonic.sll
    || name_eq name Mnemonic.slt
    || name_eq name Mnemonic.xor
    || name_eq name Mnemonic.srl
    || name_eq name Mnemonic.sra
    || name_eq name Mnemonic.or
    || name_eq name Mnemonic.and
    || name_eq name Mnemonic.sx_slt

unfoldable pub is_load_type : MnemonicName → Bool
unfolding name_eq
is_load_type name = name_eq name Mnemonic.lb || name_eq name Mnemonic.lh || name_eq name Mnemonic.lw

unfoldable pub is_store_type : MnemonicName → Bool
unfolding name_eq
is_store_type name =
    name_eq name Mnemonic.sb || name_eq name Mnemonic.sh || name_eq name Mnemonic.sw

unfoldable pub is_utype : MnemonicName → Bool
unfolding name_eq
is_utype name = name_eq name Mnemonic.lui || name_eq name Mnemonic.auipc

-- `to_string` of an immediate or a label reference
unfoldable pub operand_to_string : ImmediateOrLabelref → Text
unfolding decimal_ℤ
operand_to_string (immediate value) = decimal_ℤ value
operand_to_string (label_ref name) = name

-- `offset(base)`
unfoldable pub address_to_str : ℤ → Register → Text
unfolding decimal_ℤ Register.to_str
address_to_str offset base = decimal_ℤ offset ++ (codes "(" ++ (Register.to_str base ++ codes ")"))

unfoldable pub operands_to_str : MnemonicName → Operands → Text
unfolding operand_to_string address_to_str is_load_type Register.to_str decimal_ℤ
operands_to_str name (itype rd rs1 imm) =
    if is_load_type name
    then Register.to_str rd ++ (codes ", " ++ address_to_str imm rs1)
    else Register.to_str rd
      ++ (codes ", " ++ (Register.to_str rs1 ++ (codes ", " ++ operand_to_string (immediate imm))))
operands_to_str name (rtype rd rs1 rs2) =
    Register.to_str rd
    ++ (codes ", " ++ (Register.to_str rs1 ++ (codes ", " ++ Register.to_str rs2)))
operands_to_str name (stype rs1 rs2 imm) =
    Register.to_str rs2 ++ (codes ", " ++ address_to_str imm rs1)
operands_to_str name (utype rd imm) = Register.to_str rd ++ (codes ", " ++ decimal_ℤ imm)
operands_to_str name (jtype rd imm) = Register.to_str rd ++ (codes ", " ++ decimal_ℤ imm)
operands_to_str name (jalr rd rs1 (label_ref target)) = Register.to_str rd ++ (codes ", " ++ target)
operands_to_str name (jalr rd rs1 (immediate offset)) =
    Register.to_str rd ++ (codes ", " ++ address_to_str offset rs1)

abbrev pub label_to_str : Option Text → Text
label_to_str none = []
label_to_str (some name) = name ++ codes ": "

-- `Instruction::to_str`
unfoldable pub instruction_to_str : Instruction → Text
unfolding operands_to_str Mnemonic.to_str
instruction_to_str i =
    label_to_str i.label
    ++ (Mnemonic.to_str i.mnemonic ++ (codes " " ++ operands_to_str i.mnemonic.name i.operands))

unfoldable pub line_to_str : Line → Text
unfolding instruction_to_str decimal
line_to_str (just_label name) = name ++ codes ":"
line_to_str (blocks_directive n) = codes ".blocks " ++ decimal n
line_to_str (warps_directive n) = codes ".warps " ++ decimal n
line_to_str (instruction i) = instruction_to_str i
