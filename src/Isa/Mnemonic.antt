-- ===== src/Isa/Mnemonic.antt =====
-- `MnemonicName` and `Mnemonic` of sim/simlib/instructions.hpp: the names of the instructions, their
-- texts, and the opcode, funct3 and funct7 of each.
use mathlib.Core.Option
pub mod Names
pub mod Tables
use smol_gpu.Prelude.{
  ℕ, ◌^◌, Bool, true, false, ◌&&◌, ◌||◌, Option, none, some, List, [], ◌∷◌, ◌++◌, ◌==◌,
  if◌then◌else◌, bool_eq, Text, codes, equal, bit_or,
}
use smol_gpu.Isa.Opcode.{Opcode, opcode_bits, starts_with_s, drop_two}
use smol_gpu.Isa.Funct3
use smol_gpu.Isa.Funct7

pub data MnemonicName : Type 0 where
  -- U-type, I-type arithmetic
  lui auipc addi slti xori ori andi slli srli srai : MnemonicName
  -- R-type
  add sub sll slt xor srl sra or and : MnemonicName
  -- load, store
  lb lh lw sb sh sw : MnemonicName
  -- jumps and branches
  jal jalr beq bne blt bge : MnemonicName
  -- halt, SX-type
  halt sx_slt sx_slti : MnemonicName

-- The value of the enumerator, by which `==` compares.
unfoldable pub index : MnemonicName → ℕ
index lui = 0
index auipc = 1
index addi = 2
index slti = 3
index xori = 4
index ori = 5
index andi = 6
index slli = 7
index srli = 8
index srai = 9
index add = 10
index sub = 11
index sll = 12
index slt = 13
index xor = 14
index srl = 15
index sra = 16
index or = 17
index and = 18
index lb = 19
index lh = 20
index lw = 21
index sb = 22
index sh = 23
index sw = 24
index jal = 25
index jalr = 26
index beq = 27
index bne = 28
index blt = 29
index bge = 30
index halt = 31
index sx_slt = 32
index sx_slti = 33

unfoldable pub name_eq : MnemonicName → MnemonicName → Bool
unfolding index
name_eq a b = index a == index b

unfoldable pub str_to_mnemonic_name : Text → Option MnemonicName
unfolding equal
str_to_mnemonic_name name =
    if equal name (codes "lui")
    then some lui
    else if equal name (codes "auipc")
    then some auipc
    else if equal name (codes "addi")
    then some addi
    else if equal name (codes "slti")
    then some slti
    else if equal name (codes "xori")
    then some xori
    else if equal name (codes "ori")
    then some ori
    else if equal name (codes "andi")
    then some andi
    else if equal name (codes "slli")
    then some slli
    else if equal name (codes "srli")
    then some srli
    else if equal name (codes "srai")
    then some srai
    else if equal name (codes "add")
    then some add
    else if equal name (codes "sub")
    then some sub
    else if equal name (codes "sll")
    then some sll
    else if equal name (codes "slt")
    then some slt
    else if equal name (codes "xor")
    then some xor
    else if equal name (codes "srl")
    then some srl
    else if equal name (codes "sra")
    then some sra
    else if equal name (codes "or")
    then some or
    else if equal name (codes "and")
    then some and
    else if equal name (codes "lb")
    then some lb
    else if equal name (codes "lh")
    then some lh
    else if equal name (codes "lw")
    then some lw
    else if equal name (codes "sb")
    then some sb
    else if equal name (codes "sh")
    then some sh
    else if equal name (codes "sw")
    then some sw
    else if equal name (codes "jal")
    then some jal
    else if equal name (codes "jalr")
    then some jalr
    else if equal name (codes "beq")
    then some beq
    else if equal name (codes "bne")
    then some bne
    else if equal name (codes "blt")
    then some blt
    else if equal name (codes "bge")
    then some bge
    else if equal name (codes "halt")
    then some halt
    else if equal name (codes "sx.slt")
    then some sx_slt
    else if equal name (codes "sx.slti")
    then some sx_slti
    else none

unfoldable pub to_string : MnemonicName → Text
to_string lui = codes "lui"
to_string auipc = codes "auipc"
to_string addi = codes "addi"
to_string slti = codes "slti"
to_string xori = codes "xori"
to_string ori = codes "ori"
to_string andi = codes "andi"
to_string slli = codes "slli"
to_string srli = codes "srli"
to_string srai = codes "srai"
to_string add = codes "add"
to_string sub = codes "sub"
to_string sll = codes "sll"
to_string slt = codes "slt"
to_string xor = codes "xor"
to_string srl = codes "srl"
to_string sra = codes "sra"
to_string or = codes "or"
to_string and = codes "and"
to_string lb = codes "lb"
to_string lh = codes "lh"
to_string lw = codes "lw"
to_string sb = codes "sb"
to_string sh = codes "sh"
to_string sw = codes "sw"
to_string jal = codes "jal"
to_string jalr = codes "jalr"
to_string beq = codes "beq"
to_string bne = codes "bne"
to_string blt = codes "blt"
to_string bge = codes "bge"
to_string halt = codes "halt"
to_string sx_slt = codes "sx.slt"
to_string sx_slti = codes "sx.slti"

unfoldable pub mnemonic_name_to_opcode : MnemonicName → Opcode
mnemonic_name_to_opcode lui = Opcode.lui
mnemonic_name_to_opcode auipc = Opcode.auipc
mnemonic_name_to_opcode addi = Opcode.itype
mnemonic_name_to_opcode slti = Opcode.itype
mnemonic_name_to_opcode xori = Opcode.itype
mnemonic_name_to_opcode ori = Opcode.itype
mnemonic_name_to_opcode andi = Opcode.itype
mnemonic_name_to_opcode slli = Opcode.itype
mnemonic_name_to_opcode srli = Opcode.itype
mnemonic_name_to_opcode srai = Opcode.itype
mnemonic_name_to_opcode add = Opcode.rtype
mnemonic_name_to_opcode sub = Opcode.rtype
mnemonic_name_to_opcode sll = Opcode.rtype
mnemonic_name_to_opcode slt = Opcode.rtype
mnemonic_name_to_opcode xor = Opcode.rtype
mnemonic_name_to_opcode srl = Opcode.rtype
mnemonic_name_to_opcode sra = Opcode.rtype
mnemonic_name_to_opcode or = Opcode.rtype
mnemonic_name_to_opcode and = Opcode.rtype
mnemonic_name_to_opcode lb = Opcode.load
mnemonic_name_to_opcode lh = Opcode.load
mnemonic_name_to_opcode lw = Opcode.load
mnemonic_name_to_opcode sb = Opcode.stype
mnemonic_name_to_opcode sh = Opcode.stype
mnemonic_name_to_opcode sw = Opcode.stype
mnemonic_name_to_opcode jal = Opcode.jtype
mnemonic_name_to_opcode jalr = Opcode.jalr
mnemonic_name_to_opcode beq = Opcode.btype
mnemonic_name_to_opcode bne = Opcode.btype
mnemonic_name_to_opcode blt = Opcode.btype
mnemonic_name_to_opcode bge = Opcode.btype
mnemonic_name_to_opcode halt = Opcode.halt
mnemonic_name_to_opcode sx_slt = Opcode.sx_slt
mnemonic_name_to_opcode sx_slti = Opcode.sx_slti

pub record InstructionDeterminant : Type 0 where
  pub opcode : Opcode
  pub funct3 : ℕ
  pub funct7 : ℕ

-- `{}` in place of a funct is the enumerator of value 0.
unfoldable pub name_to_determinant : MnemonicName → InstructionDeterminant
name_to_determinant lui = record { opcode = Opcode.lui; funct3 = 0; funct7 = 0 }
name_to_determinant auipc = record { opcode = Opcode.auipc; funct3 = 0; funct7 = 0 }
name_to_determinant addi = record { opcode = Opcode.itype; funct3 = Funct3.addi; funct7 = 0 }
name_to_determinant slti = record { opcode = Opcode.itype; funct3 = Funct3.slti; funct7 = 0 }
name_to_determinant xori = record { opcode = Opcode.itype; funct3 = Funct3.xori; funct7 = 0 }
name_to_determinant ori = record { opcode = Opcode.itype; funct3 = Funct3.ori; funct7 = 0 }
name_to_determinant andi = record { opcode = Opcode.itype; funct3 = Funct3.andi; funct7 = 0 }
name_to_determinant slli = record {
  opcode = Opcode.itype;
  funct3 = Funct3.slli;
  funct7 = Funct7.slli;
}
name_to_determinant srli = record {
  opcode = Opcode.itype;
  funct3 = Funct3.srli;
  funct7 = Funct7.srli;
}
name_to_determinant srai = record {
  opcode = Opcode.itype;
  funct3 = Funct3.srai;
  funct7 = Funct7.srai;
}
name_to_determinant add = record { opcode = Opcode.rtype; funct3 = Funct3.add; funct7 = Funct7.add }
name_to_determinant sub = record { opcode = Opcode.rtype; funct3 = Funct3.sub; funct7 = Funct7.sub }
name_to_determinant sll = record { opcode = Opcode.rtype; funct3 = Funct3.sll; funct7 = Funct7.sll }
name_to_determinant slt = record { opcode = Opcode.rtype; funct3 = Funct3.slt; funct7 = Funct7.slt }
name_to_determinant xor = record { opcode = Opcode.rtype; funct3 = Funct3.xor; funct7 = Funct7.xor }
name_to_determinant srl = record { opcode = Opcode.rtype; funct3 = Funct3.srl; funct7 = Funct7.srl }
name_to_determinant sra = record { opcode = Opcode.rtype; funct3 = Funct3.sra; funct7 = Funct7.sra }
name_to_determinant or = record { opcode = Opcode.rtype; funct3 = Funct3.or; funct7 = Funct7.or }
name_to_determinant and = record { opcode = Opcode.rtype; funct3 = Funct3.and; funct7 = Funct7.and }
name_to_determinant lb = record { opcode = Opcode.load; funct3 = Funct3.lb; funct7 = 0 }
name_to_determinant lh = record { opcode = Opcode.load; funct3 = Funct3.lh; funct7 = 0 }
name_to_determinant lw = record { opcode = Opcode.load; funct3 = Funct3.lw; funct7 = 0 }
name_to_determinant sb = record { opcode = Opcode.stype; funct3 = Funct3.sb; funct7 = 0 }
name_to_determinant sh = record { opcode = Opcode.stype; funct3 = Funct3.sh; funct7 = 0 }
name_to_determinant sw = record { opcode = Opcode.stype; funct3 = Funct3.sw; funct7 = 0 }
name_to_determinant jal = record { opcode = Opcode.jtype; funct3 = 0; funct7 = 0 }
name_to_determinant jalr = record { opcode = Opcode.jalr; funct3 = Funct3.jalr; funct7 = 0 }
name_to_determinant beq = record { opcode = Opcode.btype; funct3 = Funct3.beq; funct7 = 0 }
name_to_determinant bne = record { opcode = Opcode.btype; funct3 = Funct3.bne; funct7 = 0 }
name_to_determinant blt = record { opcode = Opcode.btype; funct3 = Funct3.blt; funct7 = 0 }
name_to_determinant bge = record { opcode = Opcode.btype; funct3 = Funct3.bge; funct7 = 0 }
name_to_determinant halt = record { opcode = Opcode.halt; funct3 = 0; funct7 = 0 }
name_to_determinant sx_slt = record {
  opcode = Opcode.sx_slt;
  funct3 = Funct3.slt;
  funct7 = Funct7.slt;
}
name_to_determinant sx_slti = record { opcode = Opcode.sx_slti; funct3 = Funct3.slti; funct7 = 0 }

pub record Mnemonic : Type 0 where
  pub name : MnemonicName
  pub has_s_prefix : Bool

abbrev pub get_name : Mnemonic → MnemonicName
get_name m = m.name

unfoldable pub to_str : Mnemonic → Text
unfolding to_string
to_str m = (if m.has_s_prefix then codes "s." else []) ++ to_string m.name

unfoldable pub to_opcode : Mnemonic → ℕ
unfolding mnemonic_name_to_opcode opcode_bits
to_opcode m =
    let opcode = opcode_bits (mnemonic_name_to_opcode m.name) in
    if m.has_s_prefix then bit_or opcode (2 ^ 6) else opcode

unfoldable pub is_vector_scalar : MnemonicName → Bool
unfolding name_eq
is_vector_scalar name = name_eq name sx_slt || name_eq name sx_slti

unfoldable pub is_branch : MnemonicName → Bool
unfolding name_eq
is_branch name = name_eq name beq || name_eq name bne || name_eq name blt || name_eq name bge

unfoldable pub is_jump : MnemonicName → Bool
unfolding name_eq
is_jump name = name_eq name jal || name_eq name jalr

unfoldable pub is_scalar : Mnemonic → Bool
unfolding is_vector_scalar is_branch is_jump
is_scalar m = m.has_s_prefix || is_vector_scalar m.name || is_branch m.name || is_jump m.name

-- `operator==`: the scalar class is compared, not the prefix.
unfoldable pub mnemonic_eq : Mnemonic → Mnemonic → Bool
unfolding name_eq is_scalar
mnemonic_eq a b = name_eq a.name b.name && bool_eq (is_scalar a) (is_scalar b)

unfoldable pub str_to_mnemonic : Text → Option Mnemonic
unfolding str_to_mnemonic_name starts_with_s drop_two
str_to_mnemonic str =
    let scalar = starts_with_s str in
    let rest = if scalar then drop_two str else str in
    Option.map (λ name. record { name = name; has_s_prefix = scalar }) (str_to_mnemonic_name rest)
