-- ===== src/Aslib/Parser/Format.antt =====
-- The operands that the assembly's syntax gives each mnemonic: a description of what `Parser` checks.
use smol_gpu.Prelude.{Bool, ◌≡◌, ◌&&◌, not}
use smol_gpu.Isa.Register
use smol_gpu.Isa.Register.{Register, x_register}
use smol_gpu.Isa.Mnemonic
use smol_gpu.Isa.Mnemonic.{MnemonicName, Mnemonic}
use smol_gpu.Aslib.Syntax.{
  Operands, no_operands, Instruction, itype, rtype, stype, utype, jtype, jalr, immediate, label_ref,
}

-- The shapes of the syntax. `branch` stands for the mnemonics that the parser does not know.
pub data Format : Type 0 where
  bare register_immediate three_registers load store upper jump jump_register branch : Format

abbrev pub format : MnemonicName → Format
format Mnemonic.lui = upper
format Mnemonic.auipc = upper
format Mnemonic.addi = register_immediate
format Mnemonic.slti = register_immediate
format Mnemonic.xori = register_immediate
format Mnemonic.ori = register_immediate
format Mnemonic.andi = register_immediate
format Mnemonic.slli = register_immediate
format Mnemonic.srli = register_immediate
format Mnemonic.srai = register_immediate
format Mnemonic.add = three_registers
format Mnemonic.sub = three_registers
format Mnemonic.sll = three_registers
format Mnemonic.slt = three_registers
format Mnemonic.xor = three_registers
format Mnemonic.srl = three_registers
format Mnemonic.sra = three_registers
format Mnemonic.or = three_registers
format Mnemonic.and = three_registers
format Mnemonic.lb = load
format Mnemonic.lh = load
format Mnemonic.lw = load
format Mnemonic.sb = store
format Mnemonic.sh = store
format Mnemonic.sw = store
format Mnemonic.jal = jump
format Mnemonic.jalr = jump_register
format Mnemonic.beq = branch
format Mnemonic.bne = branch
format Mnemonic.blt = branch
format Mnemonic.bge = branch
format Mnemonic.halt = bare
format Mnemonic.sx_slt = three_registers
format Mnemonic.sx_slti = register_immediate

-- Whether the source registers are scalar: those of a vector-scalar instruction are vector registers.
abbrev pub scalar_sources : Mnemonic → Bool
scalar_sources m = Mnemonic.is_scalar m && not (Mnemonic.is_vector_scalar m.name)

abbrev pub HasClass : Register → Bool → Type 0
HasClass r scalar = Register.is_scalar r ≡ scalar

-- `dest` and `source` say whether the destination and the sources are scalar.
abbrev pub OperandsFit : Format → Bool → Bool → Operands → Type 0
OperandsFit bare dest source o = o ≡ no_operands
OperandsFit register_immediate dest source (itype rd rs1 imm) =
    HasClass rd dest × HasClass rs1 source
OperandsFit three_registers dest source (rtype rd rs1 rs2) =
    HasClass rd dest × HasClass rs1 source × HasClass rs2 source
OperandsFit load dest source (itype rd rs1 imm) = HasClass rd dest × HasClass rs1 dest
OperandsFit store dest source (stype rs1 rs2 imm) = HasClass rs1 dest × HasClass rs2 dest
OperandsFit upper dest source (utype rd imm) = HasClass rd dest
OperandsFit jump dest source (jtype rd imm) = Unit
OperandsFit jump_register dest source (jalr rd rs1 (immediate offset)) = Unit
OperandsFit jump_register dest source (jalr rd rs1 (label_ref name)) = rs1 ≡ x_register 0
OperandsFit _ dest source o = ⊥

-- The operands of `i` are those of its mnemonic, in registers of the right class.
pub record IsWellFormed (i : Instruction) : Type 0 where
  pub fits :
      OperandsFit
        (format i.mnemonic.name)
        (Mnemonic.is_scalar i.mnemonic)
        (scalar_sources i.mnemonic)
        i.operands
