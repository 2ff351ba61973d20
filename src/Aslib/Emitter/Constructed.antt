-- ===== src/Aslib/Emitter/Constructed.antt =====
-- The emitter and the constructors of `sim::instructions`, which the tests use: two ways to a word.
use smol_gpu.Prelude.{◌≡◌, refl, Bool, none}
use smol_gpu.Prelude.Checked.{Checked}
use smol_gpu.Prelude.Int.{to_u32}
use smol_gpu.Isa.Mnemonic
use smol_gpu.Isa.Mnemonic.{MnemonicName, name_to_determinant}
use smol_gpu.Isa.Encode.{InstructionBits}
use smol_gpu.Isa.Instructions
use smol_gpu.Aslib.Syntax.{Operands, Instruction, itype, rtype, stype, utype, jtype}
use smol_gpu.Aslib.Labels.{Labels}
use smol_gpu.Aslib.Parser.Format.{format, OperandsFit, IsWellFormed}
use smol_gpu.Aslib.Emitter.{emit, emit_operands}

-- The word of the constructor with the mnemonic's name.
abbrev pub constructed : MnemonicName → Operands → Checked InstructionBits
constructed Mnemonic.lui (utype rd imm) = Instructions.lui rd (to_u32 imm)
constructed Mnemonic.auipc (utype rd imm) = Instructions.auipc rd (to_u32 imm)
constructed Mnemonic.addi (itype rd rs1 imm) = Instructions.addi rd rs1 (to_u32 imm)
constructed Mnemonic.slti (itype rd rs1 imm) = Instructions.slti rd rs1 (to_u32 imm)
constructed Mnemonic.xori (itype rd rs1 imm) = Instructions.xori rd rs1 (to_u32 imm)
constructed Mnemonic.ori (itype rd rs1 imm) = Instructions.ori rd rs1 (to_u32 imm)
constructed Mnemonic.andi (itype rd rs1 imm) = Instructions.andi rd rs1 (to_u32 imm)
constructed Mnemonic.sx_slti (itype rd rs1 imm) = Instructions.sx_slti rd rs1 (to_u32 imm)
constructed Mnemonic.lb (itype rd rs1 imm) = Instructions.lb rd rs1 (to_u32 imm)
constructed Mnemonic.lh (itype rd rs1 imm) = Instructions.lh rd rs1 (to_u32 imm)
constructed Mnemonic.lw (itype rd rs1 imm) = Instructions.lw rd rs1 (to_u32 imm)
constructed Mnemonic.add (rtype rd rs1 rs2) = Instructions.add rd rs1 rs2
constructed Mnemonic.sub (rtype rd rs1 rs2) = Instructions.sub rd rs1 rs2
constructed Mnemonic.sll (rtype rd rs1 rs2) = Instructions.sll rd rs1 rs2
constructed Mnemonic.slt (rtype rd rs1 rs2) = Instructions.slt rd rs1 rs2
constructed Mnemonic.xor (rtype rd rs1 rs2) = Instructions.xor_ rd rs1 rs2
constructed Mnemonic.srl (rtype rd rs1 rs2) = Instructions.srl rd rs1 rs2
constructed Mnemonic.sra (rtype rd rs1 rs2) = Instructions.sra rd rs1 rs2
constructed Mnemonic.or (rtype rd rs1 rs2) = Instructions.or_ rd rs1 rs2
constructed Mnemonic.and (rtype rd rs1 rs2) = Instructions.and_ rd rs1 rs2
constructed Mnemonic.sx_slt (rtype rd rs1 rs2) = Instructions.sx_slt rd rs1 rs2
constructed Mnemonic.sb (stype rs1 rs2 imm) = Instructions.sb rs1 rs2 (to_u32 imm)
constructed Mnemonic.sh (stype rs1 rs2 imm) = Instructions.sh rs1 rs2 (to_u32 imm)
constructed Mnemonic.sw (stype rs1 rs2 imm) = Instructions.sw rs1 rs2 (to_u32 imm)
constructed Mnemonic.jal (jtype rd imm) = Instructions.jal rd (to_u32 imm)
constructed Mnemonic.halt o = Instructions.halt
constructed n o = none

-- The mnemonics whose words the emitter makes of their operands alone, without the immediate shifts, in
-- which the constructors set a funct7.
abbrev pub IsDirect : MnemonicName → Type 0
IsDirect Mnemonic.slli = ⊥
IsDirect Mnemonic.srli = ⊥
IsDirect Mnemonic.srai = ⊥
IsDirect Mnemonic.jalr = ⊥
IsDirect _ = Unit

emit_operands-constructed :
    (labels : Labels) (n : MnemonicName) (dest source : Bool) (o : Operands)
    → OperandsFit (format n) dest source o
    → IsDirect n
    → emit_operands labels (name_to_determinant n) o ≡ constructed n o
unfolding emit_operands name_to_determinant Instructions.lui Instructions.auipc Instructions.addi
    Instructions.slti Instructions.xori Instructions.ori Instructions.andi Instructions.sx_slti
    Instructions.lb Instructions.lh Instructions.lw Instructions.add Instructions.sub
    Instructions.sll Instructions.slt Instructions.xor_ Instructions.srl Instructions.sra
    Instructions.or_ Instructions.and_ Instructions.sx_slt Instructions.sb Instructions.sh
    Instructions.sw Instructions.jal Instructions.halt
emit_operands-constructed labels Mnemonic.slli dest source o fit direct = absurd direct
emit_operands-constructed labels Mnemonic.srli dest source o fit direct = absurd direct
emit_operands-constructed labels Mnemonic.srai dest source o fit direct = absurd direct
emit_operands-constructed labels Mnemonic.jalr dest source o fit direct = absurd direct
emit_operands-constructed labels Mnemonic.halt dest source o fit direct = rw fit refl
emit_operands-constructed labels Mnemonic.lui dest source (utype rd imm) fit direct = refl
emit_operands-constructed labels Mnemonic.auipc dest source (utype rd imm) fit direct = refl
emit_operands-constructed labels Mnemonic.addi dest source (itype rd rs1 imm) fit direct = refl
emit_operands-constructed labels Mnemonic.slti dest source (itype rd rs1 imm) fit direct = refl
emit_operands-constructed labels Mnemonic.xori dest source (itype rd rs1 imm) fit direct = refl
emit_operands-constructed labels Mnemonic.ori dest source (itype rd rs1 imm) fit direct = refl
emit_operands-constructed labels Mnemonic.andi dest source (itype rd rs1 imm) fit direct = refl
emit_operands-constructed labels Mnemonic.sx_slti dest source (itype rd rs1 imm) fit direct = refl
emit_operands-constructed labels Mnemonic.lb dest source (itype rd rs1 imm) fit direct = refl
emit_operands-constructed labels Mnemonic.lh dest source (itype rd rs1 imm) fit direct = refl
emit_operands-constructed labels Mnemonic.lw dest source (itype rd rs1 imm) fit direct = refl
emit_operands-constructed labels Mnemonic.add dest source (rtype rd rs1 rs2) fit direct = refl
emit_operands-constructed labels Mnemonic.sub dest source (rtype rd rs1 rs2) fit direct = refl
emit_operands-constructed labels Mnemonic.sll dest source (rtype rd rs1 rs2) fit direct = refl
emit_operands-constructed labels Mnemonic.slt dest source (rtype rd rs1 rs2) fit direct = refl
emit_operands-constructed labels Mnemonic.xor dest source (rtype rd rs1 rs2) fit direct = refl
emit_operands-constructed labels Mnemonic.srl dest source (rtype rd rs1 rs2) fit direct = refl
emit_operands-constructed labels Mnemonic.sra dest source (rtype rd rs1 rs2) fit direct = refl
emit_operands-constructed labels Mnemonic.or dest source (rtype rd rs1 rs2) fit direct = refl
emit_operands-constructed labels Mnemonic.and dest source (rtype rd rs1 rs2) fit direct = refl
emit_operands-constructed labels Mnemonic.sx_slt dest source (rtype rd rs1 rs2) fit direct = refl
emit_operands-constructed labels Mnemonic.sb dest source (stype rs1 rs2 imm) fit direct = refl
emit_operands-constructed labels Mnemonic.sh dest source (stype rs1 rs2 imm) fit direct = refl
emit_operands-constructed labels Mnemonic.sw dest source (stype rs1 rs2 imm) fit direct = refl
emit_operands-constructed labels Mnemonic.jal dest source (jtype rd imm) fit direct = refl
emit_operands-constructed labels _ dest source _ fit direct = absurd fit

-- The emitter and the constructor with the name of the mnemonic make the same word of a well-formed
-- instruction, or both end in an assertion, but for the immediate shifts and `jalr`, which takes labels.
pub emit-constructed :
    (labels : Labels) (i : Instruction)
    → IsWellFormed i
    → IsDirect i.mnemonic.name
    → emit labels i ≡ constructed i.mnemonic.name i.operands
unfolding emit
emit-constructed labels i formed direct =
    emit_operands-constructed labels i.mnemonic.name _ _ i.operands formed.fits direct
