-- ===== src/Aslib/Emitter/Meaning/Signals.antt =====
-- The control signals that src/decoder.sv reads from the words of sim/aslib/emitter.cpp, with what the
-- emitter loses of an instruction; Intended has those that the instruction stands for.
use smol_gpu.Prelude.{ℕ, ◌*◌, ◌/◌, ◌%◌, ◌<◌, ◌≡◌, bit_or, Option, none, some}
use smol_gpu.Prelude.Int.{ℤ, pos, negsuc, to_u32}
use smol_gpu.Isa.Register.{Register, x_register}
use smol_gpu.Isa.Mnemonic
use smol_gpu.Isa.Mnemonic.{MnemonicName, Mnemonic, InstructionDeterminant, name_to_determinant}
use smol_gpu.Isa.Encode.Fields.{InRange}
use smol_gpu.Gpu.Decoder.{Control}
use smol_gpu.Aslib.Syntax.{Operands, itype, rtype, stype, utype, jtype, jalr, immediate, label_ref}
use smol_gpu.Aslib.Labels.{Labels, lookup}
use smol_gpu.Aslib.Emitter.Decoded.{alu_of, three_registers, register_immediate, emitted_alu, store}
use smol_gpu.Aslib.Emitter.Meaning.Classes.{
  load, load_upper, add_upper, jump, jump_register, compare_lanes, compare_lanes_immediate, halted,
}

-- An integer from 0 to below `b`.
abbrev pub Within : ℕ → ℤ → Type 0
Within b (pos n) = n < b
Within b (negsuc n) = ⊥

-- Registers below 32, immediates from 0 to the largest of their fields, and labels that are bound to
-- less than 4096.
abbrev pub InBounds : Labels → Operands → Type 0
InBounds labels (itype rd rs1 imm) = InRange rd × InRange rs1 × Within 4096 imm
InBounds labels (rtype rd rs1 rs2) = InRange rd × InRange rs1 × InRange rs2
InBounds labels (stype rs1 rs2 imm) = InRange rs1 × InRange rs2 × Within 4096 imm
InBounds labels (utype rd imm) = InRange rd × Within 1048576 imm
InBounds labels (jtype rd imm) = InRange rd × Within 2097152 imm
InBounds labels (jalr rd rs1 (immediate offset)) = InRange rd × InRange rs1 × Within 4096 offset
InBounds labels (jalr rd rs1 (label_ref name)) =
    InRange rd × ((k : ℕ) × (lookup name labels ≡ some k) × (k < 4096))

abbrev pub itype_signals : MnemonicName → Register → Register → ℕ → Control
itype_signals Mnemonic.lb rd rs1 imm = load rd rs1 imm
itype_signals Mnemonic.lh rd rs1 imm = load rd rs1 imm
itype_signals Mnemonic.lw rd rs1 imm = load rd rs1 imm
itype_signals Mnemonic.sx_slti rd rs1 imm = compare_lanes_immediate rd rs1 imm
itype_signals Mnemonic.halt rd rs1 imm = halted
itype_signals n rd rs1 imm = register_immediate (emitted_alu n imm) rd rs1 imm

abbrev pub rtype_signals : MnemonicName → Register → Register → Register → Control
rtype_signals Mnemonic.sx_slt rd rs1 rs2 = compare_lanes rd rs1 rs2
rtype_signals n rd rs1 rs2 = three_registers (alu_of n) rd rs1 rs2

abbrev pub utype_signals : MnemonicName → Register → ℕ → Control
utype_signals Mnemonic.auipc rd imm = add_upper rd imm
utype_signals n rd imm = load_upper rd imm

abbrev pub target : Option ℕ → ℕ
target none = 0
target (some k) = k

-- The control signals that come of an instruction, not in each case those that it stands for: the
-- prefix has no effect, the offset of a jump loses its lowest bit, that of a store its low five, which
-- go into the register, and the immediate of a right shift chooses its operation (`emitted_alu`).
abbrev pub emitted_signals : Labels → MnemonicName → Operands → Control
emitted_signals labels n (itype rd rs1 imm) = itype_signals n rd rs1 (to_u32 imm)
emitted_signals labels n (rtype rd rs1 rs2) = rtype_signals n rd rs1 rs2
emitted_signals labels n (stype rs1 rs2 imm) =
    store rs1.register_number (bit_or rs2.register_number (to_u32 imm % 32)) (to_u32 imm / 32 * 32)
emitted_signals labels n (utype rd imm) = utype_signals n rd (to_u32 imm)
emitted_signals labels n (jtype rd imm) = jump rd (to_u32 imm / 2 * 2)
emitted_signals labels n (jalr rd rs1 (immediate offset)) = jump_register rd rs1 (to_u32 offset)
emitted_signals labels n (jalr rd rs1 (label_ref name)) =
    jump_register rd (x_register 0) (target (lookup name labels))
