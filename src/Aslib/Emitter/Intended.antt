-- ===== src/Aslib/Emitter/Intended.antt =====
-- The control signals that an instruction stands for by README.md, and when the words of
-- sim/aslib/emitter.cpp have them.
use smol_gpu.Prelude.{ℕ, ◌*◌, ◌/◌, ◌%◌, ◌<◌, ◌≡◌, refl, ◌∙◌, Bool, true, false, some, arith}
use smol_gpu.Prelude.Word.{bit_or-zero}
use smol_gpu.Prelude.Int.{to_u32}
use smol_gpu.Isa.Register.{Register, x_register}
use smol_gpu.Isa.Mnemonic
use smol_gpu.Isa.Mnemonic.{MnemonicName, Mnemonic}
use smol_gpu.Isa.Encode.{InstructionBits}
use smol_gpu.Gpu.Decoder.{Control, decode, sign_extend, sign_extend_21, itype_alu}
use smol_gpu.Aslib.Syntax.{
  Operands, Instruction, itype, rtype, stype, utype, jtype, jalr, immediate, label_ref,
}
use smol_gpu.Aslib.Labels.{Labels, lookup}
use smol_gpu.Aslib.Parser.Format.{IsWellFormed}
use smol_gpu.Aslib.Emitter.{emit}
use smol_gpu.Aslib.Emitter.Decoded.{alu_of, three_registers, register_immediate, store}
use smol_gpu.Aslib.Emitter.Meaning.{emit-emitted_signals}
use smol_gpu.Aslib.Emitter.Meaning.Classes.{
  load, load_upper, add_upper, jump, jump_register, compare_lanes, compare_lanes_immediate, halted,
}
use smol_gpu.Aslib.Emitter.Meaning.Signals.{
  InBounds, itype_signals, rtype_signals, utype_signals, target, emitted_signals,
}

-- The immediate is the 32-bit value that is written, whatever field it goes through.
abbrev pub with_value : ℕ → Control → Control
with_value v c = record c { immediate = v }

abbrev pub intended_itype : MnemonicName → Register → Register → ℕ → Control
intended_itype Mnemonic.lb rd rs1 v = with_value v (load rd rs1 0)
intended_itype Mnemonic.lh rd rs1 v = with_value v (load rd rs1 0)
intended_itype Mnemonic.lw rd rs1 v = with_value v (load rd rs1 0)
intended_itype Mnemonic.sx_slti rd rs1 v = with_value v (compare_lanes_immediate rd rs1 0)
intended_itype Mnemonic.halt rd rs1 v = halted
intended_itype n rd rs1 v = with_value v (register_immediate (alu_of n) rd rs1 0)

abbrev pub intended_rtype : MnemonicName → Register → Register → Register → Control
intended_rtype Mnemonic.sx_slt rd rs1 rs2 = compare_lanes rd rs1 rs2
intended_rtype n rd rs1 rs2 = three_registers (alu_of n) rd rs1 rs2

abbrev pub intended_utype : MnemonicName → Register → ℕ → Control
intended_utype Mnemonic.auipc rd v = add_upper rd v
intended_utype n rd v = load_upper rd v

abbrev pub intended_vector : Labels → MnemonicName → Operands → Control
intended_vector labels n (itype rd rs1 imm) = intended_itype n rd rs1 (to_u32 imm)
intended_vector labels n (rtype rd rs1 rs2) = intended_rtype n rd rs1 rs2
intended_vector labels n (stype rs1 rs2 imm) =
    with_value (to_u32 imm) (store rs1.register_number rs2.register_number 0)
intended_vector labels n (utype rd imm) = intended_utype n rd (to_u32 imm)
intended_vector labels n (jtype rd imm) = with_value (to_u32 imm) (jump rd 0)
intended_vector labels n (jalr rd rs1 (immediate offset)) =
    with_value (to_u32 offset) (jump_register rd rs1 0)
intended_vector labels n (jalr rd rs1 (label_ref name)) =
    with_value (target (lookup name labels)) (jump_register rd (x_register 0) 0)

abbrev as_scalar : Bool → Control → Control
as_scalar true c = record c { scalar_instruction = true }
as_scalar false c = c

-- The control signals of src/decoder.sv for an instruction as it is written: the operation of its
-- mnemonic, its registers and its immediate, on the scalar registers behind the prefix `s.`. They have one
-- load and one store for all widths.
abbrev pub intended : Labels → Mnemonic → Operands → Control
intended labels m o = as_scalar m.has_s_prefix (intended_vector labels m.name o)

-- SRAI is never encoded, SRLI with an amount below 32 is.
abbrev pub KeepsShift : MnemonicName → ℕ → Type 0
KeepsShift Mnemonic.srli v = v < 32
KeepsShift Mnemonic.srai v = ⊥
KeepsShift n v = Unit

abbrev pub IsUpper : MnemonicName → Type 0
IsUpper Mnemonic.auipc = ⊥
IsUpper n = Unit

-- What the words keep of an instruction without the prefix: immediates and labels below the sign bit of
-- their field, the offset of a store a multiple of 32, that of a jump even, no SRAI, and no AUIPC, for which
-- the arithmetic unit has no operation.
abbrev pub KeepsOperands : Labels → MnemonicName → Operands → Type 0
KeepsOperands labels n (itype rd rs1 imm) = (to_u32 imm < 2048) × KeepsShift n (to_u32 imm)
KeepsOperands labels n (rtype rd rs1 rs2) = Unit
KeepsOperands labels n (stype rs1 rs2 imm) = (to_u32 imm < 2048) × (to_u32 imm % 32 ≡ 0)
KeepsOperands labels n (utype rd imm) = IsUpper n
KeepsOperands labels n (jtype rd imm) = (to_u32 imm < 1048576) × (to_u32 imm % 2 ≡ 0)
KeepsOperands labels n (jalr rd rs1 (immediate offset)) = to_u32 offset < 2048
KeepsOperands labels n (jalr rd rs1 (label_ref name)) = target (lookup name labels) < 2048

abbrev pub IsKept : Labels → Mnemonic → Operands → Type 0
IsKept labels m o = (m.has_s_prefix ≡ false) × KeepsOperands labels m.name o

sign_extend-low : (v : ℕ) → v < 2048 → sign_extend v ≡ v
unfolding sign_extend
sign_extend-low v h = ground (arith, h)

sign_extend_21-low : (v : ℕ) → v < 1048576 → sign_extend_21 v ≡ v
unfolding sign_extend_21
sign_extend_21-low v h = ground (arith, h)

itype_alu-srli : (v : ℕ) → v < 32 → itype_alu 0b101 (v / 32) ≡ alu_of Mnemonic.srli
unfolding itype_alu
itype_alu-srli v h = let zero_is : v / 32 ≡ 0 = omega (arith, h) in rw zero_is refl

itype_signals-intended :
    (n : MnemonicName) (rd rs1 : Register) (v : ℕ)
    → v < 2048
    → KeepsShift n v
    → itype_signals n rd rs1 v ≡ intended_itype n rd rs1 v
itype_signals-intended Mnemonic.srai rd rs1 v low shift = absurd shift
itype_signals-intended Mnemonic.srli rd rs1 v low shift =
    rw (sign_extend-low v low, itype_alu-srli v shift) refl
itype_signals-intended Mnemonic.halt rd rs1 v low shift = refl
itype_signals-intended _ rd rs1 v low shift = rw (sign_extend-low v low) refl

rtype_signals-intended :
    (n : MnemonicName) (rd rs1 rs2 : Register)
    → rtype_signals n rd rs1 rs2 ≡ intended_rtype n rd rs1 rs2
rtype_signals-intended Mnemonic.sx_slt rd rs1 rs2 = refl
rtype_signals-intended _ rd rs1 rs2 = refl

utype_signals-intended :
    (n : MnemonicName) (rd : Register) (v : ℕ)
    → IsUpper n
    → utype_signals n rd v ≡ intended_utype n rd v
utype_signals-intended Mnemonic.auipc rd v h = absurd h
utype_signals-intended _ rd v h = refl

operands-intended :
    (labels : Labels) (n : MnemonicName) (o : Operands)
    → KeepsOperands labels n o
    → emitted_signals labels n o ≡ intended_vector labels n o
operands-intended labels n (itype rd rs1 imm) (low, shift) =
    itype_signals-intended n rd rs1 (to_u32 imm) low shift
operands-intended labels n (rtype rd rs1 rs2) h = rtype_signals-intended n rd rs1 rs2
operands-intended labels n (stype rs1 rs2 imm) (low, even) =
    let whole : to_u32 imm / 32 * 32 ≡ to_u32 imm = omega (arith, even) in
    rw (whole, sign_extend-low (to_u32 imm) low, even, bit_or-zero rs2.register_number) refl
operands-intended labels n (utype rd imm) h = utype_signals-intended n rd (to_u32 imm) h
operands-intended labels n (jtype rd imm) (low, even) =
    let whole : to_u32 imm / 2 * 2 ≡ to_u32 imm = omega (arith, even) in
    rw (whole, sign_extend_21-low (to_u32 imm) low) refl
operands-intended labels n (jalr rd rs1 (immediate offset)) low =
    rw (sign_extend-low (to_u32 offset) low) refl
operands-intended labels n (jalr rd rs1 (label_ref name)) low =
    rw (sign_extend-low (target (lookup name labels)) low) refl

pub emitted_signals-intended :
    (labels : Labels) (m : Mnemonic) (o : Operands)
    → IsKept labels m o
    → emitted_signals labels m.name o ≡ intended labels m o
emitted_signals-intended labels m o (vector, kept) =
    rw vector (operands-intended labels m.name o kept)

-- A well-formed instruction whose registers, immediates and labels are in bounds is assembled. Where it
-- has no `s.` prefix and is no SRAI or AUIPC, its immediate or label is below the sign bit of its field, an
-- amount of SRLI below 32, the offset of a store a multiple of 32 and that of a jump even, the decoder reads
-- its word as the signals of `intended`: the operation of the mnemonic, on the registers and with the
-- immediate that are written, loads and stores of all widths alike.
pub emit-intended :
    (labels : Labels) (i : Instruction)
    → IsWellFormed i
    → InBounds labels i.operands
    → IsKept labels i.mnemonic i.operands
    → (w : InstructionBits) × (emit labels i ≡ some w)
      × (decode w.word ≡ intended labels i.mnemonic i.operands)
emit-intended labels i formed bounds kept =
    let (w, made, reads) = emit-emitted_signals labels i formed bounds in
    (w, made, reads ∙ emitted_signals-intended labels i.mnemonic i.operands kept)
