-- ===== src/Aslib/Emitter/Executed.antt =====
-- Arithmetic instructions from their text to their result: what sim/aslib/emitter.cpp makes of them, read
-- by src/decoder.sv and carried out by src/alu.sv.
use smol_gpu.Prelude.{ℕ, ◌/◌, ◌^◌, ◌<◌, ◌≡◌, refl, ap, ◌∙◌, Bool, true, false, some, arith}
use smol_gpu.Prelude.Int.{ℤ, pos, negsuc, to_u32}
use smol_gpu.Isa.Register.{Register}
use smol_gpu.Isa.Mnemonic
use smol_gpu.Isa.Mnemonic.{MnemonicName}
use smol_gpu.Isa.Encode.{InstructionBits}
use smol_gpu.Isa.Execution.{execute}
use smol_gpu.Gpu.Decoder
use smol_gpu.Gpu.Decoder.{Control, AluInstruction, decode, sign_extend, itype_alu}
use smol_gpu.Gpu.Alu.{result, clock}
use smol_gpu.Gpu.Alu.Exact.{
  IsExact, less-SameSign, shift_left-small, shift_right-small, shift_right-pos,
}
use smol_gpu.Aslib.Syntax.{Operands, Instruction, itype, rtype}
use smol_gpu.Aslib.Labels.{Labels}
use smol_gpu.Aslib.Parser.Format.{
  Format, format, OperandsFit, IsWellFormed, register_immediate, three_registers,
}
use smol_gpu.Aslib.Emitter.{emit}
use smol_gpu.Aslib.Emitter.Meaning.{emit-emitted_signals}
use smol_gpu.Aslib.Emitter.Meaning.Signals.{
  Within, InBounds, itype_signals, rtype_signals, emitted_signals,
}

-- What an enabled clock edge leaves in `alu_out` under the signals, with `x` for the values of the
-- registers.
abbrev pub computed : ℕ → (ℕ → ℕ) → Control → ℕ
computed pc x c =
    clock false true c.alu_instruction pc c.immediate (x c.rs1_address) (x c.rs2_address) 0

extended : (imm : ℕ) → imm < 4096 → sign_extend imm < 2 ^ 32
unfolding sign_extend
extended imm h = ground (arith, h)

short : (imm : ℕ) → imm < 4096 → sign_extend imm < 32 → imm / 32 ≡ 0
unfolding sign_extend
short imm h k = ground (arith, h, k)

-- A right shift by less than 32 is a logical one.
logical : (imm : ℕ) → imm < 4096 → sign_extend imm < 32 → itype_alu 0b101 (imm / 32) ≡ Decoder.srli
unfolding itype_alu
logical imm h k = rw (short imm h k) refl

module _ (pc : ℕ) (x : ℕ → ℕ) (words : (k : ℕ) → x k < 2 ^ 32) where
  three_registers-executed :
      (n : MnemonicName) (rd rs1 rs2 : Register)
      → format n ≡ three_registers
      → IsExact n (x rs1.register_number) (x rs2.register_number)
      → computed pc x (rtype_signals n rd rs1 rs2)
        ≡ execute n (x rs1.register_number) (x rs2.register_number)
  unfolding result clock execute
  three_registers-executed Mnemonic.add rd rs1 rs2 is h = refl
  three_registers-executed Mnemonic.sub rd rs1 rs2 is h = refl
  three_registers-executed Mnemonic.sll rd rs1 rs2 is h = shift_left-small _ _ h
  three_registers-executed Mnemonic.slt rd rs1 rs2 is h =
      (less-SameSign _ _ (words rs1.register_number) (words rs2.register_number)).1 h
  three_registers-executed Mnemonic.xor rd rs1 rs2 is h = refl
  three_registers-executed Mnemonic.srl rd rs1 rs2 is h = shift_right-small _ _ h
  three_registers-executed Mnemonic.sra rd rs1 rs2 is (small, h) = shift_right-pos _ _ small h
  three_registers-executed Mnemonic.or rd rs1 rs2 is h = refl
  three_registers-executed Mnemonic.and rd rs1 rs2 is h = refl
  three_registers-executed Mnemonic.sx_slt rd rs1 rs2 is h =
      (less-SameSign _ _ (words rs1.register_number) (words rs2.register_number)).1 h
  three_registers-executed _ rd rs1 rs2 is h = cc

  register_immediate-executed :
      (n : MnemonicName) (rd rs1 : Register) (imm : ℕ)
      → format n ≡ register_immediate
      → imm < 4096
      → IsExact n (x rs1.register_number) (sign_extend imm)
      → computed pc x (itype_signals n rd rs1 imm)
        ≡ execute n (x rs1.register_number) (sign_extend imm)
  unfolding result clock execute
  register_immediate-executed Mnemonic.addi rd rs1 imm is fits h = refl
  register_immediate-executed Mnemonic.slti rd rs1 imm is fits h =
      (less-SameSign _ _ (words rs1.register_number) (extended imm fits)).1 h
  register_immediate-executed Mnemonic.xori rd rs1 imm is fits h = refl
  register_immediate-executed Mnemonic.ori rd rs1 imm is fits h = refl
  register_immediate-executed Mnemonic.andi rd rs1 imm is fits h = refl
  register_immediate-executed Mnemonic.slli rd rs1 imm is fits h = shift_left-small _ _ h
  register_immediate-executed Mnemonic.srli rd rs1 imm is fits h =
      rw (logical imm fits h) (shift_right-small _ _ h)
  register_immediate-executed Mnemonic.srai rd rs1 imm is fits (small, h) =
      rw (logical imm fits h) (shift_right-pos _ _ small h)
  register_immediate-executed Mnemonic.sx_slti rd rs1 imm is fits h =
      (less-SameSign _ _ (words rs1.register_number) (extended imm fits)).1 h
  register_immediate-executed _ rd rs1 imm is fits h = cc

-- The two values that an arithmetic instruction works on.
abbrev pub first : (ℕ → ℕ) → Operands → ℕ
first x (itype rd rs1 imm) = x rs1.register_number
first x (rtype rd rs1 rs2) = x rs1.register_number
first x _ = 0

abbrev pub second : (ℕ → ℕ) → Operands → ℕ
second x (itype rd rs1 imm) = sign_extend (to_u32 imm)
second x (rtype rd rs1 rs2) = x rs2.register_number
second x _ = 0

abbrev pub IsArithmetic : Format → Type 0
IsArithmetic register_immediate = Unit
IsArithmetic three_registers = Unit
IsArithmetic _ = ⊥

within : (imm : ℤ) → Within 4096 imm → to_u32 imm < 4096
within (pos k) h = omega (arith, h)
within (negsuc k) h = absurd h

module _ (labels : Labels) (pc : ℕ) (x : ℕ → ℕ) (words : (k : ℕ) → x k < 2 ^ 32) where
  pub emitted_signals-executed :
      (f : Format) (n : MnemonicName) (dest source : Bool) (o : Operands)
      → format n ≡ f
      → IsArithmetic f
      → OperandsFit f dest source o
      → InBounds labels o
      → IsExact n (first x o) (second x o)
      → computed pc x (emitted_signals labels n o) ≡ execute n (first x o) (second x o)
  emitted_signals-executed register_immediate n dest source (itype rd rs1 imm) is a fit (hd, h1, hi)
        h =
      register_immediate-executed pc x words n rd rs1 (to_u32 imm) is (within imm hi) h
  emitted_signals-executed three_registers n dest source (rtype rd rs1 rs2) is a fit bounds h =
      three_registers-executed pc x words n rd rs1 rs2 is h
  emitted_signals-executed register_immediate n dest source _ is a fit bounds h = absurd fit
  emitted_signals-executed three_registers n dest source _ is a fit bounds h = absurd fit
  emitted_signals-executed _ n dest source o is a fit bounds h = absurd a

  -- A well-formed arithmetic instruction in bounds is assembled to a word that the decoder and the
  -- arithmetic unit carry out as the ISA says, on 32-bit values of the registers, where these are of the
  -- same sign for a comparison, the amount of a shift is below 32, and the value that is shifted
  -- arithmetically is not negative.
  pub emit-executed :
      (i : Instruction)
      → IsWellFormed i
      → InBounds labels i.operands
      → IsArithmetic (format i.mnemonic.name)
      → IsExact i.mnemonic.name (first x i.operands) (second x i.operands)
      → (w : InstructionBits) × (emit labels i ≡ some w)
        × (computed pc x (decode w.word)
            ≡ execute i.mnemonic.name (first x i.operands) (second x i.operands))
  emit-executed i formed bounds arithmetic h =
      let (w, made, reads) = emit-emitted_signals labels i formed bounds in
      (
        w,
        made,
        ap (computed pc x) reads
            ∙ emitted_signals-executed _ i.mnemonic.name _ _ i.operands refl arithmetic formed.fits
                bounds h,
      )
