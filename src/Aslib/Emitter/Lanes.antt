-- ===== src/Aslib/Emitter/Lanes.antt =====
-- Arithmetic instructions from their text to the registers of the lanes of a warp.
use smol_gpu.Prelude.{ℕ, ◌^◌, ◌<◌, ◌≤◌, ◌≡◌, refl, sym, subst, ◌∙◌, Bool, true, false, some}
use smol_gpu.Prelude.Int.{to_u32}
use smol_gpu.Isa.Register.{Register}
use smol_gpu.Isa.Mnemonic
use smol_gpu.Isa.Mnemonic.{MnemonicName}
use smol_gpu.Isa.Encode.{InstructionBits}
use smol_gpu.Isa.Execution.{execute}
use smol_gpu.Gpu.Decoder
use smol_gpu.Gpu.Decoder.{Control, decode}
use smol_gpu.Gpu.Alu.Exact.{IsExact}
use smol_gpu.Gpu.RegFile.{Identity, RegFile}
use smol_gpu.Gpu.RegFile.Lanes.{carry_out, carry_out-written}
use smol_gpu.Aslib.Syntax.{Operands, Instruction, itype, rtype}
use smol_gpu.Aslib.Labels.{Labels}
use smol_gpu.Aslib.Parser.Format.{
  Format, format, OperandsFit, IsWellFormed, register_immediate, three_registers,
}
use smol_gpu.Aslib.Emitter.{emit}
use smol_gpu.Aslib.Emitter.Meaning.{emit-emitted_signals}
use smol_gpu.Aslib.Emitter.Meaning.Signals.{InBounds, emitted_signals, itype_signals, rtype_signals}
use smol_gpu.Aslib.Emitter.Executed.{
  computed, first, second, IsArithmetic, emitted_signals-executed,
}

-- An arithmetic instruction whose result goes into a register of each lane.
abbrev pub IsPerLane : MnemonicName → Type 0
IsPerLane Mnemonic.sx_slt = ⊥
IsPerLane Mnemonic.sx_slti = ⊥
IsPerLane n = IsArithmetic (format n)

abbrev pub destination : Operands → ℕ
destination (itype rd rs1 imm) = rd.register_number
destination (rtype rd rs1 rs2) = rd.register_number
destination _ = 0

-- The signals that lead the result of the arithmetic unit into the register `rd` of each lane.
record WritesLanes (rd : ℕ) (c : Control) : Type 0 where
  writes : c.reg_write_enable ≡ true
  is_vector : c.scalar_instruction ≡ false
  takes_alu : c.reg_input_mux ≡ Decoder.alu_out
  to_rd : c.rd_address ≡ rd

itype-WritesLanes :
    (n : MnemonicName) (rd rs1 : Register) (imm : ℕ)
    → format n ≡ register_immediate
    → IsPerLane n
    → WritesLanes rd.register_number (itype_signals n rd rs1 imm)
itype-WritesLanes Mnemonic.lb rd rs1 imm is h = cc
itype-WritesLanes Mnemonic.lh rd rs1 imm is h = cc
itype-WritesLanes Mnemonic.lw rd rs1 imm is h = cc
itype-WritesLanes Mnemonic.halt rd rs1 imm is h = cc
itype-WritesLanes Mnemonic.sx_slti rd rs1 imm is h = absurd h
itype-WritesLanes _ rd rs1 imm is h = record {
  writes = refl;
  is_vector = refl;
  takes_alu = refl;
  to_rd = refl;
}

rtype-WritesLanes :
    (n : MnemonicName) (rd rs1 rs2 : Register)
    → IsPerLane n
    → WritesLanes rd.register_number (rtype_signals n rd rs1 rs2)
rtype-WritesLanes Mnemonic.sx_slt rd rs1 rs2 h = absurd h
rtype-WritesLanes _ rd rs1 rs2 h = record {
  writes = refl;
  is_vector = refl;
  takes_alu = refl;
  to_rd = refl;
}

IsPerLane-IsArithmetic : (n : MnemonicName) → IsPerLane n → IsArithmetic (format n)
IsPerLane-IsArithmetic Mnemonic.sx_slt h = absurd h
IsPerLane-IsArithmetic Mnemonic.sx_slti h = absurd h
IsPerLane-IsArithmetic _ h = h

emitted_signals-WritesLanes :
    (labels : Labels) (f : Format) (n : MnemonicName) (dest source : Bool) (o : Operands)
    → format n ≡ f
    → IsArithmetic f
    → IsPerLane n
    → OperandsFit f dest source o
    → WritesLanes (destination o) (emitted_signals labels n o)
emitted_signals-WritesLanes labels register_immediate n dest source (itype rd rs1 imm) is a h fit =
    itype-WritesLanes n rd rs1 (to_u32 imm) is h
emitted_signals-WritesLanes labels three_registers n dest source (rtype rd rs1 rs2) is a h fit =
    rtype-WritesLanes n rd rs1 rs2 h
emitted_signals-WritesLanes labels register_immediate n dest source _ is a h fit = absurd fit
emitted_signals-WritesLanes labels three_registers n dest source _ is a h fit = absurd fit
emitted_signals-WritesLanes labels _ n dest source o is a h fit = absurd a

module _ (labels : Labels) (id : Identity) (lanes : ℕ → Bool) (lsu_out : ℕ → ℕ) (pc : ℕ)
    (f : RegFile) (lane : ℕ) (on : lanes lane ≡ true)
    (words : (r : ℕ) → f.registers lane r < 2 ^ 32) where
  written :
      (c m : Control) (rd : ℕ)
      → c ≡ m
      → WritesLanes rd m
      → 4 ≤ rd
      → (carry_out id lanes lsu_out pc c f).registers lane rd ≡ computed pc (f.registers lane) m
  written c m rd same h high =
      subst
        (λ (x : Control).
          (carry_out id lanes lsu_out pc x f).registers lane rd ≡ computed pc (f.registers lane) m)
        (sym same)
        (subst
          (λ (r : ℕ).
            (carry_out id lanes lsu_out pc m f).registers lane r ≡ computed pc (f.registers lane) m)
          h.to_rd
          (carry_out-written id lanes lsu_out pc m f lane on h.writes h.is_vector h.takes_alu
            (subst (λ (r : ℕ). 4 ≤ r) (sym h.to_rd) high)))

  -- A well-formed arithmetic vector instruction in bounds, without the `s.` prefix and with a destination
  -- from 4 on, is assembled to a word that leaves the result of the ISA, on the lane's own registers, in the
  -- destination of every lane that is on, once the warp has requested, computed and written, where the
  -- values are of the same sign for a comparison, the amount of a shift is below 32, and the value that is
  -- shifted arithmetically is not negative.
  pub emit-carry_out :
      (i : Instruction)
      → i.mnemonic.has_s_prefix ≡ false
      → IsWellFormed i
      → InBounds labels i.operands
      → IsPerLane i.mnemonic.name
      → 4 ≤ destination i.operands
      → IsExact i.mnemonic.name
          (first (f.registers lane) i.operands)
          (second (f.registers lane) i.operands)
      → (w : InstructionBits) × (emit labels i ≡ some w)
        × ((carry_out id lanes lsu_out pc (decode w.word) f).registers lane (destination i.operands)
            ≡ execute i.mnemonic.name
                (first (f.registers lane) i.operands)
                (second (f.registers lane) i.operands))
  emit-carry_out i vector formed bounds per_lane high exact =
      let (w, made, reads) = emit-emitted_signals labels i formed bounds in
      let arithmetic = IsPerLane-IsArithmetic i.mnemonic.name per_lane in
      (
        w,
        made,
        written (decode w.word) _ (destination i.operands) reads
              (emitted_signals-WritesLanes labels _ i.mnemonic.name _ _ i.operands refl arithmetic
                per_lane formed.fits)
              high
            ∙ emitted_signals-executed labels pc (f.registers lane) words _ i.mnemonic.name _ _
                i.operands refl arithmetic formed.fits bounds exact,
      )
