-- ===== src/Aslib/Emitter/Meaning.antt =====
-- What src/decoder.sv makes of the word of each well-formed instruction.
pub mod Classes
pub mod Signals
use smol_gpu.Prelude.{
  ℕ, ◌+◌, ◌*◌, ◌/◌, ◌%◌, ◌^◌, ◌<◌, ◌≤◌, ◌≡◌, ◌⊎◌, inl, inr, refl, sym, Bool, ap, ◌∙◌, subst, bit_or,
  Option, none, some, Text, arith, true,
}
use smol_gpu.Prelude.Int.{ℤ, pos, negsuc, to_u32}
use smol_gpu.Isa.Opcode
use smol_gpu.Isa.Register.{Register, x_register}
use smol_gpu.Isa.Funct3.{funct3s}
use smol_gpu.Isa.Funct7.{funct7s}
use smol_gpu.Isa.Mnemonic
use smol_gpu.Isa.Mnemonic.{MnemonicName, Mnemonic, InstructionDeterminant, name_to_determinant}
use smol_gpu.Isa.Encode.{InstructionBits, contains}
use smol_gpu.Isa.Encode.Fields.{
  InRange, HasItypeFields, HasRtypeFields, HasUtypeFields, create_stype_instruction-HasStypeFields,
  create_itype_instruction-HasItypeFields, create_rtype_instruction-HasRtypeFields,
  create_utype_instruction-HasUtypeFields,
}
use smol_gpu.Isa.Funct3
use smol_gpu.Isa.Encode.Jump.{create_jtype_instruction-HasJtypeFields}
use smol_gpu.Isa.Instructions
use smol_gpu.Gpu.Decoder.{Control, decode}
use smol_gpu.Aslib.Syntax.{
  Operands, no_operands, Instruction, ImmediateOrLabelref, itype, rtype, stype, utype, jtype, jalr,
  immediate, label_ref,
}
use smol_gpu.Aslib.Parser.Format
use smol_gpu.Aslib.Parser.Format.{Format, format, OperandsFit, IsWellFormed}
use smol_gpu.Aslib.Labels.{Labels, lookup}
use smol_gpu.Aslib.Emitter.{emit, emit_operands}
use smol_gpu.Aslib.Emitter.Decoded.{
  alu_of, three_registers, register_immediate, emitted_alu, store, rtype-tables, itype-tables,
  stype-tables, rtype-decode, itype-decode, stype-decode,
}
use Classes.{
  load, load_upper, add_upper, jump, jump_register, compare_lanes, compare_lanes_immediate, halted,
  load-decode, jalr-decode, sx_slti-decode, halt-decode, sx_slt-decode, lui-decode, auipc-decode,
  jal-decode,
}
use Signals.{Within, InBounds, itype_signals, rtype_signals, utype_signals, target, emitted_signals}

-- The determinants of the mnemonics of each format.
abbrev HasClass : Format → MnemonicName → InstructionDeterminant → Type 0
HasClass Format.bare n d =
    (n ≡ Mnemonic.halt) × (d.opcode ≡ Opcode.halt) × (contains d.funct3 funct3s ≡ true)
HasClass Format.register_immediate n d =
    ((d.opcode ≡ Opcode.itype)
      × ((rd rs1 : Register) (imm : ℕ)
          → itype_signals n rd rs1 imm ≡ register_immediate (emitted_alu n imm) rd rs1 imm))
    ⊎ ((n ≡ Mnemonic.sx_slti) × (d.opcode ≡ Opcode.sx_slti) × (contains d.funct3 funct3s ≡ true))
HasClass Format.three_registers n d =
    ((d.opcode ≡ Opcode.rtype)
      × ((rd rs1 rs2 : Register)
          → rtype_signals n rd rs1 rs2 ≡ three_registers (alu_of n) rd rs1 rs2))
    ⊎ ((n ≡ Mnemonic.sx_slt)
        × (d.opcode ≡ Opcode.sx_slt)
        × (contains d.funct3 funct3s ≡ true)
        × (contains d.funct7 funct7s ≡ true))
HasClass Format.load n d =
    (d.opcode ≡ Opcode.load)
    × (contains d.funct3 funct3s ≡ true)
    × ((rd rs1 : Register) (imm : ℕ) → itype_signals n rd rs1 imm ≡ load rd rs1 imm)
HasClass Format.store n d = (d.opcode ≡ Opcode.stype)
HasClass Format.upper n d =
    ((d.opcode ≡ Opcode.lui) × (n ≡ Mnemonic.lui))
    ⊎ ((d.opcode ≡ Opcode.auipc) × (n ≡ Mnemonic.auipc))
HasClass Format.jump n d = (d.opcode ≡ Opcode.jtype)
HasClass Format.jump_register n d = Unit
HasClass Format.branch n d = Unit

name_to_determinant-HasClass : (n : MnemonicName) → HasClass (format n) n (name_to_determinant n)
unfolding name_to_determinant contains
name_to_determinant-HasClass Mnemonic.lui = inl (refl, refl)
name_to_determinant-HasClass Mnemonic.auipc = inr (refl, refl)
name_to_determinant-HasClass _ = search (inl, inr, refl, tt)

-- A field of an instruction that is in bounds, as the unsigned number that the builders take.
to_u32-lt : (b : ℕ) (imm : ℤ) → b ≤ 2 ^ 32 → Within b imm → to_u32 imm < b
to_u32-lt b (pos n) small within = omega arith
to_u32-lt b (negsuc n) small within = absurd within

abbrev HasSignals : Labels → MnemonicName → Operands → Type 0
HasSignals labels n o =
    (w : InstructionBits) × (emit_operands labels (name_to_determinant n) o ≡ some w)
    × (decode w.word ≡ emitted_signals labels n o)

module _ (labels : Labels) (n : MnemonicName) where
  itype-HasSignals :
      (rd rs1 : Register) (imm : ℤ)
      → contains (name_to_determinant n).funct3 funct3s ≡ true
      → InBounds labels (itype rd rs1 imm)
      → ((w : InstructionBits)
          → HasItypeFields
              (name_to_determinant n).opcode
              (name_to_determinant n).funct3
              rd
              rs1
              (to_u32 imm)
              w
          → decode w.word ≡ itype_signals n rd rs1 (to_u32 imm))
      → HasSignals labels n (itype rd rs1 imm)
  unfolding emit_operands
  itype-HasSignals rd rs1 imm known (hd, h1, hi) read =
      let (w, made, fields) =
        create_itype_instruction-HasItypeFields _ _ known rd rs1 (to_u32 imm) hd h1
          (to_u32-lt 4096 imm (omega arith) hi) in
      (w, made, read w fields)

  rtype-HasSignals :
      (rd rs1 rs2 : Register)
      → contains (name_to_determinant n).funct3 funct3s ≡ true
      → contains (name_to_determinant n).funct7 funct7s ≡ true
      → InBounds labels (rtype rd rs1 rs2)
      → ((w : InstructionBits)
          → HasRtypeFields
              (name_to_determinant n).opcode
              (name_to_determinant n).funct3
              (name_to_determinant n).funct7
              rd
              rs1
              rs2
              w
          → decode w.word ≡ rtype_signals n rd rs1 rs2)
      → HasSignals labels n (rtype rd rs1 rs2)
  unfolding emit_operands
  rtype-HasSignals rd rs1 rs2 known3 known7 (hd, h1, h2) read =
      let (w, made, fields) =
        create_rtype_instruction-HasRtypeFields _ _ known3 _ rd rs1 rs2 known7 hd h1 h2 in
      (w, made, read w fields)

  utype-HasSignals :
      (rd : Register) (imm : ℤ)
      → InBounds labels (utype rd imm)
      → ((w : InstructionBits)
          → HasUtypeFields (name_to_determinant n).opcode rd (to_u32 imm) w
          → decode w.word ≡ utype_signals n rd (to_u32 imm))
      → HasSignals labels n (utype rd imm)
  unfolding emit_operands
  utype-HasSignals rd imm (hd, hi) read =
      let (w, made, fields) =
        create_utype_instruction-HasUtypeFields _ rd (to_u32 imm) hd
          (to_u32-lt 1048576 imm (omega arith) hi) in
      (w, made, read w fields)

  stype-HasSignals :
      (rs1 rs2 : Register) (imm : ℤ)
      → (name_to_determinant n).opcode ≡ Opcode.stype
      → InBounds labels (stype rs1 rs2 imm)
      → HasSignals labels n (stype rs1 rs2 imm)
  unfolding emit_operands
  stype-HasSignals rs1 rs2 imm of_type (h1, h2, hi) =
      let (w, made, fields) =
        create_stype_instruction-HasStypeFields _ _ (stype-tables n of_type) rs1 rs2 (to_u32 imm) h1
          h2 (to_u32-lt 4096 imm (omega arith) hi) in
      (w, made, stype-decode of_type fields)

  jtype-HasSignals :
      (rd : Register) (imm : ℤ)
      → (name_to_determinant n).opcode ≡ Opcode.jtype
      → InBounds labels (jtype rd imm)
      → HasSignals labels n (jtype rd imm)
  unfolding emit_operands
  jtype-HasSignals rd imm of_type (hd, hi) =
      let (w, made, fields) =
        create_jtype_instruction-HasJtypeFields _ rd (to_u32 imm) hd
          (to_u32-lt 2097152 imm (omega arith) hi) in
      (w, made, jal-decode fields of_type)

  jalr-HasSignals :
      (rd rs1 : Register) (to : ImmediateOrLabelref)
      → InBounds labels (jalr rd rs1 to)
      → HasSignals labels n (jalr rd rs1 to)
  unfolding emit_operands Instructions.jalr contains
  jalr-HasSignals rd rs1 (immediate offset) (hd, h1, hi) =
      let (w, made, fields) =
        create_itype_instruction-HasItypeFields Opcode.jalr Funct3.jalr refl rd rs1 (to_u32 offset)
          hd h1 (to_u32-lt 4096 offset (omega arith) hi) in
      (w, made, jalr-decode fields refl)
  jalr-HasSignals rd rs1 (label_ref name) (hd, (k, found, small)) =
      let (w, made, fields) =
        create_itype_instruction-HasItypeFields Opcode.jalr Funct3.jalr refl rd (x_register 0) k hd
          (omega arith) small in
      (w, rw found made, rw found (jalr-decode fields refl))

  by_format :
      (f : Format) (o : Operands) (dest source : Bool)
      → HasClass f n (name_to_determinant n)
      → OperandsFit f dest source o
      → InBounds labels o
      → HasSignals labels n o
  by_format Format.bare o dest source (same, of_type, known) fit b =
      subst (HasSignals labels n) (sym fit) (
        itype-HasSignals (x_register 0) (x_register 0) (pos 0) known (omega arith)
          λ w fields. rw same (halt-decode fields of_type))
  by_format Format.register_immediate (itype rd rs1 imm) dest source (inl (of_type, reads)) fit b =
      itype-HasSignals rd rs1 imm (itype-tables n 0 of_type).1 b λ w fields.
        itype-decode of_type fields
        ∙ ap (λ op. register_immediate op rd rs1 (to_u32 imm))
            (itype-tables n (to_u32 imm) of_type).0
        ∙ sym (reads rd rs1 (to_u32 imm))
  by_format Format.register_immediate (itype rd rs1 imm) dest source (inr (same, of_type, known))
        fit b =
      itype-HasSignals rd rs1 imm known b λ w fields. rw same (sx_slti-decode fields of_type)
  by_format Format.three_registers (rtype rd rs1 rs2) dest source (inl (of_type, reads)) fit b =
      rtype-HasSignals rd rs1 rs2 (rtype-tables n of_type).1 (rtype-tables n of_type).2 b
        λ w fields.
          rtype-decode of_type fields
          ∙ ap (λ op. three_registers op rd rs1 rs2) (rtype-tables n of_type).0
          ∙ sym (reads rd rs1 rs2)
  by_format Format.three_registers (rtype rd rs1 rs2) dest source
        (inr (same, of_type, known3, known7)) fit b =
      rtype-HasSignals rd rs1 rs2 known3 known7 b λ w fields. rw same (sx_slt-decode fields of_type)
  by_format Format.load (itype rd rs1 imm) dest source (of_type, known, reads) fit b =
      itype-HasSignals rd rs1 imm known b
        λ w fields. load-decode fields of_type ∙ sym (reads rd rs1 (to_u32 imm))
  by_format Format.store (stype rs1 rs2 imm) dest source of_type fit b =
      stype-HasSignals rs1 rs2 imm of_type b
  by_format Format.upper (utype rd imm) dest source (inl (of_type, same)) fit b =
      utype-HasSignals rd imm b λ w fields. rw same (lui-decode fields of_type)
  by_format Format.upper (utype rd imm) dest source (inr (of_type, same)) fit b =
      utype-HasSignals rd imm b λ w fields. rw same (auipc-decode fields of_type)
  by_format Format.jump (jtype rd imm) dest source of_type fit b = jtype-HasSignals rd imm of_type b
  by_format Format.jump_register (jalr rd rs1 to) dest source class fit b =
      jalr-HasSignals rd rs1 to b
  by_format _ o dest source class fit b = absurd fit

-- A well-formed instruction whose registers, immediates and labels are in bounds is assembled, and
-- the decoder reads its word as `emitted_signals`.
pub emit-emitted_signals :
    (labels : Labels) (i : Instruction)
    → IsWellFormed i
    → InBounds labels i.operands
    → (w : InstructionBits) × (emit labels i ≡ some w)
      × (decode w.word ≡ emitted_signals labels i.mnemonic.name i.operands)
unfolding emit
emit-emitted_signals labels i formed bounds =
    by_format labels i.mnemonic.name (format i.mnemonic.name) i.operands _ _
      (name_to_determinant-HasClass i.mnemonic.name) formed.fits bounds
