-- ===== src/Tests/EmitterWitnesses.antt =====
-- The theorems on sim/aslib/emitter.cpp and the hardware that carries its words out, at concrete
-- instructions.
use smol_gpu.Prelude.{ℕ, ◌≡◌, ◌↔◌, ◌%◌, true, none, some, [], ◌∷◌, refl, ◌^◌, ◌-◌, arith}
use smol_gpu.Prelude.Int.{pos, negsuc}
use smol_gpu.Isa.Register
use smol_gpu.Aslib.Parser.Format.{IsWellFormed}
use smol_gpu.Isa.Register.{x_register, s_register}
use smol_gpu.Isa.Mnemonic
use smol_gpu.Isa.Mnemonic.{Mnemonic, name_to_determinant}
use smol_gpu.Isa.Encode.{InstructionBits}
use smol_gpu.Gpu.Decoder
use smol_gpu.Gpu.Decoder.{decode}
use smol_gpu.Gpu.Alu
use smol_gpu.Gpu.Alu.Exact.{SameSign, slt-SameSign}
use smol_gpu.Gpu.RegFile
use smol_gpu.Gpu.RegFile.{Identity, Inputs, RegFile, reset, run}
use smol_gpu.Gpu.RegFile.ReadOnly.{IsReadOnly, run-reset-IsReadOnly}
use smol_gpu.Gpu.RegFile.Lanes.{carry_out}
use smol_gpu.Aslib.Emitter.Lanes.{emit-carry_out}
use smol_gpu.Isa.Execution.{execute}
use smol_gpu.Isa.Mnemonic.{name_eq}
use smol_gpu.Isa.Instructions
use smol_gpu.Aslib.Emitter.Constructed.{emit-constructed}
use smol_gpu.Aslib.Emitter.Executed.{computed, emit-executed}
use smol_gpu.Aslib.Syntax.{Instruction, itype, rtype}
use smol_gpu.Aslib.Emitter.Intended.{intended, emit-intended}
use smol_gpu.Aslib.Emitter.{emit}
use smol_gpu.Aslib.Emitter.Decoded.{
  register_immediate, emitted_alu, with_operands, emit-register_immediate, emit-negative,
}
use smol_gpu.Tests.ProgramWitnesses.{vector}

emit-register_immediate_example :
    (w : InstructionBits) × (emit []
        (with_operands none (vector Mnemonic.srai) (itype (x_register 5) (x_register 6) (pos 3)))
      ≡ some w)
    × (decode w.word
        ≡ register_immediate (emitted_alu Mnemonic.srai 3) (x_register 5) (x_register 6) 3)
unfolding name_to_determinant
emit-register_immediate_example =
    emit-register_immediate [] none (vector Mnemonic.srai) (x_register 5) (x_register 6) 3 refl
      (omega arith) (omega arith) (omega arith)

emit-negative_example :
    emit []
      (with_operands none (vector Mnemonic.addi) (itype (x_register 5) (x_register 6) (negsuc 0)))
    ≡ none
emit-negative_example =
    emit-negative [] none (vector Mnemonic.addi) (x_register 5) (x_register 6) 0 (omega arith)

abbrev compare_instruction : Instruction
compare_instruction =
    with_operands none (vector Mnemonic.sx_slti) (itype (s_register 5) (x_register 6) (pos 7))

compare-IsWellFormed : IsWellFormed compare_instruction
unfolding Mnemonic.is_scalar Mnemonic.is_vector_scalar Register.is_scalar
compare-IsWellFormed = record { fits = (refl, refl) }

emit-intended_example :
    (w : InstructionBits) × (emit [] compare_instruction ≡ some w)
    × (decode w.word
        ≡ intended [] (vector Mnemonic.sx_slti) (itype (s_register 5) (x_register 6) (pos 7)))
emit-intended_example =
    emit-intended [] compare_instruction compare-IsWellFormed
      (omega arith, omega arith, omega arith) (refl, (omega arith, tt))

abbrev lanes : ℕ → ℕ
lanes k = 2 ^ 32 - 1 - k % 2

abbrev compare : Instruction
compare =
    with_operands none (vector Mnemonic.slt) (rtype (x_register 5) (x_register 6) (x_register 7))

emit-executed_example :
    (w : InstructionBits) × (emit [] compare ≡ some w)
    × (computed 0 lanes (decode w.word) ≡ execute Mnemonic.slt (lanes 6) (lanes 7))
unfolding Register.is_scalar Mnemonic.is_scalar name_eq
emit-executed_example =
    emit-executed [] 0 lanes (λ k. omega arith) compare (record { fits = (refl, refl, refl) })
      (omega arith, omega arith, omega arith) tt refl

slt-SameSign_example :
    (Alu.result Decoder.slt 0 0 (2 ^ 32 - 1) 1 ≡ execute Mnemonic.slt (2 ^ 32 - 1) 1)
    ↔ SameSign (2 ^ 32 - 1) 1
slt-SameSign_example = slt-SameSign 0 0 (2 ^ 32 - 1) 1 (omega arith) (omega arith)

emit-constructed_example :
    emit [] compare ≡ Instructions.slt (x_register 5) (x_register 6) (x_register 7)
unfolding Register.is_scalar Mnemonic.is_scalar name_eq
emit-constructed_example = emit-constructed [] compare (record { fits = (refl, refl, refl) }) tt

abbrev identity : Identity
identity = record { warp_id = 1; block_id = 2; block_size = 64 }

abbrev register_file : RegFile
register_file = record { registers = λ i r. lanes r; rs1 = λ i. 0; rs2 = λ i. 0 }

emit-carry_out_example :
    (w : InstructionBits) × (emit [] compare ≡ some w)
    × ((carry_out identity (λ i. true) (λ i. 0) 0 (decode w.word) register_file).registers 3 5
        ≡ execute Mnemonic.slt (lanes 6) (lanes 7))
unfolding Register.is_scalar Mnemonic.is_scalar name_eq
emit-carry_out_example =
    emit-carry_out [] identity (λ i. true) (λ i. 0) 0 register_file 3 refl (λ r. omega arith)
      compare refl (record { fits = (refl, refl, refl) }) (omega arith, omega arith, omega arith) tt
      (omega arith) refl

-- The block of the edge is another than that of the reset.
abbrev next_identity : Identity
next_identity = record identity { block_id = 9 }

abbrev writing : Inputs
writing = record {
  enable = true;
  thread_enable = λ i. true;
  warp_state = RegFile.update;
  write_enable = true;
  decoded = decode 0x730093;
  alu_out = λ i. 7;
  lsu_out = λ i. 0;
}

run-reset-IsReadOnly_example :
    IsReadOnly next_identity
      (run ((identity, writing) ∷ (next_identity, writing) ∷ []) (reset identity register_file))
run-reset-IsReadOnly_example =
    run-reset-IsReadOnly identity ((identity, writing) ∷ (next_identity, writing) ∷ [])
      register_file
