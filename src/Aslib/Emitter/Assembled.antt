-- ===== src/Aslib/Emitter/Assembled.antt =====
-- A program that is parsed is assembled, and what the decoder reads from its words.
use smol_gpu.Prelude.{
  ℕ, zero, suc, ◌≡◌, refl, ap, some, List, [], ◌∷◌, Text, All, length, get_elem?,
}
use smol_gpu.Isa.Encode.{InstructionBits}
use smol_gpu.Gpu.Decoder.{decode}
use smol_gpu.Aslib.Syntax.{
  Line, just_label, blocks_directive, warps_directive, instruction, Instruction, Program,
}
use smol_gpu.Aslib.Labels.{Labels}
use smol_gpu.Aslib.Program.{parsed, parse_program}
use smol_gpu.Aslib.Program.Layout.{instructions_of}
use smol_gpu.Aslib.Program.Reading.{parse_program-IsProgramOf}
use smol_gpu.Aslib.Parser.Format.{IsWellFormed}
use smol_gpu.Aslib.Parser.Lines.{IsAccepted}
use smol_gpu.Aslib.Emitter.{emit_all, translate_to_binary}
use smol_gpu.Aslib.Emitter.Meaning.{emit-emitted_signals}
use smol_gpu.Aslib.Emitter.Meaning.Signals.{InBounds, emitted_signals}

instructions_of-IsWellFormed :
    (ls : List Line) → All IsAccepted ls → All IsWellFormed (instructions_of ls)
instructions_of-IsWellFormed [] h = tt
instructions_of-IsWellFormed (instruction i ∷ ls) (here, h) =
    (here, instructions_of-IsWellFormed ls h)
instructions_of-IsWellFormed (just_label name ∷ ls) (here, h) = instructions_of-IsWellFormed ls h
instructions_of-IsWellFormed (blocks_directive n ∷ ls) (here, h) = instructions_of-IsWellFormed ls h
instructions_of-IsWellFormed (warps_directive n ∷ ls) (here, h) = instructions_of-IsWellFormed ls h

module _ (labels : Labels) where
  -- All operands are in the bounds of their fields.
  abbrev pub AreInBounds : List Instruction → Type 0
  AreInBounds = All (λ i. InBounds labels i.operands)

  -- The decoder reads the words, one to an instruction and in order, as `emitted_signals`.
  abbrev pub AreEmitted : List Instruction → List InstructionBits → Type 0
  AreEmitted [] [] = Unit
  AreEmitted [] (w ∷ ws) = ⊥
  AreEmitted (i ∷ is) [] = ⊥
  AreEmitted (i ∷ is) (w ∷ ws) =
      (decode w.word ≡ emitted_signals labels i.mnemonic.name i.operands) × AreEmitted is ws

  emit_all-AreEmitted :
      (is : List Instruction)
      → All IsWellFormed is
      → AreInBounds is
      → (ws : List InstructionBits) × (emit_all labels is ≡ some ws) × AreEmitted is ws
  unfolding emit_all
  emit_all-AreEmitted [] formed bounds = ([], refl, tt)
  emit_all-AreEmitted (i ∷ is) (here, formed) (near, bounds) =
      let (w, emitted, meant) = emit-emitted_signals labels i here near in
      let (ws, others, rest) = emit_all-AreEmitted is formed bounds in
      (w ∷ ws, rw (emitted, others), (meant, rest))

  pub length-AreEmitted :
      (is : List Instruction) (ws : List InstructionBits) → AreEmitted is ws → length ws ≡ length is
  length-AreEmitted [] [] h = refl
  length-AreEmitted [] (w ∷ ws) h = absurd h
  length-AreEmitted (i ∷ is) [] h = absurd h
  length-AreEmitted (i ∷ is) (w ∷ ws) (e, h) = ap suc (length-AreEmitted is ws h)

  pub get_elem?-AreEmitted :
      (is : List Instruction) (ws : List InstructionBits) (k : ℕ) {i : Instruction}
      → AreEmitted is ws
      → get_elem? is k ≡ some i
      → (w : InstructionBits) × (get_elem? ws k ≡ some w)
        × (decode w.word ≡ emitted_signals labels i.mnemonic.name i.operands)
  get_elem?-AreEmitted [] ws k h e = cc
  get_elem?-AreEmitted (j ∷ is) [] k h e = absurd h
  get_elem?-AreEmitted (j ∷ is) (w ∷ ws) zero (here, h) e = (w, refl, cc)
  get_elem?-AreEmitted (j ∷ is) (w ∷ ws) (suc k) (here, h) e = get_elem?-AreEmitted is ws k h e

-- A program that `parse_program` returns, and whose operands are in the bounds of their fields, is
-- assembled; there are as many words as instructions, and the decoder reads each, in order, as the
-- control signals that `emitted_signals` has for its instruction.
pub parse_program-AreEmitted :
    (texts : List Text) (p : Program)
    → parse_program texts ≡ some (parsed p)
    → AreInBounds p.label_mappings p.instructions
    → (ws : List InstructionBits) × (translate_to_binary p ≡ some ws)
      × AreEmitted p.label_mappings p.instructions ws
unfolding translate_to_binary
parse_program-AreEmitted texts p parses bounds =
    let (ls, reads, accepted, is_program) = parse_program-IsProgramOf texts p parses in
    emit_all-AreEmitted p.label_mappings p.instructions
      (rw is_program.instructions_are (instructions_of-IsWellFormed ls accepted)) bounds
