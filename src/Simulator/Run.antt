-- ===== src/Simulator/Run.antt =====
-- A run of sim/main.cpp from the source file to the words that the device fetches.
use smol_gpu.Prelude.{
  ℕ, ◌^◌, ◌<◌, ◌≡◌, ◌∙◌, refl, sym, ap, subst, Option, none, some, List, [], arith, length,
  get_elem?, Text, Bool,
}
use smol_gpu.Prelude.Checked.{Checked, some-injective}
use smol_gpu.Isa.Encode.{InstructionBits}
use smol_gpu.Gpu.Decoder.{decode}
use smol_gpu.Aslib.Syntax.{Program, Instruction}
use smol_gpu.Aslib.Program.{parsed, parse_program}
use smol_gpu.Aslib.Emitter.{translate_to_binary}
use smol_gpu.Aslib.Emitter.Meaning.Signals.{emitted_signals}
use smol_gpu.Aslib.Emitter.Assembled.{
  AreInBounds, parse_program-AreEmitted, length-AreEmitted, get_elem?-AreEmitted,
}
use smol_gpu.Aslib.Emitter.Intended.{intended, IsKept, emitted_signals-intended}
use smol_gpu.Aslib.DataReader
use smol_gpu.Aslib.DataReader.{DataFile, read_data}
use smol_gpu.Simlib.Store.{Store, value_at, find}
use smol_gpu.Simlib.Device.{Device}
use smol_gpu.Simlib.Simulation.{System, simulate, make_instruction_memory}
use smol_gpu.Simlib.Simulation.Steps.{simulate-SameProgram}
use smol_gpu.Simulator.{finished, set_up, outcome, run_words, run_source, run_data, with_data, main}
use smol_gpu.Simulator.Loading.{word_or, load_words-value_at}

module _ (d : Device) (done : Bool) (t : System d) where
  outcome-finished :
      (r : Checked (Bool × System d)) → outcome d r ≡ finished done t → r ≡ some (done, t)
  outcome-finished none h = cc
  outcome-finished (some (b, s)) h = cc

  -- The device has run on the words of the program.
  abbrev pub Runs : Program → Type 0
  Runs p =
      (ws : List InstructionBits) × (file_data : Option Store) × (translate_to_binary p ≡ some ws)
      × (simulate d 8 200 (set_up d file_data p ws) ≡ some (done, t))

  run_words-Runs :
      (file_data : Option Store) (p : Program) (r : Checked (List InstructionBits))
      → translate_to_binary p ≡ r
      → run_words d file_data p r ≡ finished done t
      → Runs p
  run_words-Runs file_data p none e h = cc
  run_words-Runs file_data p (some ws) e h = (ws, file_data, e, outcome-finished _ h)

  module _ (lines : List Text) (p : Program) (parses : parse_program lines ≡ some (parsed p)) where
    run_source-Runs :
        (file_data : Option Store) → run_source d file_data lines ≡ some (finished done t) → Runs p
    run_source-Runs file_data h =
        run_words-Runs file_data p _ refl (some-injective (rw parses at h))

    with_data-Runs :
        (data_file : Option (List Text))
        → with_data d lines data_file ≡ some (finished done t)
        → Runs p
    with_data-Runs none h = run_source-Runs none h
    with_data-Runs (some data_lines) h = by_file (read_data data_lines) h
      where
        by_file : (r : DataFile) → run_data d lines r ≡ some (finished done t) → Runs p
        by_file (DataReader.failed line) k = cc
        by_file (DataReader.loaded m) k = run_source-Runs (some m) k

    main-Runs :
        (data_file : Option (List Text)) → main d lines data_file ≡ some (finished done t) → Runs p
    unfolding main
    main-Runs = with_data-Runs

  Runs-value_at :
      (p : Program) (ws : List InstructionBits) (file_data : Option Store)
      → length ws < 2 ^ 32
      → simulate d 8 200 (set_up d file_data p ws) ≡ some (done, t)
      → (k : ℕ) → value_at k t.instruction_mem.memory ≡ word_or (get_elem? ws k) 0
  unfolding set_up make_instruction_memory value_at find
  Runs-value_at p ws file_data few ran k =
      simulate-SameProgram d 8 (omega arith) 200 (set_up d file_data p ws) t done ran k
      ∙ load_words-value_at ws 0 k k [] (omega (arith, few)) (omega arith)

-- The signals that the decoder reads from the word at the index of an instruction.
main-emitted_signals :
    (d : Device) (lines : List Text) (data_file : Option (List Text)) (p : Program)
    → parse_program lines ≡ some (parsed p)
    → AreInBounds p.label_mappings p.instructions
    → length p.instructions < 2 ^ 32
    → (done : Bool) (t : System d) → main d lines data_file ≡ some (finished done t)
    → (k : ℕ) (i : Instruction) → get_elem? p.instructions k ≡ some i
    → decode (value_at k t.instruction_mem.memory)
      ≡ emitted_signals p.label_mappings i.mnemonic.name i.operands
main-emitted_signals d lines data_file p parses bounds few done t ran k i there =
    let (ws, assembled, meant) = parse_program-AreEmitted lines p parses bounds in
    let (vs, file_data, words, simulated) = main-Runs d done t lines p parses data_file ran in
    let same : ws ≡ vs = some-injective (sym assembled ∙ words) in
    let (w, at_k, reads) = get_elem?-AreEmitted p.label_mappings p.instructions ws k meant there in
    let few_words : length vs < 2 ^ 32 =
      subst (λ (l : List InstructionBits). length l < 2 ^ 32) same
        (omega (arith, length-AreEmitted p.label_mappings p.instructions ws meant, few)) in
    let held = Runs-value_at d done t p vs file_data few_words simulated k in
    ap decode (
      held
      ∙ ap (λ (l : List InstructionBits). word_or (get_elem? l k) 0) (sym same)
      ∙ ap (λ (o : Option InstructionBits). word_or o 0) at_k)
    ∙ reads

-- In a run that finishes on a program of fewer than 2^32 instructions whose operands are in the bounds
-- of their fields, the word that the instruction memory has at the index of an instruction, at the end
-- of the run, is one that the decoder reads as the signals of `intended`, the operation of its mnemonic on
-- the registers and with the immediate that are written, loads and stores of all widths alike, where it has no `s.` prefix and is no SRAI or AUIPC, its immediate or label is below
-- the sign bit of its field, an amount of SRLI below 32, the offset of a store a multiple of 32 and that
-- of a jump even.
pub main-intended :
    (d : Device) (lines : List Text) (data_file : Option (List Text)) (p : Program)
    → parse_program lines ≡ some (parsed p)
    → AreInBounds p.label_mappings p.instructions
    → length p.instructions < 2 ^ 32
    → (done : Bool) (t : System d) → main d lines data_file ≡ some (finished done t)
    → (k : ℕ) (i : Instruction) → get_elem? p.instructions k ≡ some i
    → IsKept p.label_mappings i.mnemonic i.operands
    → decode (value_at k t.instruction_mem.memory) ≡ intended p.label_mappings i.mnemonic i.operands
main-intended d lines data_file p parses bounds few done t ran k i there kept =
    main-emitted_signals d lines data_file p parses bounds few done t ran k i there
    ∙ emitted_signals-intended p.label_mappings i.mnemonic i.operands kept
