-- ===== src/Simulator/Loading.antt =====
-- The loop of sim/main.cpp that puts the machine words into the instruction memory.
use smol_gpu.Prelude.{
  ℕ, zero, suc, ◌+◌, ◌^◌, ◌<◌, ◌≡◌, ◌∙◌, refl, ap, Option, none, some, List, [], ◌∷◌, arith, length,
  get_elem?,
}
use smol_gpu.Prelude.Word.{u32}
use smol_gpu.Isa.Encode.{InstructionBits}
use smol_gpu.Simlib.Store.{Store, write, value_at, value_at-write}
use smol_gpu.Simulator.{load_words}

abbrev pub word_or : Option InstructionBits → ℕ → ℕ
word_or none v = v
word_or (some w) v = w.word

next_index : (i n : ℕ) → i + suc n < 2 ^ 32 → u32 (i + 1) ≡ i + 1
next_index i n small = omega arith

load_words-below :
    (ws : List InstructionBits) (i a : ℕ) (m : Store)
    → i + length ws < 2 ^ 32
    → a < i
    → value_at a (load_words i ws m) ≡ value_at a m
unfolding load_words
load_words-below [] i a m small below = refl
load_words-below (w ∷ ws) i a m small below = rw (next_index i (length ws) small) (
    load_words-below ws (i + 1) a (write i w.word m) (omega (arith, small)) (omega arith)
    ∙ (value_at-write a i w.word m ∙ ground (arith, below)))

value_at-write_same : (a i v : ℕ) (m : Store) → a ≡ i → value_at a (write i v m) ≡ v
value_at-write_same a i v m e = value_at-write a i v m ∙ ground (arith, e)

value_at-write_other : (a i v : ℕ) (m : Store) → i < a → value_at a (write i v m) ≡ value_at a m
value_at-write_other a i v m h = value_at-write a i v m ∙ ground (arith, h)

-- From `i` on the memory has the words, and behind them what it had.
pub load_words-value_at :
    (ws : List InstructionBits) (i k a : ℕ) (m : Store)
    → i + length ws < 2 ^ 32
    → a ≡ i + k
    → value_at a (load_words i ws m) ≡ word_or (get_elem? ws k) (value_at a m)
unfolding load_words
load_words-value_at [] i k a m small e = refl
load_words-value_at (w ∷ ws) i zero a m small e = rw (next_index i (length ws) small) (
    load_words-below ws (i + 1) a (write i w.word m) (omega (arith, small)) (omega (arith, e))
    ∙ value_at-write_same a i w.word m (omega (arith, e)))
load_words-value_at (w ∷ ws) i (suc k) a m small e = rw (next_index i (length ws) small) (
    load_words-value_at ws (i + 1) k a (write i w.word m) (omega (arith, small)) (omega (arith, e))
    ∙ ap (word_or (get_elem? ws k)) (value_at-write_other a i w.word m (omega (arith, e))))
