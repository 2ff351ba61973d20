-- ===== src/Aslib/Program/Layout.antt =====
-- What the lines of a file declare: a description of the result of `parse_program` in
-- sim/aslib/parser.cpp without its running counters.
use smol_gpu.Prelude.{ℕ, ◌+◌, ◌≡◌, ◌⊎◌, Option, none, some, List, [], ◌∷◌, Text}
use smol_gpu.Aslib.Token.{Token}
use smol_gpu.Aslib.Lexer.{collect_tokens}
use smol_gpu.Aslib.Syntax.{
  Instruction, Line, just_label, blocks_directive, warps_directive, instruction,
}
use smol_gpu.Aslib.Parser.{ok, parse_line}

-- The lines of the syntax that the lines of a file are, without the blank ones.
pub data Reads : List Text → List Line → Type 0 where
  done : Reads [] []
  blank :
      {text : Text} {texts : List Text} {ls : List Line}
      → collect_tokens text ≡ some ([], [])
      → Reads texts ls
      → Reads (text ∷ texts) ls
  line :
      {text : Text} {texts : List Text} {t : Token} {ts : List Token} {l : Line} {ls : List Line}
      → collect_tokens text ≡ some (t ∷ ts, [])
      → parse_line (t ∷ ts) ≡ ok l
      → Reads texts ls
      → Reads (text ∷ texts) (l ∷ ls)

abbrev pub instructions_of : List Line → List Instruction
instructions_of [] = []
instructions_of (instruction i ∷ ls) = i ∷ instructions_of ls
instructions_of (just_label name ∷ ls) = instructions_of ls
instructions_of (blocks_directive n ∷ ls) = instructions_of ls
instructions_of (warps_directive n ∷ ls) = instructions_of ls

-- The number of words of a line.
abbrev pub size : Line → ℕ
size (instruction i) = 1
size (just_label name) = 0
size (blocks_directive n) = 0
size (warps_directive n) = 0

abbrev pub label_of : Line → Option Text
label_of (instruction i) = i.label
label_of (just_label name) = some name
label_of (blocks_directive n) = none
label_of (warps_directive n) = none

-- A line is labelled `name`, with `k` instructions before it.
abbrev pub Declares : List Line → Text → ℕ → Type 0
Declares [] name k = ⊥
Declares (l ∷ ls) name k =
    ((label_of l ≡ some name) × (k ≡ 0)) ⊎ ((j : ℕ) × Declares ls name j × (k ≡ size l + j))

-- The number of the last `.blocks`, or `b`.
abbrev pub blocks_from : Option ℕ → List Line → Option ℕ
blocks_from b [] = b
blocks_from b (blocks_directive n ∷ ls) = blocks_from (some n) ls
blocks_from b (warps_directive n ∷ ls) = blocks_from b ls
blocks_from b (just_label name ∷ ls) = blocks_from b ls
blocks_from b (instruction i ∷ ls) = blocks_from b ls

abbrev pub warps_from : Option ℕ → List Line → Option ℕ
warps_from b [] = b
warps_from b (blocks_directive n ∷ ls) = warps_from b ls
warps_from b (warps_directive n ∷ ls) = warps_from (some n) ls
warps_from b (just_label name ∷ ls) = warps_from b ls
warps_from b (instruction i ∷ ls) = warps_from b ls
