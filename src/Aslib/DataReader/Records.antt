-- ===== src/Aslib/DataReader/Records.antt =====
-- What a data file holds: the records of its lines, the later ones over the earlier.
use smol_gpu.Prelude.{
  ℕ, ◌≡◌, refl, ap, ◌∙◌, Option, none, some, List, [], ◌∷◌, ◌++◌, Text, ◌==◌, if◌then◌else◌,
}
use smol_gpu.Simlib.Store.{Store, write, find}
use smol_gpu.Aslib.DataReader.{
  parse_line, DataFile, loaded, failed, store_record, read_lines, read_data,
}

-- `rs` are the records of the lines, in order.
abbrev pub AreRecords : List Text → List (ℕ × ℕ) → Type 0
AreRecords [] [] = Unit
AreRecords [] (r ∷ rs) = ⊥
AreRecords (l ∷ ls) [] = ⊥
AreRecords (l ∷ ls) (r ∷ rs) = (parse_line l ≡ some r) × AreRecords ls rs

-- The value of the last record for `a`, or `before`.
abbrev pub last_value : ℕ → Option ℕ → List (ℕ × ℕ) → Option ℕ
last_value a before [] = before
last_value a before ((address, value) ∷ rs) =
    last_value a (if address == a then some value else before) rs

-- What `read_data` says of the lines.
abbrev pub Describes : Store → List Text → DataFile → Type 0
Describes memory lines (loaded m) =
    (rs : List (ℕ × ℕ)) × AreRecords lines rs
    × ((a : ℕ) → find a m ≡ last_value a (find a memory) rs)
Describes memory lines (failed line) =
    (rs : List (ℕ × ℕ)) × (before : List Text) × (after : List Text) × (lines
      ≡ before ++ line ∷ after)
    × AreRecords before rs
    × (parse_line line ≡ none)

read_lines-Describes :
    (lines : List Text) (memory : Store) → Describes memory lines (read_lines lines memory)
unfolding read_lines find
read_lines-Describes [] memory = ([], tt, λ a. refl)
read_lines-Describes (line ∷ lines) memory =
    by_record (parse_line line) refl (λ m. read_lines-Describes lines m)
  where
    later :
        (address value : ℕ) (r : DataFile)
        → parse_line line ≡ some (address, value)
        → Describes (write address value memory) lines r
        → Describes memory (line ∷ lines) r
    later address value (loaded m) e (rs, records, values) = (
      (address, value) ∷ rs,
      (e, records),
      λ a. values a ∙ ap (λ (o : Option ℕ). last_value a o rs) refl,
    )
    later address value (failed l) e (rs, before, after, parted, records, bad) = (
      (address, value) ∷ rs,
      line ∷ before,
      after,
      ap (λ (t : List Text). line ∷ t) parted,
      (e, records),
      bad,
    )

    by_record :
        (o : Option (ℕ × ℕ))
        → parse_line line ≡ o
        → ((m : Store) → Describes m lines (read_lines lines m))
        → Describes memory (line ∷ lines) (store_record o line memory (read_lines lines))
    by_record none e ih = ([], [], lines, refl, tt, e)
    by_record (some (address, value)) e ih =
        later address value (read_lines lines (write address value memory)) e
          (ih (write address value memory))

-- `read_data` loads a file all of whose lines are records, and at each address has the value of the
-- last record for it, and nothing where there is none; or it fails with the first line that is none.
pub read_data-Describes : (lines : List Text) → Describes [] lines (read_data lines)
unfolding read_data
read_data-Describes lines = read_lines-Describes lines []
