-- ===== src/Simlib/DataMemory/Printing/Listing.antt =====
-- Which entries `print_memory` prints.
use smol_gpu.Prelude.{
  ℕ, zero, suc, ◌+◌, ◌-◌, ◌^◌, ◌<◌, ◌≡◌, refl, ap, ◌∙◌, true, false, Bool-cases, inl, inr, Option,
  some, List, [], ◌∷◌, Text, All, All-map, map, length, ◌==◌, ==_iff, ltb, leb, if◌then◌else◌,
  arith,
}
use smol_gpu.Prelude.Word.{u32}
use smol_gpu.Simlib.Store.{Store, find}
use smol_gpu.Simlib.DataMemory.{DataMemory}
use smol_gpu.Simlib.DataMemory.Printing.{put, entries, print_entry, print_entries, print_memory}

-- The keys go up.
abbrev pub IsAscending : Store → Type 0
IsAscending [] = Unit
IsAscending ((a, v) ∷ m) = All (λ e. a < e.0) m × IsAscending m

abbrev pub take : {A : Type 0} → ℕ → List A → List A
take zero xs = []
take (suc n) [] = []
take (suc n) (x ∷ xs) = x ∷ take n xs

put-above :
    (b address value : ℕ) (m : Store)
    → b < address
    → All (λ e. b < e.0) m
    → All (λ e. b < e.0) (put address value m)
unfolding put
put-above b address value [] h above = (h, tt)
put-above b address value ((a, v) ∷ m) h (first, above) = elim (Bool-cases (ltb address a)) [
  | inl below ↦ rw below (h, (first, above))
  | inr not_below ↦ elim (Bool-cases (address == a)) [
    | inl same ↦ rw (not_below, same) (h, above)
    | inr other ↦ rw (not_below, other) (first, put-above b address value m h above)
  ]
]

put-IsAscending :
    (address value : ℕ) (m : Store) → IsAscending m → IsAscending (put address value m)
unfolding put
put-IsAscending address value [] h = (tt, tt)
put-IsAscending address value ((a, v) ∷ m) (above, h) = elim (Bool-cases (ltb address a)) [
  | inl below ↦
      let lower : address < a = ground (arith, below) in
      rw below ((lower, All-map _ _ m (λ e (k : a < e.0). omega arith) above), (above, h))
  | inr not_below ↦ elim (Bool-cases (address == a)) [
    | inl same ↦ rw (not_below, same) (rw ((==_iff address a).0 same) above, h)
    | inr other ↦
        rw (not_below, other)
          (
            put-above a address value m (ground (arith, not_below, other)) above,
            put-IsAscending address value m h,
          )
  ]
]

entries-IsAscending : (m : Store) → IsAscending (entries m)
unfolding entries
entries-IsAscending [] = tt
entries-IsAscending ((address, value) ∷ m) =
    put-IsAscending address value (entries m) (entries-IsAscending m)

find-put :
    (k address value : ℕ) (m : Store)
    → find k (put address value m) ≡ (if address == k then some value else find k m)
unfolding put find
find-put k address value [] = refl
find-put k address value ((a, v) ∷ m) = ground (arith, find-put k address value m)

find-entries : (k : ℕ) (m : Store) → find k (entries m) ≡ find k m
unfolding entries find
find-entries k [] = refl
find-entries k ((address, value) ∷ m) =
    find-put k address value (entries m)
    ∙ ap (λ (o : Option ℕ). if address == k then some value else o) (find-entries k m)

next_index : (i : ℕ) → i + 1 < 2 ^ 32 → u32 (i + 1) ≡ i + 1
next_index i few = omega arith

stops : (max i : ℕ) → i + 1 < 2 ^ 32 → 0 ≡ max - suc i → leb max (u32 (i + 1)) ≡ true
stops max i few e = rw (next_index i few) (ground (arith, e))

goes_on : (max i n : ℕ) → i + 1 < 2 ^ 32 → suc n ≡ max - suc i → leb max (u32 (i + 1)) ≡ false
goes_on max i n few e = rw (next_index i few) (ground (arith, e))

print_entries-take :
    (max i n : ℕ) (es : Store)
    → i + length es < 2 ^ 32
    → n ≡ max - suc i
    → print_entries max i es ≡ map print_entry (take n es)
unfolding print_entries
print_entries-take max i zero [] few e = refl
print_entries-take max i (suc n) [] few e = refl
print_entries-take max i zero (x ∷ es) few e = rw (stops max i (omega (arith, few)) e) refl
print_entries-take max i (suc n) (x ∷ es) few e =
    rw (goes_on max i n (omega (arith, few)) e, next_index i (omega (arith, few)))
      (ap (λ (ls : List Text). print_entry x ∷ ls)
        (print_entries-take max (i + 1) n es (omega (arith, few)) (omega (arith, few))))

-- `es` are the entries of `m`: each key once, in ascending order.
pub record Lists (es m : Store) : Type 0 where
  pub ascends : IsAscending es
  pub values_are : (k : ℕ) → find k es ≡ find k m

-- For a memory of less than 2^32 entries `print_memory` prints the entries in ascending order of their
-- addresses, those at the front, and with a bound of `max_num_lines` one less than that.
pub print_memory-Lists :
    (max_num_lines : ℕ) (m : DataMemory)
    → length (entries m.memory) < 2 ^ 32
    → (es : Store) × Lists es m.memory
      × (print_memory max_num_lines m ≡ map print_entry (take (max_num_lines - 1) es))
unfolding print_memory
print_memory-Lists max_num_lines m few = (
  entries m.memory,
  record { ascends = entries-IsAscending m.memory; values_are = λ k. find-entries k m.memory },
  print_entries-take max_num_lines 0 (max_num_lines - 1) (entries m.memory) (omega (arith, few))
      (omega arith),
)
