-- ===== src/Aslib/Labels.antt =====
-- `std::unordered_map<std::string_view, std::uint32_t>`, as the assembler uses it: an association list
-- with the last insertion in front. The order of iteration is not modelled.
use smol_gpu.Prelude.{
  ℕ, Bool, true, false, Option, none, some, List, [], ◌∷◌, ◌≡◌, if◌then◌else◌, Text, equal,
  equal_refl, equal_iff, Bool-cases, inl, inr,
}

abbrev pub Labels : Type 0
Labels = List (Text × ℕ)

-- `at`, with `none` for the key that is missing
unfoldable pub lookup : Text → Labels → Option ℕ
lookup name [] = none
lookup name ((j, v) ∷ m) = if equal j name then some v else lookup name m

unfoldable pub contains : Text → Labels → Bool
contains name m = elim (lookup name m) [ some v ↦ true | none ↦ false ]

-- `m[name] = v` for a key that is not there yet
abbrev pub insert : Text → ℕ → Labels → Labels
insert name v m = (name, v) ∷ m

pub lookup-insert_self : (name : Text) (v : ℕ) (m : Labels) → lookup name (insert name v m) ≡ some v
unfolding lookup
lookup-insert_self name v m = rw equal_refl

-- An insertion under a new key keeps what the others give.
pub lookup-insert_new :
    (name j : Text) {k : ℕ} (v : ℕ) (m : Labels)
    → contains name m ≡ false
    → lookup j m ≡ some k
    → lookup j (insert name v m) ≡ some k
unfolding lookup contains
lookup-insert_new name j v m fresh h = elim (Bool-cases (equal name j)) [
  | inl same ↦ absurd (absent (rw (← (equal_iff name j).0 same) at h) fresh)
  | inr other ↦ rw other h
]
  where
    absent : {k : ℕ} → lookup name m ≡ some k → contains name m ≡ false → ⊥
    absent e f = cc (rw (e, contains) at f)
