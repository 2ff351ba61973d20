-- ===== src/Aslib/Program/Visit.antt =====
-- A line that is visited without an error extends the program by what it declares.
use smol_gpu.Prelude.{
  ℕ, ◌+◌, ◌^◌, ◌<◌, ◌≡◌, ◌⊎◌, sym, ap, ◌∙◌, equal, equal_iff, inl, inr, refl, Bool, true, false,
  Bool-cases, Option, none, some, List, [], ◌∷◌, ◌++◌, append-nil, arith, Text,
}
use smol_gpu.Prelude.Checked.{some-injective}
use smol_gpu.Prelude.Word.{u32}
use smol_gpu.Aslib.Error.{Message}
use smol_gpu.Aslib.Syntax.{Line, just_label, blocks_directive, warps_directive, instruction}
use smol_gpu.Aslib.Labels.{Labels, lookup, contains, insert, lookup-insert_self, lookup-insert_new}
use smol_gpu.Aslib.Program.{
  State, add_new_label, add_label, add_optional_label, report_if_set, visit,
}
use smol_gpu.Aslib.Program.Layout.{instructions_of, size, label_of, blocks_from, warps_from}

-- The label of a line, if any, is bound to `c`, and nothing else changes.
pub record Binds (o : Option Text) (c : ℕ) (m n : Labels) : Type 0 where
  pub keeps : (name : Text) (v : ℕ) → lookup name m ≡ some v → lookup name n ≡ some v
  pub binds : (name : Text) → o ≡ some name → lookup name n ≡ some c
  pub bound :
      (name : Text) (v : ℕ)
      → lookup name n ≡ some v
      → (lookup name m ≡ some v) ⊎ ((o ≡ some name) × (v ≡ c))

-- `t` is `s` after the line `l`.
pub record Step (s : State) (l : Line) (t : State) : Type 0 where
  pub instructions_are : t.instructions ≡ s.instructions ++ instructions_of (l ∷ [])
  pub labels_are : Binds (label_of l) s.instr_count s.label_mappings t.label_mappings
  pub count_is : t.instr_count ≡ u32 (s.instr_count + size l)
  pub blocks_are : t.block_count ≡ blocks_from s.block_count (l ∷ [])
  pub warps_are : t.warp_count ≡ warps_from s.warp_count (l ∷ [])

-- The counter is that of a `uint32_t`.
abbrev pub IsCounting : State → Type 0
IsCounting s = s.instr_count < 2 ^ 32

pub snoc-not_nil : {A : Type 0} (xs : List A) (x : A) → xs ++ x ∷ [] ≡ [] → ⊥
snoc-not_nil [] x h = cc
snoc-not_nil (y ∷ ys) x h = cc

nothing-Binds : (c : ℕ) (m : Labels) → Binds none c m m
nothing-Binds c m = record {
  keeps = λ name v h. h;
  binds = λ name e. cc;
  bound = λ name v h. inl h;
}

newest_or_older :
    (name other : Text) (c : ℕ) (m : Labels) {v : ℕ}
    → lookup other (insert name c m) ≡ some v
    → (lookup other m ≡ some v) ⊎ ((some name ≡ some other) × (v ≡ c))
unfolding lookup
newest_or_older name other c m h = elim (Bool-cases (equal name other)) [
  | inl same ↦ inr (ap some ((equal_iff name other).0 same), sym (some-injective (rw same at h)))
  | inr differ ↦ inl (rw differ at h)
]

insert-Binds :
    (name : Text) (c : ℕ) (m : Labels)
    → contains name m ≡ false
    → Binds (some name) c m (insert name c m)
insert-Binds name c m fresh = record {
  keeps = λ other v h. lookup-insert_new name other c m fresh h;
  binds = λ other same. rw (← some-injective same) (lookup-insert_self name c m);
  bound = λ other v h. newest_or_older name other c m h;
}

-- `t` is `s` with the label `o` at its place.
record Labelled (o : Option Text) (s t : State) : Type 0 where
  labels_are : Binds o s.instr_count s.label_mappings t.label_mappings
  instructions_are : t.instructions ≡ s.instructions
  count_is : t.instr_count ≡ s.instr_count
  blocks_are : t.block_count ≡ s.block_count
  warps_are : t.warp_count ≡ s.warp_count

add_new_label-Labelled :
    (name : Text) (s : State) (b : Bool)
    → contains name s.label_mappings ≡ b
    → (add_new_label b name s).errors ≡ []
    → Labelled (some name) s (add_new_label b name s)
add_new_label-Labelled name s true there clean = absurd (snoc-not_nil _ _ clean)
add_new_label-Labelled name s false fresh clean = record {
  labels_are = insert-Binds name s.instr_count s.label_mappings fresh;
  instructions_are = refl;
  count_is = refl;
  blocks_are = refl;
  warps_are = refl;
}

add_optional_label-Labelled :
    (o : Option Text) (s : State)
    → (add_optional_label o s).errors ≡ []
    → Labelled o s (add_optional_label o s)
unfolding add_label
add_optional_label-Labelled none s clean = record {
  labels_are = nothing-Binds s.instr_count s.label_mappings;
  instructions_are = refl;
  count_is = refl;
  blocks_are = refl;
  warps_are = refl;
}
add_optional_label-Labelled (some name) s clean =
    add_new_label-Labelled name s (contains name s.label_mappings) refl clean

report_if_set-same :
    (message : Message) (o : Option ℕ) (s : State)
    → (report_if_set message o s).errors ≡ []
    → report_if_set message o s ≡ s
report_if_set-same message none s clean = refl
report_if_set-same message (some n) s clean = absurd (snoc-not_nil _ _ clean)

-- A line that is visited without an error extends the state by what it declares.
pub visit-Step :
    (l : Line) (s : State) → IsCounting s → (visit l s).errors ≡ [] → Step s l (visit l s)
unfolding visit
visit-Step (just_label name) s counting clean =
    let h = add_optional_label-Labelled (some name) s clean in
    record {
      instructions_are = h.instructions_are ∙ sym (append-nil s.instructions);
      labels_are = h.labels_are;
      count_is = omega (arith, h.count_is);
      blocks_are = h.blocks_are;
      warps_are = h.warps_are;
    }
visit-Step (instruction i) s counting clean =
    let h =
      add_optional_label-Labelled i.label (record s { instructions = s.instructions ++ i ∷ [] })
        clean in
    record {
      instructions_are = h.instructions_are;
      labels_are = h.labels_are;
      count_is = omega (arith, h.count_is);
      blocks_are = h.blocks_are;
      warps_are = h.warps_are;
    }
visit-Step (blocks_directive n) s counting clean = rw (report_if_set-same _ _ s clean) (record {
  instructions_are = sym (append-nil s.instructions);
  labels_are = nothing-Binds s.instr_count s.label_mappings;
  count_is = omega arith;
  blocks_are = refl;
  warps_are = refl;
})
visit-Step (warps_directive n) s counting clean = rw (report_if_set-same _ _ s clean) (record {
  instructions_are = sym (append-nil s.instructions);
  labels_are = nothing-Binds s.instr_count s.label_mappings;
  count_is = omega arith;
  blocks_are = refl;
  warps_are = refl;
})
