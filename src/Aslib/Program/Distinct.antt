-- ===== src/Aslib/Program/Distinct.antt =====
-- What keeps `parse_program` from visiting a line without an error: its label, or its directive, was
-- there before.
use smol_gpu.Prelude.{
  ℕ, ◌≡◌, refl, Bool, true, false, not, ◌&&◌, Bool-cases, inl, inr, Option, none, some, List, [],
  ◌∷◌, ◌++◌, Text, All, equal, arith,
}
use smol_gpu.Aslib.Error.{Message, duplicate_blocks, duplicate_warps}
use smol_gpu.Aslib.Syntax.{Line, just_label, blocks_directive, warps_directive, instruction}
use smol_gpu.Aslib.Labels.{Labels, lookup, contains, insert}
use smol_gpu.Aslib.Program.{
  State, initial, add_new_label, add_label, add_optional_label, report_if_set, visit,
}
use smol_gpu.Aslib.Program.Layout.{label_of}
use smol_gpu.Aslib.Program.Visit.{snoc-not_nil}

abbrev same_label : Option Text → Option Text → Bool
same_label none p = false
same_label (some a) none = false
same_label (some a) (some b) = equal a b

-- Two lines that a file cannot have both.
abbrev pub clash : Line → Line → Bool
clash (blocks_directive a) (blocks_directive b) = true
clash (warps_directive a) (warps_directive b) = true
clash l m = same_label (label_of l) (label_of m)

-- No two lines of the file clash.
abbrev pub AreDistinct : List Line → Type 0
AreDistinct [] = Unit
AreDistinct (l ∷ ls) = All (λ m. clash l m ≡ false) ls × AreDistinct ls

abbrev is_none : Option ℕ → Bool
is_none none = true
is_none (some n) = false

abbrev is_new : Option Text → Labels → Bool
is_new none m = true
is_new (some name) m = not (contains name m)

-- What `l` declares is not declared yet.
abbrev pub is_free : State → Line → Bool
is_free s (just_label name) = is_new (some name) s.label_mappings
is_free s (instruction i) = is_new i.label s.label_mappings
is_free s (blocks_directive n) = is_none s.block_count
is_free s (warps_directive n) = is_none s.warp_count

add_optional_label-clean :
    (o : Option Text) (s : State)
    → (add_optional_label o s).errors ≡ []
    → is_new o s.label_mappings ≡ true
unfolding add_label
add_optional_label-clean none s clean = refl
add_optional_label-clean (some name) s clean = by_test (contains name s.label_mappings) clean
  where
    by_test : (b : Bool) → (add_new_label b name s).errors ≡ [] → not b ≡ true
    by_test true k = absurd (snoc-not_nil _ _ k)
    by_test false k = refl

report_if_set-clean :
    (message : Message) (o : Option ℕ) (s : State)
    → (report_if_set message o s).errors ≡ []
    → is_none o ≡ true
report_if_set-clean message none s clean = refl
report_if_set-clean message (some n) s clean = absurd (snoc-not_nil _ _ clean)

-- A line that leaves no error was free.
pub visit-clean : (l : Line) (s : State) → (visit l s).errors ≡ [] → is_free s l ≡ true
unfolding visit
visit-clean (just_label name) s clean = add_optional_label-clean (some name) s clean
visit-clean (instruction i) s clean =
    add_optional_label-clean i.label (record s { instructions = s.instructions ++ i ∷ [] }) clean
visit-clean (blocks_directive n) s clean = report_if_set-clean _ s.block_count s clean
visit-clean (warps_directive n) s clean = report_if_set-clean _ s.warp_count s clean

-- The label is there, and all else as before.
record Adds (o : Option Text) (s t : State) : Type 0 where
  errors_are : t.errors ≡ s.errors
  new_are :
      (p : Option Text)
      → is_new p t.label_mappings ≡ is_new p s.label_mappings && not (same_label o p)
  blocks_are : t.block_count ≡ s.block_count
  warps_are : t.warp_count ≡ s.warp_count

is_new-insert :
    (name : Text) (c : ℕ) (m : Labels) (p : Option Text)
    → is_new p (insert name c m) ≡ is_new p m && not (same_label (some name) p)
unfolding contains lookup
is_new-insert name c m none = refl
is_new-insert name c m (some other) = elim (Bool-cases (equal name other)) [
  | inl same ↦ rw same (ground arith)
  | inr differ ↦ rw differ (ground arith)
]

add_optional_label-Adds :
    (o : Option Text) (s : State)
    → is_new o s.label_mappings ≡ true
    → Adds o s (add_optional_label o s)
unfolding add_label
add_optional_label-Adds none s new = record {
  errors_are = refl;
  new_are = λ p. ground arith;
  blocks_are = refl;
  warps_are = refl;
}
add_optional_label-Adds (some name) s new = by_test (contains name s.label_mappings) new
  where
    by_test : (b : Bool) → not b ≡ true → Adds (some name) s (add_new_label b name s)
    by_test true k = cc
    by_test false k = record {
      errors_are = refl;
      new_are = is_new-insert name s.instr_count s.label_mappings;
      blocks_are = refl;
      warps_are = refl;
    }

report_if_set-free :
    (message : Message) (o : Option ℕ) (s : State)
    → is_none o ≡ true
    → report_if_set message o s ≡ s
report_if_set-free message none s free = refl
report_if_set-free message (some n) s free = cc

-- The line is visited without an error of its own, and free is now what was and does not clash with it.
pub record IsVisited (l : Line) (s t : State) : Type 0 where
  pub errors_are : t.errors ≡ s.errors
  pub free_are : (m : Line) → is_free t m ≡ (is_free s m && not (clash l m))

and-true : (b : Bool) → b ≡ (b && not false)
and-true b = ground arith

same_label-none : (o : Option Text) → same_label o none ≡ false
same_label-none none = refl
same_label-none (some a) = refl

Adds-IsVisited :
    (l : Line) (o : Option Text) (s t : State)
    → ((m : Line) → clash l m ≡ same_label o (label_of m))
    → Adds o s t
    → IsVisited l s t
Adds-IsVisited l o s t labels h = record { errors_are = h.errors_are; free_are = free }
  where
    free : (m : Line) → is_free t m ≡ (is_free s m && not (clash l m))
    free (just_label name) = rw labels (h.new_are (some name))
    free (instruction i) = rw labels (h.new_are i.label)
    free (blocks_directive n) = rw (labels, same_label-none o, h.blocks_are) (and-true _)
    free (warps_directive n) = rw (labels, same_label-none o, h.warps_are) (and-true _)

after_blocks :
    (n : ℕ) (s : State)
    → (m : Line)
    → is_free (record s { block_count = some n }) m
      ≡ (is_free s m && not (clash (blocks_directive n) m))
after_blocks n s (just_label name) = and-true _
after_blocks n s (instruction i) = and-true _
after_blocks n s (blocks_directive k) = ground arith
after_blocks n s (warps_directive k) = and-true _

after_warps :
    (n : ℕ) (s : State)
    → (m : Line)
    → is_free (record s { warp_count = some n }) m
      ≡ (is_free s m && not (clash (warps_directive n) m))
after_warps n s (just_label name) = and-true _
after_warps n s (instruction i) = and-true _
after_warps n s (blocks_directive k) = and-true _
after_warps n s (warps_directive k) = ground arith

-- A line that is free is visited without an error of its own.
pub visit-IsVisited : (l : Line) (s : State) → is_free s l ≡ true → IsVisited l s (visit l s)
unfolding visit
visit-IsVisited (just_label name) s free =
    Adds-IsVisited (just_label name) (some name) s _ (λ m. refl)
      (add_optional_label-Adds (some name) s free)
visit-IsVisited (instruction i) s free =
    let h =
      add_optional_label-Adds i.label (record s { instructions = s.instructions ++ i ∷ [] }) free in
    Adds-IsVisited (instruction i) i.label s _ (λ m. refl)
      (record {
        errors_are = h.errors_are;
        new_are = h.new_are;
        blocks_are = h.blocks_are;
        warps_are = h.warps_are;
      })
visit-IsVisited (blocks_directive n) s free =
    rw (report_if_set-free duplicate_blocks s.block_count s free)
      (record { errors_are = refl; free_are = after_blocks n s })
visit-IsVisited (warps_directive n) s free =
    rw (report_if_set-free duplicate_warps s.warp_count s free)
      (record { errors_are = refl; free_are = after_warps n s })

is_new-nil : (o : Option Text) → is_new o [] ≡ true
unfolding contains lookup
is_new-nil none = refl
is_new-nil (some name) = refl

pub initially_free : (l : Line) → is_free initial l ≡ true
initially_free (just_label name) = is_new-nil (some name)
initially_free (instruction i) = is_new-nil i.label
initially_free (blocks_directive n) = refl
initially_free (warps_directive n) = refl
