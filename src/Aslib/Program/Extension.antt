-- ===== src/Aslib/Program/Extension.antt =====
-- A sequence of lines that is visited without an error extends the program by what it declares.
use smol_gpu.Prelude.{
  ℕ, ◌+◌, ◌^◌, ◌<◌, ◌≡◌, ◌⊎◌, inl, inr, refl, sym, ap, ◌∙◌, Option, some, List, [], ◌∷◌, ◌++◌,
  append-nil, append_assoc, arith, Text,
}
use smol_gpu.Prelude.Word.{u32}
use smol_gpu.Aslib.Syntax.{Line, just_label, blocks_directive, warps_directive, instruction}
use smol_gpu.Aslib.Labels.{lookup}
use smol_gpu.Aslib.Program.{State}
use smol_gpu.Aslib.Program.Layout.{instructions_of, size, Declares, blocks_from, warps_from}
use smol_gpu.Aslib.Program.Visit.{Step}

-- `t` is `s` extended by what `ls` declare.
pub record Extends (s : State) (ls : List Line) (t : State) : Type 0 where
  pub instructions_are : t.instructions ≡ s.instructions ++ instructions_of ls
  pub keeps :
      (name : Text) (v : ℕ)
      → lookup name s.label_mappings ≡ some v
      → lookup name t.label_mappings ≡ some v
  pub declares :
      (name : Text) (k : ℕ)
      → Declares ls name k
      → lookup name t.label_mappings ≡ some (u32 (s.instr_count + k))
  pub declared :
      (name : Text) (v : ℕ)
      → lookup name t.label_mappings ≡ some v
      → (lookup name s.label_mappings ≡ some v)
        ⊎ ((k : ℕ) × Declares ls name k × (v ≡ u32 (s.instr_count + k)))
  pub blocks_are : t.block_count ≡ blocks_from s.block_count ls
  pub warps_are : t.warp_count ≡ warps_from s.warp_count ls

pub nothing-Extends : (s : State) → Extends s [] s
nothing-Extends s = record {
  instructions_are = sym (append-nil s.instructions);
  keeps = λ name v h. h;
  declares = λ name k h. absurd h;
  declared = λ name v h. inl h;
  blocks_are = refl;
  warps_are = refl;
}

instructions_of-cons :
    (l : Line) (ls : List Line)
    → instructions_of (l ∷ ls) ≡ instructions_of (l ∷ []) ++ instructions_of ls
instructions_of-cons (instruction i) ls = refl
instructions_of-cons (just_label name) ls = refl
instructions_of-cons (blocks_directive n) ls = refl
instructions_of-cons (warps_directive n) ls = refl

blocks_from-cons :
    (b : Option ℕ) (l : Line) (ls : List Line)
    → blocks_from b (l ∷ ls) ≡ blocks_from (blocks_from b (l ∷ [])) ls
blocks_from-cons b (instruction i) ls = refl
blocks_from-cons b (just_label name) ls = refl
blocks_from-cons b (blocks_directive n) ls = refl
blocks_from-cons b (warps_directive n) ls = refl

warps_from-cons :
    (b : Option ℕ) (l : Line) (ls : List Line)
    → warps_from b (l ∷ ls) ≡ warps_from (warps_from b (l ∷ [])) ls
warps_from-cons b (instruction i) ls = refl
warps_from-cons b (just_label name) ls = refl
warps_from-cons b (blocks_directive n) ls = refl
warps_from-cons b (warps_directive n) ls = refl

module _ (s : State) (l : Line) (t : State) (ls : List Line) (u : State) (step : Step s l t)
    (rest : Extends t ls u) where
  shifted : (j : ℕ) → u32 (t.instr_count + j) ≡ u32 (s.instr_count + (size l + j))
  shifted j = omega (arith, step.count_is)

  step-Declares :
      s.instr_count < 2 ^ 32
      → (name : Text) (k : ℕ) → Declares (l ∷ ls) name k
      → lookup name u.label_mappings ≡ some (u32 (s.instr_count + k))
  step-Declares counting name k (inl (same, first)) =
      rest.keeps name _ (step.labels_are.binds name same) ∙ ap some (omega (arith, first))
  step-Declares counting name k (inr (j, later, e)) =
      rest.declares name j later
      ∙ ap some (shifted j ∙ ap (λ (n : ℕ). u32 (s.instr_count + n)) (sym e))

  step-Declared :
      s.instr_count < 2 ^ 32
      → (name : Text) (v : ℕ) → lookup name u.label_mappings ≡ some v
      → (lookup name s.label_mappings ≡ some v)
        ⊎ ((k : ℕ) × Declares (l ∷ ls) name k × (v ≡ u32 (s.instr_count + k)))
  step-Declared counting name v h = elim (rest.declared name v h) [
    | inl before ↦ elim (step.labels_are.bound name v before) [
      | inl older ↦ inl older
      | inr (same, e) ↦ inr (0, inl (same, refl), omega (arith, e))
    ]
    | inr (j, later, e) ↦ inr (size l + j, inr (j, later, refl), e ∙ shifted j)
  ]

  pub cons-Extends : s.instr_count < 2 ^ 32 → Extends s (l ∷ ls) u
  cons-Extends counting = record {
    instructions_are =
        rw (rest.instructions_are, step.instructions_are, instructions_of-cons l ls)
          (append_assoc s.instructions (instructions_of (l ∷ [])) (instructions_of ls));
    keeps = λ name v h. rest.keeps name v (step.labels_are.keeps name v h);
    declares = step-Declares counting;
    declared = step-Declared counting;
    blocks_are = rw (rest.blocks_are, step.blocks_are) (sym (blocks_from-cons s.block_count l ls));
    warps_are = rw (rest.warps_are, step.warps_are) (sym (warps_from-cons s.warp_count l ls));
  }
