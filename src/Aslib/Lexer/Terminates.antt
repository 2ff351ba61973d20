-- ===== src/Aslib/Lexer/Terminates.antt =====
-- Lines on which the loop of `collect_tokens` ends.
use smol_gpu.Prelude.{
  ℕ, suc, ◌+◌, ◌*◌, ◌^◌, ◌<◌, ◌≤◌, ◌≡◌, subst, true, some, [], ◌∷◌, Text, Bool-cases, Option-cases,
  inl, inr, length, arith,
}
use native.Mathlib.Nat.{pow-suc, pow-le-pow_right}
use smol_gpu.Aslib.Chars.{is_numeric}
use smol_gpu.Aslib.Number.{digit_value, digit_run, value_of}
use smol_gpu.Aslib.Number.Overflow.{IsTooLarge}
use smol_gpu.Aslib.Lexer.{Lexer, Tokens, collect_tokens}
use smol_gpu.Aslib.Lexer.Hangs.{Reaches, here, step, collect_tokens-hangs_iff}
use smol_gpu.Aslib.Lexer.Suffix.{IsSuffix, same, later, IsSuffix-trans, next_token-IsSuffix}

-- No ten decimal digits stand one behind the other.
abbrev pub HasShortRuns : Text → Type 0
HasShortRuns [] = Unit
HasShortRuns (c ∷ cs) = (length (digit_run 10 (c ∷ cs)).0 < 10) × HasShortRuns cs

HasShortRuns-IsSuffix : {s t : Text} → IsSuffix s t → HasShortRuns s → HasShortRuns t
HasShortRuns-IsSuffix same short = short
HasShortRuns-IsSuffix (later h) (first, short) = HasShortRuns-IsSuffix h short

front : (s : Text) → HasShortRuns s → length (digit_run 10 s).0 < 10
unfolding digit_run
front [] short = omega arith
front (c ∷ cs) (first, short) = first

digit-lt : (c : ℕ) → is_numeric c 10 ≡ true → digit_value c < 10
unfolding is_numeric
digit-lt c h = ground (arith, h)

-- A run of digits stands for less than its length allows.
run-lt :
    (s : Text) (acc bound : ℕ)
    → acc < bound
    → value_of 10 acc (digit_run 10 s).0 < bound * 10 ^ length (digit_run 10 s).0
unfolding digit_run value_of
run-lt [] acc bound h = omega arith
run-lt (c ∷ cs) acc bound h = elim (Bool-cases (is_numeric c 10)) [
  | inl digit ↦
      let rest =
        run-lt cs (acc * 10 + digit_value c) (bound * 10) (omega (arith, digit-lt c digit)) in
      rw (digit, scale (length (digit_run 10 cs).0)) rest
  | inr other ↦ rw other (omega arith)
]
  where
    scale : (k : ℕ) → bound * 10 ^ suc k ≡ bound * 10 * 10 ^ k
    scale k = rw (pow-suc 10 k) (grind arith)

short-IsTooLarge : (s : Text) → HasShortRuns s → IsTooLarge s → ⊥
short-IsTooLarge s short large =
    let bounded : 10 ^ length (digit_run 10 s).0 ≤ 10 ^ 9 =
      pow-le-pow_right (omega arith) {j = 9} (omega (arith, front s short)) in
    omega (arith, run-lt s 0 1 (omega arith))

Reaches-IsSuffix : {l m : Lexer} → Reaches l m → IsSuffix l.source m.source
Reaches-IsSuffix here = same
Reaches-IsSuffix (step {l} e r) =
    IsSuffix-trans
      (subst (λ (x : _ × Lexer). IsSuffix l.source x.1.source) e (next_token-IsSuffix l))
      (Reaches-IsSuffix r)

-- On a line in which no ten decimal digits stand one behind the other, `collect_tokens` ends.
pub collect_tokens-ends :
    (source : Text) → HasShortRuns source → (r : Tokens) × (collect_tokens source ≡ some r)
collect_tokens-ends source short = elim (Option-cases (collect_tokens source)) [
  | inr ended ↦ ended
  | inl hangs ↦
      let (m, reached, stuck) = (collect_tokens-hangs_iff source).0 hangs in
      absurd (
        short-IsTooLarge m.source (HasShortRuns-IsSuffix (Reaches-IsSuffix reached) short)
          stuck.large)
]
