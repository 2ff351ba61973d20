-- ===== src/Aslib/Lexer/Progress.antt =====
-- Each call of `next_token` leaves less text, or changes nothing in front of a number that is too
-- large; so `collect_tokens` ends, or no number of calls is enough.
use smol_gpu.Prelude.{
  ℕ, zero, suc, ◌≤◌, ◌<◌, ◌≡◌, ◌⊎◌, ◌↔◌, inl, inr, refl, Bool, true, false, not, ◌||◌, Option, none,
  some, [], ◌∷◌, length, arith, Text, Bool-cases, ◌==◌, if◌then◌else◌,
}
use mathlib.Core.Option
use smol_gpu.Prelude.Int.{ℤ}
use smol_gpu.Aslib.Chars.{is_whitespace, is_numeric, is_alphabetic}
use smol_gpu.Aslib.Error.{Expected, expected, unexpected}
use smol_gpu.Aslib.Number.{parse_num, digit_run, value_of}
use smol_gpu.Aslib.Number.Overflow.{IsTooLarge, Moves, parse_num-Moves}
use smol_gpu.Aslib.Token.{Token}
use smol_gpu.Aslib.Lexer.{
  Lexer, advance, chop_while, trim_whitespace, parse_directive, number_token, parse_number,
  is_keyword_char, parse_keyword, punctuation, found, token_at, next_token, push_result,
  collect_after, collect, start, collect_tokens,
}

chop_while-length :
    (p : ℕ → Bool) (col : ℕ) (s : Text) → length (chop_while p col s).1.source ≤ length s
unfolding chop_while
chop_while-length p col [] = omega arith
chop_while-length p col (c ∷ cs) = elim (Bool-cases (p c)) [
  | inl yes' ↦ rw yes' (omega (arith, chop_while-length p (advance col) cs))
  | inr no' ↦ rw no' (omega arith)
]

trim_whitespace-length : (col : ℕ) (s : Text) → length (trim_whitespace col s).source ≤ length s
unfolding trim_whitespace
trim_whitespace-length col [] = omega arith
trim_whitespace-length col (c ∷ cs) = ground (arith, trim_whitespace-length (advance col) cs)

-- The state behind a token of `s` found in column `col`: less text, or the same state, which
-- is so only in front of a number that is too large.
abbrev Advances : ℕ → Text → Lexer → Type 0
Advances col s l =
    (length l.source < length s) ⊎ ((l ≡ record { column_number = col; source = s }) × IsTooLarge s)

number_token-Advances :
    (col : ℕ) (s : Text) (r : Expected ℤ × Text)
    → Moves s r
    → Advances col s (number_token col s r).1
unfolding number_token
number_token-Advances col s (expected n, rest) h = inl h
number_token-Advances col s (unexpected e, rest) (inl h) = inl h
number_token-Advances col s (unexpected e, rest) (inr (same, large)) = inr (rw same, large)

is_alphabetic-is_keyword_char : (c : ℕ) → is_alphabetic c ≡ true → is_keyword_char c ≡ true
unfolding is_keyword_char is_alphabetic
is_alphabetic-is_keyword_char c h = ground arith

parse_keyword-shorter :
    (col c : ℕ) (cs : Text)
    → is_alphabetic c ≡ true
    → length (parse_keyword col (c ∷ cs)).1.source < length (c ∷ cs)
unfolding parse_keyword chop_while
parse_keyword-shorter col c cs h =
    rw (is_alphabetic-is_keyword_char c h)
      (omega (arith, chop_while-length is_keyword_char (advance col) cs))

punctuation-length :
    (c first : ℕ) (l : Lexer) → length (punctuation c first l).1.source ≤ length l.source
unfolding punctuation parse_directive
punctuation-length c first l =
    ground (arith, chop_while-length (λ c. not (is_whitespace c)) l.column_number l.source)

abbrev Steps : ℕ → Text → Option (Expected Token) × Lexer → Type 0
Steps col s (none, l) = Unit
Steps col s (some t, l) = Advances col s l

Steps-if :
    (col : ℕ) (s : Text) (b : Bool) (x y : Option (Expected Token) × Lexer)
    → (b ≡ true → Steps col s x)
    → (b ≡ false → Steps col s y)
    → Steps col s (if b then x else y)
Steps-if col s true x y p q = p refl
Steps-if col s false x y p q = q refl

token_at-Steps : (col : ℕ) (s : Text) → Steps col s (token_at col s)
unfolding token_at parse_number
token_at-Steps col [] = tt
token_at-Steps col (c ∷ cs) =
    Steps-if col (c ∷ cs) (c == b'#') _ _ (λ comment. tt)
      λ _.
        Steps-if col (c ∷ cs) (c == b'-' || is_numeric c 10) _ _
          (λ number.
            number_token-Advances col (c ∷ cs) (parse_num (c ∷ cs)) (parse_num-Moves c cs number))
          λ _.
            Steps-if col (c ∷ cs) (is_alphabetic c) _ _
              (λ word. inl (parse_keyword-shorter col c cs word))
              (λ _. inl (
                omega (
                  arith,
                  punctuation-length c col (record { column_number = advance col; source = cs }),
                )))

-- A text with a number at the front has no white space there.
trim_whitespace-IsTooLarge :
    (col : ℕ) (s : Text)
    → IsTooLarge s
    → trim_whitespace col s ≡ record { column_number = col; source = s }
unfolding trim_whitespace digit_run value_of is_numeric
trim_whitespace-IsTooLarge col [] large = absurd (omega arith)
trim_whitespace-IsTooLarge col (c ∷ cs) large = ground arith

-- Where `next_token` leaves no less text, it is in a state that it does not leave.
pub next_token-Steps :
    (l : Lexer) {t : Expected Token} {l' : Lexer}
    → next_token l ≡ (some t, l')
    → (length l'.source < length l.source) ⊎ ((next_token l' ≡ (some t, l')) × IsTooLarge l'.source)
unfolding next_token
next_token-Steps l {t} {l'} e =
    by_kind (rw e at (token_at-Steps trimmed.column_number trimmed.source))
  where
    trimmed : Lexer
    trimmed = trim_whitespace l.column_number l.source

    by_kind :
        Advances trimmed.column_number trimmed.source l'
        → (length l'.source < length l.source)
          ⊎ ((next_token l' ≡ (some t, l')) × IsTooLarge l'.source)
    by_kind (inl h) = inl (omega (arith, trim_whitespace-length l.column_number l.source))
    by_kind (inr (same, large)) = inr (
      rw same (
          rw (trim_whitespace-IsTooLarge trimmed.column_number trimmed.source large)
            (rw same at e)),
      rw same large,
    )

-- Such a state is never left.
pub collect_stalled :
    (l : Lexer) {t : Expected Token}
    → next_token l ≡ (some t, l)
    → (fuel : ℕ) → collect fuel l ≡ none
unfolding collect
collect_stalled l e zero = refl
collect_stalled l e (suc fuel) = rw e (rw (collect_stalled l e fuel))

pub map-eq_none {ℓ κ} :
    {A : Type ℓ} {B : Type κ} (f : A → B) (o : Option A) → Option.map f o ≡ none → o ≡ none
map-eq_none f none h = refl
map-eq_none f (some a) h = cc

-- One round: what holds of the rounds that follow in a shorter text holds with this one.
round_ends :
    (n fuel : ℕ) (l : Lexer) (r : Option (Expected Token) × Lexer)
    → next_token l ≡ r
    → length l.source < suc n
    → ((l' : Lexer) → length l'.source < n → collect n l' ≡ none → collect fuel l' ≡ none)
    → collect_after (collect n) r ≡ none
    → collect_after (collect fuel) r ≡ none
round_ends n fuel l (none, l') found h ih e = cc
round_ends n fuel l (some t, l') found h ih e = by_step (next_token-Steps l found)
  where
    by_step :
        (length l'.source < length l.source)
          ⊎ ((next_token l' ≡ (some t, l')) × IsTooLarge l'.source)
        → collect_after (collect fuel) (some t, l') ≡ none
    by_step (inl shorter) = rw (ih l' (omega arith) (map-eq_none (push_result t) (collect n l') e))
    by_step (inr (stalls, large)) = rw (collect_stalled l' stalls fuel)

-- A run that as many calls as the text has bytes, and one more, do not end is ended by none.
collect_ends :
    (n : ℕ) (l : Lexer)
    → length l.source < n
    → collect n l ≡ none
    → (fuel : ℕ) → collect fuel l ≡ none
unfolding collect
collect_ends zero l h e fuel = absurd (omega arith)
collect_ends (suc n) l h e zero = refl
collect_ends (suc n) l h e (suc fuel) =
    round_ends n fuel l (next_token l) refl h (λ l' k d. collect_ends n l' k d fuel) e

-- The bound on the calls of `next_token` in `collect_tokens` is enough: the loop has no result within it
-- exactly where it has none within any other bound.
pub collect_tokens-eq_none_iff :
    (source : Text)
    → (collect_tokens source ≡ none) ↔ ((fuel : ℕ) → collect fuel (start source) ≡ none)
unfolding collect_tokens
collect_tokens-eq_none_iff source = (
  collect_ends (suc (length source)) (start source) (omega arith),
  λ never. never (suc (length source)),
)
