-- ===== src/Aslib/Lexer/Suffix.antt =====
-- What the lexer leaves of a text is an end of it.
use smol_gpu.Prelude.{
  ℕ, ◌≡◌, refl, sym, ap, subst, Bool, true, false, not, ◌||◌, [], ◌∷◌, ◌++◌, Text, Bool-cases, inl,
  inr, ◌==◌, if◌then◌else◌, ltb, ◌^◌, ◌-◌, arith,
}
use smol_gpu.Prelude.Int.{ℤ, pos, neg}
use smol_gpu.Aslib.Chars.{is_whitespace, is_numeric}
use smol_gpu.Aslib.Error.{result_out_of_range, Expected, expected, unexpected}
use smol_gpu.Aslib.Number.{
  value_of, FromChars, parsed, failed, digit_run, from_run, from_chars, Scan, clean, bad,
  push_digit, scan, finish_number, from_scan, parse_integral, parse_magnitude, parse_negative,
  parse_num,
}
use smol_gpu.Aslib.Lexer.{
  Lexer, advance, chop_while, trim_whitespace, parse_directive, number_token, parse_number,
  is_keyword_char, parse_keyword, punctuation, token_at, next_token,
}

-- `t` is `s` without some bytes at the front.
pub data IsSuffix : Text → Text → Type 0 where
  same : {s : Text} → IsSuffix s s
  later : {c : ℕ} {s t : Text} → IsSuffix s t → IsSuffix (c ∷ s) t

pub IsSuffix-trans : {s t u : Text} → IsSuffix s t → IsSuffix t u → IsSuffix s u
IsSuffix-trans same k = k
IsSuffix-trans (later h) k = later (IsSuffix-trans h k)

append-IsSuffix : (s : Text) {t u : Text} → IsSuffix t u → IsSuffix (s ++ t) u
append-IsSuffix [] h = h
append-IsSuffix (c ∷ s) h = later (append-IsSuffix s h)

IsSuffix-append : {s t : Text} (u : Text) → IsSuffix s t → IsSuffix (s ++ u) (t ++ u)
IsSuffix-append u same = same
IsSuffix-append u (later h) = later (IsSuffix-append u h)

-- What holds of both branches.
branches : {A : Type 0} (P : A → Type 0) (b : Bool) (x y : A) → P x → P y → P (if b then x else y)
branches P true x y p q = p
branches P false x y p q = q

chop_while-IsSuffix : (p : ℕ → Bool) (col : ℕ) (s : Text) → IsSuffix s (chop_while p col s).1.source
unfolding chop_while
chop_while-IsSuffix p col [] = same
chop_while-IsSuffix p col (c ∷ cs) = elim (Bool-cases (p c)) [
  | inl taken ↦ rw taken (later (chop_while-IsSuffix p (advance col) cs))
  | inr other ↦ rw other same
]

trim_whitespace-IsSuffix : (col : ℕ) (s : Text) → IsSuffix s (trim_whitespace col s).source
unfolding trim_whitespace
trim_whitespace-IsSuffix col [] = same
trim_whitespace-IsSuffix col (c ∷ cs) =
    branches (λ (l : Lexer). IsSuffix (c ∷ cs) l.source) _ _ _
      (later (trim_whitespace-IsSuffix (advance col) cs)) same

-- The scanned text is cut in two, and the end is left.
abbrev Parts : Text → Scan → Type 0
Parts s (clean taken rest) = s ≡ taken ++ rest
Parts s (bad taken digit rest) = s ≡ taken ++ rest

Parts-push : (c : ℕ) (s : Text) (r : Scan) → Parts s r → Parts (c ∷ s) (push_digit c r)
Parts-push c s (clean taken rest) h = ap (λ (t : Text). c ∷ t) h
Parts-push c s (bad taken digit rest) h = ap (λ (t : Text). c ∷ t) h

scan-Parts : (base : ℕ) (s : Text) → Parts s (scan base s)
unfolding scan
scan-Parts base [] = refl
scan-Parts base (c ∷ cs) = elim (Bool-cases (is_numeric c 16)) [
  | inl hex ↦ elim (Bool-cases (is_numeric c base)) [
    | inl digit ↦ rw (hex, digit) (Parts-push c cs (scan base cs) (scan-Parts base cs))
    | inr other ↦ rw (hex, other) refl
  ]
  | inr other ↦ rw other refl
]

digit_run-IsSuffix : (base : ℕ) (s : Text) → IsSuffix s (digit_run base s).1
unfolding digit_run
digit_run-IsSuffix base [] = same
digit_run-IsSuffix base (c ∷ cs) = elim (Bool-cases (is_numeric c base)) [
  | inl digit ↦ rw digit (later (digit_run-IsSuffix base cs))
  | inr other ↦ rw other same
]

-- What `from_chars` leaves.
abbrev Leaves : Text → FromChars → Type 0
Leaves s (failed ec) = Unit
Leaves s (parsed n left) = IsSuffix s left

from_run-Leaves :
    (negative : Bool) (base : ℕ) (run rest s : Text)
    → IsSuffix s rest
    → Leaves s (from_run negative base run rest)
from_run-Leaves negative base [] rest s h = tt
from_run-Leaves negative base (d ∷ ds) rest s h =
    branches (Leaves s) (ltb (if negative then 2 ^ 31 else 2 ^ 31 - 1) (value_of base 0 (d ∷ ds)))
      (failed result_out_of_range)
      (parsed (if negative then neg (value_of base 0 (d ∷ ds)) else pos (value_of base 0 (d ∷ ds)))
        rest)
      tt h

from_chars-Leaves : (base : ℕ) (s : Text) → Leaves s (from_chars base s)
unfolding from_chars
from_chars-Leaves base [] = tt
from_chars-Leaves base (c ∷ cs) = elim (Bool-cases (c == b'-')) [
  | inl sign ↦ rw sign (
      from_run-Leaves true base (digit_run base cs).0 (digit_run base cs).1 (c ∷ cs)
        (later (digit_run-IsSuffix base cs)))
  | inr plain ↦ rw plain (
      from_run-Leaves false base (digit_run base (c ∷ cs)).0 (digit_run base (c ∷ cs)).1 (c ∷ cs)
        (digit_run-IsSuffix base (c ∷ cs)))
]

finish_number-IsSuffix :
    (negative : Bool) (taken rest : Text) (r : FromChars)
    → Leaves taken r
    → IsSuffix (taken ++ rest) (finish_number negative (taken ++ rest) taken rest r).1
finish_number-IsSuffix negative taken rest (failed ec) h = same
finish_number-IsSuffix negative taken rest (parsed n left) h = IsSuffix-append rest h

from_scan-IsSuffix :
    (negative : Bool) (base : ℕ) (s : Text) (r : Scan)
    → Parts s r
    → IsSuffix s (from_scan negative base s r).1
from_scan-IsSuffix negative base s (bad taken digit rest) h =
    subst (λ (x : Text). IsSuffix x rest) (sym h) (append-IsSuffix taken same)
from_scan-IsSuffix negative base s (clean taken rest) h =
    subst (λ (x : Text). IsSuffix x (finish_number negative x taken rest (from_chars base taken)).1)
      (sym h) (finish_number-IsSuffix negative taken rest _ (from_chars-Leaves base taken))

parse_integral-IsSuffix :
    (negative : Bool) (base : ℕ) (s : Text) → IsSuffix s (parse_integral negative base s).1
unfolding parse_integral
parse_integral-IsSuffix negative base s = from_scan-IsSuffix negative base s _ (scan-Parts base s)

-- The text that a function leaves of `s` is an end of it.
abbrev Keeps : Text → Expected ℤ × Text → Type 0
Keeps s r = IsSuffix s r.1

parse_magnitude-IsSuffix : (negative : Bool) (s : Text) → IsSuffix s (parse_magnitude negative s).1
unfolding parse_magnitude
parse_magnitude-IsSuffix negative [] = parse_integral-IsSuffix negative 10 []
parse_magnitude-IsSuffix negative (c ∷ []) = parse_integral-IsSuffix negative 10 (c ∷ [])
parse_magnitude-IsSuffix negative (c ∷ d ∷ cs) =
    by_marks (c == b'0') (d == b'x' || d == b'X') (d == b'b' || d == b'B')
  where
    by_marks :
        (zero_first hex binary : Bool)
        → let r =
            if zero_first
            then (if hex
                then parse_integral negative 16 cs
                else if binary
                then parse_integral negative 2 cs
                else parse_integral negative 8 (c ∷ d ∷ cs))
            else parse_integral negative 10 (c ∷ d ∷ cs) in
          IsSuffix (c ∷ d ∷ cs) r.1
    by_marks true true binary = later (later (parse_integral-IsSuffix negative 16 cs))
    by_marks true false true = later (later (parse_integral-IsSuffix negative 2 cs))
    by_marks true false false = parse_integral-IsSuffix negative 8 (c ∷ d ∷ cs)
    by_marks false hex binary = parse_integral-IsSuffix negative 10 (c ∷ d ∷ cs)

parse_negative-IsSuffix : (s : Text) → IsSuffix s (parse_negative s).1
parse_negative-IsSuffix [] = same
parse_negative-IsSuffix (c ∷ cs) = parse_magnitude-IsSuffix true (c ∷ cs)

parse_num-IsSuffix : (s : Text) → IsSuffix s (parse_num s).1
unfolding parse_num
parse_num-IsSuffix [] = same
parse_num-IsSuffix (c ∷ cs) =
    let negative : IsSuffix (c ∷ cs) (parse_negative cs).1 = later (parse_negative-IsSuffix cs) in
    let plain = parse_magnitude-IsSuffix false (c ∷ cs) in ground arith

number_token-IsSuffix :
    (col : ℕ) (s : Text) (r : Expected ℤ × Text)
    → Keeps s r
    → IsSuffix s (number_token col s r).1.source
unfolding number_token
number_token-IsSuffix col s (expected n, rest) h = h
number_token-IsSuffix col s (unexpected e, rest) h = h

punctuation-IsSuffix :
    (c first : ℕ) (l : Lexer) → IsSuffix l.source (punctuation c first l).1.source
unfolding punctuation parse_directive
punctuation-IsSuffix c first l =
    let chopped = chop_while-IsSuffix (λ c. not (is_whitespace c)) l.column_number l.source in
    let kept : IsSuffix l.source l.source = same in ground arith

token_at-IsSuffix : (col : ℕ) (s : Text) → IsSuffix s (token_at col s).1.source
unfolding token_at parse_number parse_keyword
token_at-IsSuffix col [] = same
token_at-IsSuffix col (c ∷ cs) =
    let all_left : IsSuffix (c ∷ cs) (c ∷ cs) = same in
    let number =
      number_token-IsSuffix col (c ∷ cs) (parse_num (c ∷ cs)) (parse_num-IsSuffix (c ∷ cs)) in
    let word = chop_while-IsSuffix is_keyword_char col (c ∷ cs) in
    let other : IsSuffix (c ∷ cs)
        (punctuation c col (record { column_number = advance col; source = cs })).1.source =
      later (punctuation-IsSuffix c col (record { column_number = advance col; source = cs })) in
    ground arith

-- A call of `next_token` leaves an end of the text.
pub next_token-IsSuffix : (l : Lexer) → IsSuffix l.source (next_token l).1.source
unfolding next_token
next_token-IsSuffix l =
    IsSuffix-trans (trim_whitespace-IsSuffix l.column_number l.source) (token_at-IsSuffix _ _)
