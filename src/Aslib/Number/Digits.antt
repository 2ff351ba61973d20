-- ===== src/Aslib/Number/Digits.antt =====
-- Runs of decimal digits under the scanning loop and `std::from_chars`.
use smol_gpu.Prelude.{
  ℕ, ◌-◌, ◌^◌, ◌≤◌, ◌<◌, ◌≡◌, refl, Bool, true, false, [], ◌∷◌, ◌++◌, arith, Text, lt→ltb, le→ltb,
  ◌==◌, ap, if◌then◌else◌,
}
use smol_gpu.Prelude.Int.{pos, negate}
use smol_gpu.Aslib.Chars.{is_numeric}
use smol_gpu.Aslib.Error.{error, failed_number, result_out_of_range, expected, unexpected}
use smol_gpu.Aslib.Number.{
  value_of, parsed, failed, digit_run, from_chars, clean, push_digit, scan, parse_integral,
  parse_magnitude,
}

-- Decimal digits only.
pub data IsDecimal : Text → Type 0 where
  nil : IsDecimal []
  cons : {c : ℕ} {cs : Text} → is_numeric c 10 ≡ true → IsDecimal cs → IsDecimal (c ∷ cs)

-- No hexadecimal digit follows.
pub data Stops : Text → Type 0 where
  at_end : Stops []
  at_other : {c : ℕ} {cs : Text} → is_numeric c 16 ≡ false → Stops (c ∷ cs)

numeric_16 : (c : ℕ) → is_numeric c 10 ≡ true → is_numeric c 16 ≡ true
unfolding is_numeric
numeric_16 c h = ground arith

pub not_minus : (c : ℕ) → is_numeric c 10 ≡ true → (c == b'-') ≡ false
unfolding is_numeric
not_minus c h = ground arith

pub scan-IsDecimal :
    {ds rest : Text} → IsDecimal ds → Stops rest → scan 10 (ds ++ rest) ≡ clean ds rest
unfolding scan
scan-IsDecimal nil at_end = refl
scan-IsDecimal nil (at_other h) = rw h
scan-IsDecimal (cons {c} d t) s = rw (numeric_16 c d, d) (ap (push_digit c) (scan-IsDecimal t s))

pub digit_run-IsDecimal : {ds : Text} → IsDecimal ds → digit_run 10 ds ≡ (ds, [])
unfolding digit_run
digit_run-IsDecimal nil = refl
digit_run-IsDecimal (cons d t) = rw (d, digit_run-IsDecimal t)

-- Decimal digits for a number below 2^31 are read to the last one.
pub from_chars-fits :
    {c : ℕ} {cs : Text}
    → IsDecimal (c ∷ cs)
    → value_of 10 0 (c ∷ cs) < 2 ^ 31
    → from_chars 10 (c ∷ cs) ≡ parsed (pos (value_of 10 0 (c ∷ cs))) []
unfolding from_chars
from_chars-fits {c} {cs} (cons d t) small = rw (
  not_minus c d,
  digit_run-IsDecimal (cons d t),
  le→ltb (2 ^ 31 - 1) (value_of 10 0 (c ∷ cs)) (omega arith),
)

from_chars-overflows :
    {c : ℕ} {cs : Text}
    → IsDecimal (c ∷ cs)
    → 2 ^ 31 ≤ value_of 10 0 (c ∷ cs)
    → from_chars 10 (c ∷ cs) ≡ failed result_out_of_range
unfolding from_chars
from_chars-overflows {c} (cons d t) large =
    rw (not_minus c d, digit_run-IsDecimal (cons d t), lt→ltb _ _ large)

-- Decimal digits for a number below 2^31, which no hexadecimal digit follows, are parsed to that number,
-- negated behind a minus sign, and what follows them is left.
pub parse_integral-fits :
    {c : ℕ} {cs rest : Text} (negative : Bool)
    → IsDecimal (c ∷ cs)
    → Stops rest
    → value_of 10 0 (c ∷ cs) < 2 ^ 31
    → parse_integral negative 10 (c ∷ (cs ++ rest)) ≡ (
      expected (
          if negative then negate (pos (value_of 10 0 (c ∷ cs))) else pos (value_of 10 0 (c ∷ cs))),
      rest,
    )
unfolding parse_integral
parse_integral-fits negative d s small = rw (scan-IsDecimal d s, from_chars-fits d small)

-- One that does not fit is refused, and nothing is read.
pub parse_integral-overflows :
    {c : ℕ} {cs rest : Text} (negative : Bool)
    → IsDecimal (c ∷ cs)
    → Stops rest
    → 2 ^ 31 ≤ value_of 10 0 (c ∷ cs)
    → parse_integral negative 10 (c ∷ (cs ++ rest))
      ≡ (unexpected (error (failed_number (c ∷ cs) result_out_of_range)), c ∷ (cs ++ rest))
unfolding parse_integral
parse_integral-overflows negative d s large = rw (scan-IsDecimal d s, from_chars-overflows d large)

-- Where no base is marked, a number is decimal.
pub parse_magnitude-decimal :
    (negative : Bool) (c : ℕ) (s : Text)
    → (c == b'0') ≡ false
    → parse_magnitude negative (c ∷ s) ≡ parse_integral negative 10 (c ∷ s)
unfolding parse_magnitude
parse_magnitude-decimal negative c [] h = refl
parse_magnitude-decimal negative c (d ∷ s) h = rw h
