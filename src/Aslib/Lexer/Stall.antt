-- ===== src/Aslib/Lexer/Stall.antt =====
-- In front of a decimal number that does not fit an `int32_t` the lexer's loop never ends.
use smol_gpu.Prelude.{ℕ, ◌^◌, ◌≤◌, ◌≡◌, true, false, ◌||◌, none, some, ◌∷◌, ◌++◌, arith, Text, ◌==◌}
use smol_gpu.Aslib.Chars.{is_numeric}
use smol_gpu.Aslib.Error.{failed_number, result_out_of_range, error, unexpected}
use smol_gpu.Aslib.Number.{value_of, parse_num}
use smol_gpu.Aslib.Number.Digits.{
  IsDecimal, cons, Stops, not_minus, parse_magnitude-decimal, parse_integral-overflows,
}
use smol_gpu.Aslib.Lexer.{make_error, number_token, parse_number, found, next_token, collect}
use smol_gpu.Aslib.Lexer.Progress.{collect_stalled}

not_special :
    (c : ℕ)
    → is_numeric c 10 ≡ true
    → ((c == b' ' || c == b'\t' || c == b'\r' || c == b'\n') ≡ false) × ((c == b'#') ≡ false)
unfolding is_numeric
not_special c h = ground arith

-- A digit starts a number.
pub next_token-digit :
    (col c : ℕ) (s : Text)
    → is_numeric c 10 ≡ true
    → next_token (record { column_number = col; source = c ∷ s }) ≡ found (parse_number col (c ∷ s))
unfolding next_token
next_token-digit col c s d = rw ((not_special c d).0, (not_special c d).1, d, not_minus c d)

module _ {c : ℕ} {cs rest : Text} (decimal : IsDecimal (c ∷ cs)) (stops : Stops rest)
    (no_zero : (c == b'0') ≡ false) (large : 2 ^ 31 ≤ value_of 10 0 (c ∷ cs)) where
  parse_num-overflows :
      is_numeric c 10 ≡ true
      → parse_num (c ∷ (cs ++ rest))
        ≡ (unexpected (error (failed_number (c ∷ cs) result_out_of_range)), c ∷ (cs ++ rest))
  unfolding parse_num
  parse_num-overflows d =
      rw (not_minus c d, parse_magnitude-decimal false c (cs ++ rest) no_zero)
        (parse_integral-overflows false decimal stops large)

  -- In front of a decimal number of 2^31 or more that does not start with 0, and that no hexadecimal
  -- digit follows, no number of calls of `next_token` ends the loop of `collect_tokens`.
  pub collect-overflows :
      (col fuel : ℕ)
      → collect fuel (record { column_number = col; source = c ∷ (cs ++ rest) }) ≡ none
  collect-overflows col fuel = collect_stalled _ (stays col (first decimal)) fuel
    where
      first : IsDecimal (c ∷ cs) → is_numeric c 10 ≡ true
      first (cons d t) = d

      stays :
          (col : ℕ)
          → is_numeric c 10 ≡ true
          → next_token (record { column_number = col; source = c ∷ (cs ++ rest) }) ≡ (
            some (unexpected (make_error (failed_number (c ∷ cs) result_out_of_range) col)),
            record { column_number = col; source = c ∷ (cs ++ rest) },
          )
      stays col d =
          rw (next_token-digit col c (cs ++ rest) d)
            (unfold parse_number number_token in rw (parse_num-overflows d))
