-- ===== src/Aslib/RoundTrip/Numbers.antt =====
-- A number that is printed is read as the token of this number.
use smol_gpu.Prelude.{
  ℕ, suc, ◌+◌, ◌<◌, ◌≡◌, ◌^◌, refl, sym, ap, ◌∙◌, Bool, true, false, ◌||◌, some, [], ◌∷◌, ◌++◌,
  Text, length, length-append, ◌-◌, arith, Bool-cases, inl, inr, ◌==◌, if◌then◌else◌,
}
use smol_gpu.Prelude.Word.{u32}
use smol_gpu.Prelude.Int.{ℤ, pos, negsuc, negate, IsInt32}
use smol_gpu.Prelude.Decimal.{decimal, decimal_ℤ}
use smol_gpu.Aslib.Chars.{is_numeric, is_alphabetic, is_alphanumeric, is_label_char}
use smol_gpu.Aslib.Error.{expected}
use smol_gpu.Aslib.Number.{
  value_of, digit_run, from_chars, scan, clean, parse_integral, parse_magnitude, parse_num,
}
use smol_gpu.Aslib.Number.Digits.{
  cons, Stops, at_end, at_other, not_minus, parse_integral-fits, parse_magnitude-decimal,
}
use smol_gpu.Aslib.Number.Printed.{Prints-decimal}
use smol_gpu.Aslib.Token
use smol_gpu.Aslib.Lexer.{
  is_keyword_char, next_token, trim_whitespace, token_at, parse_number, number_token,
}
use smol_gpu.Aslib.RoundTrip.Lexing.{Delimits, Gives}

no_digit : (c : ℕ) → is_keyword_char c ≡ false → is_numeric c 16 ≡ false
unfolding is_keyword_char is_alphanumeric is_label_char is_alphabetic is_numeric
no_digit c h = ground (arith, h)

no_mark :
    (c : ℕ)
    → is_keyword_char c ≡ false
    → ((c == b'x' || c == b'X') ≡ false) × ((c == b'b' || c == b'B') ≡ false)
unfolding is_keyword_char is_alphanumeric is_label_char is_alphabetic is_numeric
no_mark c h = (ground (arith, h), ground (arith, h))

Delimits-Stops : (rest : Text) → Delimits rest → Stops rest
Delimits-Stops [] h = at_end
Delimits-Stops (c ∷ cs) h = at_other (no_digit c h)

scan-Stops : (base : ℕ) {rest : Text} → Stops rest → scan base rest ≡ clean [] rest
unfolding scan
scan-Stops base at_end = refl
scan-Stops base (at_other h) = rw h

-- A zero on its own is the same in base 8 and in base 10.
zero_octal :
    (negative : Bool) (rest : Text)
    → Stops rest
    → parse_integral negative 8 (b'0' ∷ rest) ≡ (expected (pos 0), rest)
unfolding parse_integral scan from_chars digit_run value_of is_numeric
zero_octal true rest h = rw (scan-Stops 8 h) refl
zero_octal false rest h = rw (scan-Stops 8 h) refl

zero_decimal :
    (negative : Bool) (rest : Text)
    → Stops rest
    → parse_integral negative 10 (b'0' ∷ rest) ≡ (expected (pos 0), rest)
unfolding parse_integral scan from_chars digit_run value_of is_numeric
zero_decimal true rest h = rw (scan-Stops 10 h) refl
zero_decimal false rest h = rw (scan-Stops 10 h) refl

-- A zero in front of a delimiter marks no base.
parse_magnitude-zero :
    (negative : Bool) (rest : Text)
    → Delimits rest
    → parse_magnitude negative (b'0' ∷ rest) ≡ (expected (pos 0), rest)
unfolding parse_magnitude
parse_magnitude-zero negative [] h = zero_decimal negative [] at_end
parse_magnitude-zero negative (c ∷ cs) h =
    rw ((no_mark c h).0, (no_mark c h).1) (zero_octal negative (c ∷ cs) (Delimits-Stops (c ∷ cs) h))

-- `n`, behind a minus sign or not.
abbrev signed : Bool → ℕ → ℤ
signed negative n = if negative then negate (pos n) else pos n

signed-zero : (negative : Bool) (n : ℕ) → n ≡ 0 → signed negative n ≡ pos 0
signed-zero true n e = rw e refl
signed-zero false n e = rw e refl

parse_magnitude-printed :
    (negative : Bool) (n : ℕ) (rest : Text)
    → n < 2 ^ 31
    → Delimits rest
    → parse_magnitude negative (decimal n ++ rest) ≡ (expected (signed negative n), rest)
unfolding value_of
parse_magnitude-printed negative n rest small h =
    let p = Prints-decimal n in
    elim (Bool-cases (p.head == b'0')) [
      | inl z ↦
          let is_zero : p.head ≡ b'0' = ground (arith, z) in
          rw (p.text_is, (p.leads z).1, is_zero, signed-zero negative n (p.leads z).0)
            (parse_magnitude-zero negative rest h)
      | inr other ↦
          let value : value_of 10 0 (p.head ∷ p.tail) ≡ n =
            ap (value_of 10 0) (sym p.text_is) ∙ p.value_is in
          rw p.text_is (
            parse_magnitude-decimal negative p.head (p.tail ++ rest) other
            ∙ parse_integral-fits {c = p.head} {cs = p.tail} {rest = rest} negative
                (cons p.head_numeric p.tail_decimal) (Delimits-Stops rest h)
                (omega (arith, value, small))
            ∙ ap (λ (v : ℕ). (expected (signed negative v), rest)) value)
    ]

-- A number that is printed in front of a delimiter is parsed back, and nothing else is read.
pub parse_num-decimal_ℤ :
    (z : ℤ) (rest : Text)
    → IsInt32 z
    → Delimits rest
    → parse_num (decimal_ℤ z ++ rest) ≡ (expected z, rest)
unfolding parse_num decimal_ℤ
parse_num-decimal_ℤ (pos n) rest small h =
    let p = Prints-decimal n in
    let printed = parse_magnitude-printed false n rest small h in
    rw (p.text_is, not_minus p.head p.head_numeric) (rw p.text_is at printed)
parse_num-decimal_ℤ (negsuc n) rest small h =
    let p = Prints-decimal (suc n) in
    let printed = parse_magnitude-printed true (suc n) rest small h in
    rw p.text_is (rw p.text_is at printed)

number-token_at :
    (c : ℕ) (cs rest : Text) (z : ℤ) (col : ℕ)
    → (c == b'-' || is_numeric c 10) ≡ true
    → parse_num (c ∷ cs) ≡ (expected z, rest)
    → next_token (record { column_number = col; source = c ∷ cs }) ≡ (
      some (expected (record { token_type = Token.immediate z; col = col })),
      record { column_number = u32 (col + (length (c ∷ cs) - length rest)); source = rest },
    )
unfolding next_token trim_whitespace token_at parse_number number_token
number-token_at c cs rest z col starts e =
    rw (no_space c starts, no_comment c starts, starts, e) refl
  where
    no_space :
        (c : ℕ)
        → (c == b'-' || is_numeric c 10) ≡ true
        → (c == b' ' || c == b'\t' || c == b'\r' || c == b'\n') ≡ false
    no_space c h = unfold is_numeric in ground (arith, h)

    no_comment : (c : ℕ) → (c == b'-' || is_numeric c 10) ≡ true → (c == b'#') ≡ false
    no_comment c h = unfold is_numeric in ground (arith, h)

-- What a printed number begins with.
begins :
    (z : ℤ)
    → (c : ℕ) × (cs : Text) × (decimal_ℤ z ≡ c ∷ cs) × ((c == b'-' || is_numeric c 10) ≡ true)
unfolding decimal_ℤ
begins (pos n) =
    let p = Prints-decimal n in (p.head, p.tail, p.text_is, ground (arith, p.head_numeric))
begins (negsuc n) = (b'-', decimal (suc n), refl, refl)

-- A printed number gives its token.
pub number-Gives :
    (z : ℤ) (rest : Text)
    → IsInt32 z
    → Delimits rest
    → Gives (decimal_ℤ z ++ rest) (Token.immediate z) rest
number-Gives z rest small h =
    let (c, cs, e, starts) = begins z in
    let printed = parse_num-decimal_ℤ z rest small h in
    let parsed = rw e at printed in
    rw e (record {
      shorter = omega (arith, length-append {0} cs rest);
      gives = λ col. (col, _, number-token_at c (cs ++ rest) rest z col starts parsed);
    })
