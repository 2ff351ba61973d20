-- ===== src/Aslib/Number/Overflow.antt =====
-- `parse_num` leaves less than it was given, or all of it: that is so only in front of a decimal
-- number that does not fit an `int32_t`.
use smol_gpu.Prelude.{
  ℕ, suc, ◌+◌, ◌*◌, ◌^◌, ◌≤◌, ◌<◌, ◌≡◌, ◌⊎◌, inl, inr, refl, Bool, true, false, ◌||◌, [], ◌∷◌,
  length, length-append, if◌then◌else◌, arith, Text, Bool-cases, ◌==◌,
}
use native.Mathlib.Nat.{le_trans}
use smol_gpu.Prelude.Int.{ℤ}
use smol_gpu.Aslib.Chars.{is_numeric}
use smol_gpu.Aslib.Error.{Expected, expected, unexpected}
use smol_gpu.Aslib.Number.{
  digit_value, value_of, FromChars, parsed, failed, digit_run, from_chars, Scan, clean, bad,
  push_digit, scan, finish_number, from_scan, parse_integral, parse_magnitude, parse_negative,
  parse_num,
}
use smol_gpu.Aslib.Number.Scanning.{
  Shrinks, parse_integral-Shrinks, parse_magnitude-Shrinks, scan-Cuts, Cuts, from_chars-shorter,
}

-- The digits at the front are a number of 2^31 or more.
abbrev pub IsTooLarge : Text → Type 0
IsTooLarge s = 2 ^ 31 ≤ value_of 10 0 (digit_run 10 s).0

-- A result that left less of `s`, or all of it.
abbrev pub Moves : Text → Expected ℤ × Text → Type 0
Moves s (expected n, rest) = length rest < length s
Moves s (unexpected e, rest) = (length rest < length s) ⊎ ((rest ≡ s) × IsTooLarge s)

pub value_of_mono : (b c x y : ℕ) (s : Text) → b ≤ c → x ≤ y → value_of b x s ≤ value_of c y s
unfolding value_of
value_of_mono b c x y [] h k = k
value_of_mono b c x y (d ∷ ds) h k =
    value_of_mono b c (x * b + digit_value d) (y * c + digit_value d) ds h (grind arith)

module _ (base : ℕ) (small : base ≤ 10)
    (decimal : (c : ℕ) → is_numeric c base ≡ true → is_numeric c 10 ≡ true)
    (hex : (c : ℕ) → is_numeric c 10 ≡ true → is_numeric c 16 ≡ true) where
  -- The scanned digits are the decimal digits at the front, and all are digits of the base.
  abbrev Agrees : Text → Scan → Type 0
  Agrees s (clean taken rest) =
      (digit_run 10 s ≡ (taken, rest)) × (digit_run base taken ≡ (taken, []))
  Agrees s (bad taken digit rest) = Unit

  Agrees-push :
      (c : ℕ) (s : Text) (r : Scan)
      → is_numeric c base ≡ true
      → Agrees s r
      → Agrees (c ∷ s) (push_digit c r)
  unfolding digit_run
  Agrees-push c s (clean taken rest) d (run, all) = (rw (decimal c d, run), rw (d, all))
  Agrees-push c s (bad taken digit rest) d h = tt

  scan-Agrees : (s : Text) → Agrees s (scan base s)
  unfolding scan digit_run
  scan-Agrees [] = (refl, refl)
  scan-Agrees (c ∷ cs) = elim (Bool-cases (is_numeric c 16)) [
    | inl x ↦ elim (Bool-cases (is_numeric c base)) [
      | inl d ↦ rw (x, d) (Agrees-push c cs (scan base cs) d (scan-Agrees cs))
      | inr other ↦ rw (x, other) tt
    ]
    | inr other ↦ elim (Bool-cases (is_numeric c 10)) [
      | inl d ↦ cc (hex c d)
      | inr stops ↦ rw (other, stops) (refl, refl)
    ]
  ]

  -- A run of digits with no sign is refused only if the number is too large.
  from_chars-Moves :
      (c : ℕ) (cs taken rest : Text) (r : FromChars)
      → is_numeric c base ≡ true
      → digit_run 10 (c ∷ cs) ≡ (c ∷ taken, rest)
      → digit_run base (c ∷ taken) ≡ (c ∷ taken, [])
      → (c == b'-') ≡ false
      → from_chars base (c ∷ taken) ≡ r
      → length taken + length rest ≡ length cs
      → Moves (c ∷ cs) (finish_number false (c ∷ cs) (c ∷ taken) rest r)
  unfolding from_chars
  from_chars-Moves c cs taken rest (parsed n left) d run all plain e cut =
      omega (arith, from_chars-shorter base (c ∷ taken) e, length-append {0} left rest)
  from_chars-Moves c cs taken rest (failed ec) d run all plain e cut =
      let reached = rw (plain, all) at e in
      let large : 2 ^ 31 ≤ value_of base 0 (c ∷ taken) = ground arith in
      inr
        (refl, rw run (le_trans large (value_of_mono base 10 0 0 (c ∷ taken) small (omega arith))))

  -- Digits of the base at the front: all that is left is not all of it, or the number is too large.
  parse_integral-Moves :
      (c : ℕ) (cs : Text)
      → is_numeric c base ≡ true
      → (c == b'-') ≡ false
      → Moves (c ∷ cs) (parse_integral false base (c ∷ cs))
  unfolding parse_integral scan
  parse_integral-Moves c cs d plain =
      rw (hex c (decimal c d), d) (by_scan (scan base cs) (scan-Cuts base cs) (scan-Agrees cs))
    where
      by_scan :
          (r : Scan)
          → Cuts cs r
          → Agrees cs r
          → Moves (c ∷ cs) (from_scan false base (c ∷ cs) (push_digit c r))
      by_scan (bad taken digit rest) cut agrees = inl (omega arith)
      by_scan (clean taken rest) cut agrees =
          let front = Agrees-push c cs (clean taken rest) d agrees in
          from_chars-Moves c cs taken rest (from_chars base (c ∷ taken)) d front.0 front.1 plain
            refl cut

numeric_8 : (c : ℕ) → is_numeric c 8 ≡ true → is_numeric c 10 ≡ true
unfolding is_numeric
numeric_8 c h = ground arith

numeric_16 : (c : ℕ) → is_numeric c 10 ≡ true → is_numeric c 16 ≡ true
unfolding is_numeric
numeric_16 c h = ground arith

not_minus : (c : ℕ) → is_numeric c 10 ≡ true → (c == b'-') ≡ false
unfolding is_numeric
not_minus c h = ground arith

Moves-if :
    (s : Text) (b : Bool) (x y : Expected ℤ × Text)
    → (b ≡ true → Moves s x)
    → (b ≡ false → Moves s y)
    → Moves s (if b then x else y)
Moves-if s true x y p q = p refl
Moves-if s false x y p q = q refl

Shrinks-Moves :
    (s : Text) (len : ℕ) (r : Expected ℤ × Text) → len < length s → Shrinks len r → Moves s r
Shrinks-Moves s len (expected n, rest) h k = omega arith
Shrinks-Moves s len (unexpected e, rest) h k = inl (omega arith)

parse_magnitude-Moves :
    (c : ℕ) (cs : Text) → is_numeric c 10 ≡ true → Moves (c ∷ cs) (parse_magnitude false (c ∷ cs))
unfolding parse_magnitude
parse_magnitude-Moves c [] h =
    parse_integral-Moves 10 (omega arith) (λ x p. p) numeric_16 c [] h (not_minus c h)
parse_magnitude-Moves c (d ∷ cs) h =
    Moves-if (c ∷ d ∷ cs) (c == b'0') _ _
      (λ z.
        Moves-if (c ∷ d ∷ cs) (d == b'x' || d == b'X') _ _
          (λ x.
            Shrinks-Moves (c ∷ d ∷ cs) (length cs) (parse_integral false 16 cs) (omega arith)
              (parse_integral-Shrinks false 16 cs))
          (λ y.
            Moves-if (c ∷ d ∷ cs) (d == b'b' || d == b'B') _ _
              (λ x.
                Shrinks-Moves (c ∷ d ∷ cs) (length cs) (parse_integral false 2 cs) (omega arith)
                  (parse_integral-Shrinks false 2 cs))
              (λ x.
                parse_integral-Moves 8 (omega arith) numeric_8 numeric_16 c (d ∷ cs) (octal c z)
                  (not_minus c h))))
      (λ z.
        parse_integral-Moves 10 (omega arith) (λ x p. p) numeric_16 c (d ∷ cs) h (not_minus c h))
  where
    octal : (c : ℕ) → (c == b'0') ≡ true → is_numeric c 8 ≡ true
    octal c z = unfold is_numeric in ground arith

-- On a text that starts with a digit or a minus sign `parse_num` leaves less than the text, or fails,
-- leaves it as it was, and the decimal digits at its front are a number of 2^31 or more.
pub parse_num-Moves :
    (c : ℕ) (cs : Text)
    → (c == b'-' || is_numeric c 10) ≡ true
    → Moves (c ∷ cs) (parse_num (c ∷ cs))
unfolding parse_num
parse_num-Moves c cs h =
    Moves-if (c ∷ cs) (c == b'-') _ _ (λ minus. negative cs)
      (λ plain. parse_magnitude-Moves c cs (rw plain at h))
  where
    negative : (cs : Text) → Moves (c ∷ cs) (parse_negative cs)
    negative [] = inl (omega arith)
    negative (d ∷ ds) =
        Shrinks-Moves (c ∷ d ∷ ds) (suc (length ds)) (parse_magnitude true (d ∷ ds)) (omega arith)
          (parse_magnitude-Shrinks true (d ∷ ds))
