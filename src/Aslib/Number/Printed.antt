-- ===== src/Aslib/Number/Printed.antt =====
-- Numbers as `std::format` prints them, under `parse_num`.
use smol_gpu.Prelude.{
  ℕ, zero, suc, ◌+◌, ◌*◌, ◌/◌, ◌%◌, ◌^◌, ◌<◌, ◌≡◌, refl, sym, ap, ◌∙◌, true, false, [], ◌∷◌, arith,
  Text, ◌==◌, ltb, Bool-cases, inl, inr, append-nil,
}
use smol_gpu.Prelude.Decimal.{digits_onto, decimal}
use smol_gpu.Prelude.Int.{pos}
use smol_gpu.Aslib.Chars.{is_numeric}
use smol_gpu.Aslib.Error.{expected}
use smol_gpu.Aslib.Number.{digit_value, value_of, parse_num, parse_integral, parse_magnitude}
use smol_gpu.Aslib.Number.Digits.{
  IsDecimal, nil, cons, at_end, not_minus, parse_integral-fits, parse_magnitude-decimal,
}

-- `text` prints `n`, in front of `acc`: the first digit is no zero, or the only one.
pub record Prints (n : ℕ) (acc text : Text) : Type 0 where
  pub head : ℕ
  pub tail : Text
  pub text_is : text ≡ head ∷ tail
  pub head_numeric : is_numeric head 10 ≡ true
  pub tail_decimal : IsDecimal tail
  pub value_is : value_of 10 0 text ≡ value_of 10 n acc
  pub leads : ((head == b'0') ≡ true) → (n ≡ 0) × (tail ≡ acc)

numeric_digit : (d : ℕ) → d < 10 → is_numeric (b'0' + d) 10 ≡ true
unfolding is_numeric
numeric_digit d small = ground arith

value_of-digit :
    (base total d : ℕ) (acc : Text)
    → d < 10
    → value_of base total ((b'0' + d) ∷ acc) ≡ value_of base (total * base + d) acc
unfolding value_of
value_of-digit base total d acc small =
    ap (λ (v : ℕ). value_of base (total * base + v) acc) (digit d small)
  where
    digit : (d : ℕ) → d < 10 → digit_value (b'0' + d) ≡ d
    digit d h = ground arith

digits_onto-Prints :
    (fuel n : ℕ) (acc : Text) → n < fuel → IsDecimal acc → Prints n acc (digits_onto fuel n acc)
unfolding digits_onto
digits_onto-Prints zero n acc enough decimal = absurd (omega arith)
digits_onto-Prints (suc fuel) n acc enough decimal = elim (Bool-cases (ltb n 10)) [
  | inl single ↦ rw single (record {
    head = b'0' + n;
    tail = acc;
    text_is = refl;
    head_numeric = numeric_digit n (ground (arith, single));
    tail_decimal = decimal;
    value_is =
        value_of-digit 10 0 n acc (ground (arith, single))
        ∙ ap (λ (v : ℕ). value_of 10 v acc) (omega arith);
    leads = λ h. (ground (arith, h), refl);
  })
  | inr more ↦
      let rest =
        digits_onto-Prints fuel (n / 10) ((b'0' + n % 10) ∷ acc) (ground (arith, more))
          (cons (numeric_digit (n % 10) (omega arith)) decimal) in
      rw more (record {
        head = rest.head;
        tail = rest.tail;
        text_is = rest.text_is;
        head_numeric = rest.head_numeric;
        tail_decimal = rest.tail_decimal;
        value_is =
            rest.value_is
            ∙ value_of-digit 10 (n / 10) (n % 10) acc (omega arith)
            ∙ ap (λ (v : ℕ). value_of 10 v acc) (omega arith);
        leads = λ h. absurd (ground (arith, more, (rest.leads h).0));
      })
]

pub Prints-decimal : (n : ℕ) → Prints n [] (decimal n)
unfolding decimal
Prints-decimal n = digits_onto-Prints (suc n) n [] (omega arith) nil

-- A number that begins with a zero is zero, so no base is marked.
unmarked :
    (c : ℕ) (cs : Text)
    → ((c == b'0') ≡ true → cs ≡ [])
    → parse_magnitude false (c ∷ cs) ≡ parse_integral false 10 (c ∷ cs)
unfolding parse_magnitude
unmarked c [] leads = refl
unmarked c (d ∷ cs) leads = elim (Bool-cases (c == b'0')) [
  | inl zero_first ↦ absurd (cc (leads zero_first))
  | inr other ↦ parse_magnitude-decimal false c (d ∷ cs) other
]

parse_integral-all :
    {c : ℕ} {cs : Text} {n : ℕ}
    → IsDecimal (c ∷ cs)
    → value_of 10 0 (c ∷ cs) ≡ n
    → n < 2 ^ 31
    → parse_integral false 10 (c ∷ cs) ≡ (expected (pos n), [])
parse_integral-all {c} {cs} {n} d value small =
    ap (λ (t : Text). parse_integral false 10 (c ∷ t)) (sym (append-nil cs))
    ∙ parse_integral-fits {c = c} {cs = cs} {rest = []} false d at_end (omega (arith, value))
    ∙ ap (λ (v : ℕ). (expected (pos v), [])) value

-- A number below 2^31 is parsed back from its decimal text, to the last byte.
pub parse_num-decimal : (n : ℕ) → n < 2 ^ 31 → parse_num (decimal n) ≡ (expected (pos n), [])
unfolding parse_num value_of
parse_num-decimal n small =
    let h = Prints-decimal n in
    rw (h.text_is, not_minus h.head h.head_numeric)
      (unmarked h.head h.tail (λ e. (h.leads e).1)
        ∙ parse_integral-all {c = h.head} (cons h.head_numeric h.tail_decimal)
            (ap (value_of 10 0) (sym h.text_is) ∙ h.value_is) small)

-- What a decimal text is made of.
pub decimal-IsDecimal : (n : ℕ) → (c : ℕ) × (cs : Text) × (decimal n ≡ c ∷ cs) × IsDecimal (c ∷ cs)
decimal-IsDecimal n =
    let h = Prints-decimal n in (h.head, h.tail, h.text_is, cons h.head_numeric h.tail_decimal)
