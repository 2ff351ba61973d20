-- ===== src/Aslib/Number.antt =====
-- sim/aslib/parser_utils.cpp: `parse_num`, `str_check_predicate` and `str_to_reg`, with
-- `std::from_chars` as they use it.
pub mod Scanning
pub mod Overflow
pub mod Digits
pub mod Printed
use smol_gpu.Prelude.{
  ℕ, ◌+◌, ◌-◌, ◌*◌, ◌^◌, Bool, true, false, ◌&&◌, ◌||◌, List, [], ◌∷◌, ◌++◌, all, ◌==◌, ltb, leb,
  if◌then◌else◌, Text,
}
use smol_gpu.Prelude.Int.{ℤ, pos, negsuc, neg, negate, to_u32}
use smol_gpu.Isa.Register.{Register, RegisterType, vector, scalar}
use smol_gpu.Aslib.Chars.{is_numeric}
use smol_gpu.Aslib.Error.{
  Errc, invalid_argument, result_out_of_range, Error, error, expected_number, invalid_digit,
  failed_number, invalid_register_name, failed_register_number, Expected, expected, unexpected,
}

-- The value of a digit or letter.
abbrev pub digit_value : ℕ → ℕ
digit_value c = if leb c b'9' then c - b'0' else if leb c b'Z' then c - b'A' + 10 else c - b'a' + 10

-- The number that a text of digits stands for, behind the digits read so far.
unfoldable pub value_of : ℕ → ℕ → Text → ℕ
value_of base acc [] = acc
value_of base acc (c ∷ cs) = value_of base (acc * base + digit_value c) cs

-- The outcome of `std::from_chars` on an `int32_t`: the value and what is left, or the error.
pub data FromChars : Type 0 where
  parsed : ℤ → Text → FromChars
  failed : Errc → FromChars

-- The longest run of digits, and what follows it.
unfoldable pub digit_run : ℕ → Text → Text × Text
digit_run base [] = ([], [])
digit_run base (c ∷ cs) =
    let (run, rest) = digit_run base cs in
    if is_numeric c base then (c ∷ run, rest) else ([], c ∷ cs)

abbrev pub from_run : Bool → ℕ → Text → Text → FromChars
from_run negative base [] rest = failed invalid_argument
from_run negative base (d ∷ ds) rest =
    let n = value_of base 0 (d ∷ ds) in
    let limit = if negative then 2 ^ 31 else 2 ^ 31 - 1 in
    if ltb limit n
    then failed result_out_of_range
    else parsed (if negative then neg n else pos n) rest

unfoldable pub from_chars : ℕ → Text → FromChars
from_chars base [] = failed invalid_argument
from_chars base (c ∷ cs) =
    let (run, rest) = digit_run base (if c == b'-' then cs else c ∷ cs) in
    from_run (c == b'-') base run rest

-- The loop of `parse_integral`: the digits in front of the first byte that is no hexadecimal digit,
-- or those in front of a digit that the base does not have.
pub data Scan : Type 0 where
  clean : Text → Text → Scan
  bad : Text → ℕ → Text → Scan

abbrev pub push_digit : ℕ → Scan → Scan
push_digit c (clean taken rest) = clean (c ∷ taken) rest
push_digit c (bad taken digit rest) = bad (c ∷ taken) digit rest

unfoldable pub scan : ℕ → Text → Scan
scan base [] = clean [] []
scan base (c ∷ cs) =
    if is_numeric c 16
    then (if is_numeric c base then push_digit c (scan base cs) else bad [] c (c ∷ cs))
    else clean [] (c ∷ cs)

-- What follows the loop; the second part of a result is what `source` is left as.
abbrev pub finish_number : Bool → Text → Text → Text → FromChars → Expected ℤ × Text
finish_number negative source taken rest (failed ec) =
    (unexpected (error (failed_number taken ec)), source)
finish_number negative source taken rest (parsed n left) =
    (expected (if negative then negate n else n), left ++ rest)

abbrev pub from_scan : Bool → ℕ → Text → Scan → Expected ℤ × Text
from_scan negative base source (bad taken digit rest) =
    (unexpected (error (invalid_digit (taken ++ digit ∷ []) digit base)), rest)
from_scan negative base source (clean taken rest) =
    finish_number negative source taken rest (from_chars base taken)

unfoldable pub parse_integral : Bool → ℕ → Text → Expected ℤ × Text
unfolding scan from_chars
parse_integral negative base source = from_scan negative base source (scan base source)

-- The choice of the base, behind the sign.
unfoldable pub parse_magnitude : Bool → Text → Expected ℤ × Text
unfolding parse_integral
parse_magnitude negative [] = parse_integral negative 10 []
parse_magnitude negative (c ∷ []) = parse_integral negative 10 (c ∷ [])
parse_magnitude negative (c ∷ d ∷ cs) =
    if c == b'0'
    then (if d == b'x' || d == b'X'
        then parse_integral negative 16 cs
        else if d == b'b' || d == b'B'
        then parse_integral negative 2 cs
        else parse_integral negative 8 (c ∷ d ∷ cs))
    else parse_integral negative 10 (c ∷ d ∷ cs)

abbrev pub parse_negative : Text → Expected ℤ × Text
parse_negative [] = (unexpected (error (expected_number (b'-' ∷ []))), [])
parse_negative (c ∷ cs) = parse_magnitude true (c ∷ cs)

unfoldable pub parse_num : Text → Expected ℤ × Text
unfolding parse_magnitude is_numeric digit_run value_of
parse_num [] = (unexpected (error (expected_number [])), [])
parse_num (c ∷ cs) = if c == b'-' then parse_negative cs else parse_magnitude false (c ∷ cs)

abbrev pub str_check_predicate : Text → (ℕ → Bool) → Bool
str_check_predicate str predicate = all predicate str

abbrev pub register_from : RegisterType → Text → FromChars → Expected Register
register_from t digits (failed ec) = unexpected (error (failed_register_number digits ec))
register_from t digits (parsed n left) = expected (record { register_number = to_u32 n; type = t })

unfoldable pub str_to_reg : Text → Expected Register
unfolding from_chars is_numeric digit_run value_of
str_to_reg [] = unexpected (error (invalid_register_name []))
str_to_reg (c ∷ []) = unexpected (error (invalid_register_name (c ∷ [])))
str_to_reg (c ∷ d ∷ cs) =
    if c == b'x'
    then register_from vector (d ∷ cs) (from_chars 10 (d ∷ cs))
    else if c == b's'
    then register_from scalar (d ∷ cs) (from_chars 10 (d ∷ cs))
    else unexpected (error (invalid_register_name (c ∷ d ∷ cs)))
