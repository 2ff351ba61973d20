-- ===== src/Aslib/DataReader/RoundTrip.antt =====
-- Records that are printed as `address: value` and read again.
use smol_gpu.Prelude.{
  ℕ, ◌^◌, ◌<◌, ◌≡◌, refl, ap, ◌∙◌, true, false, some, List, [], ◌∷◌, ◌++◌, map, arith, Text, All,
  ◌==◌,
}
use smol_gpu.Prelude.Decimal.{decimal}
use smol_gpu.Aslib.Chars.{is_whitespace, is_numeric, trim_left, trim_right, trim_line, keep}
use smol_gpu.Aslib.Number.{parse_num}
use smol_gpu.Aslib.Number.Digits.{IsDecimal, nil, cons}
use smol_gpu.Aslib.Number.Printed.{parse_num-decimal, decimal-IsDecimal}
use smol_gpu.Simlib.Store.{Store, write}
use smol_gpu.Aslib.DataReader.{split_at_colon, as_idata, parse_line, loaded, read_lines, read_data}

-- `std::format("{}: {}", address, value)`
abbrev pub record_line : ℕ × ℕ → Text
record_line (address, value) = decimal address ++ b':' ∷ b' ' ∷ decimal value

-- Both numbers are below 2^31, as an `int32_t` holds them.
abbrev pub IsSmall : ℕ × ℕ → Type 0
IsSmall (address, value) = (address < 2 ^ 31) × (value < 2 ^ 31)

-- The records, stored one after the other.
abbrev pub store_all : List (ℕ × ℕ) → Store → Store
store_all [] m = m
store_all ((address, value) ∷ rs) m = store_all rs (write address value m)

digit_is_ink : (c : ℕ) → is_numeric c 10 ≡ true → (is_whitespace c ≡ false) × ((c == b':') ≡ false)
unfolding is_numeric is_whitespace
digit_is_ink c h = (ground (arith, h), ground (arith, h))

trim_right-IsDecimal : {ds : Text} → IsDecimal ds → trim_right ds ≡ ds
unfolding trim_right
trim_right-IsDecimal nil = refl
trim_right-IsDecimal (cons {c} {cs} d t) = ap (keep c) (trim_right-IsDecimal t) ∙ keeps cs
  where
    keeps : (cs : Text) → keep c cs ≡ c ∷ cs
    keeps [] = rw ((digit_is_ink c d).0)
    keeps (e ∷ es) = refl

-- A text behind which there is more is kept.
trim_right-append :
    (xs : Text) (y : ℕ) (ys : Text)
    → trim_right (y ∷ ys) ≡ y ∷ ys
    → trim_right (xs ++ y ∷ ys) ≡ xs ++ y ∷ ys
unfolding trim_right
trim_right-append [] y ys h = h
trim_right-append (x ∷ xs) y ys h = ap (keep x) (trim_right-append xs y ys h) ∙ behind xs
  where
    behind : (xs : Text) → keep x (xs ++ y ∷ ys) ≡ x ∷ (xs ++ y ∷ ys)
    behind [] = refl
    behind (z ∷ zs) = refl

trim_left-digit : (c : ℕ) (cs : Text) → is_numeric c 10 ≡ true → trim_left (c ∷ cs) ≡ c ∷ cs
unfolding trim_left
trim_left-digit c cs h = rw ((digit_is_ink c h).0)

trim_line-IsDecimal : {ds : Text} → IsDecimal ds → trim_line ds ≡ ds
unfolding trim_line trim_left
trim_line-IsDecimal nil = refl
trim_line-IsDecimal (cons {c} {cs} d t) =
    rw (trim_left-digit c cs d) (trim_right-IsDecimal (cons d t))

split_at_colon-IsDecimal :
    {ds : Text}
    → IsDecimal ds
    → (rest : Text) → split_at_colon (ds ++ b':' ∷ rest) ≡ some (ds, rest)
unfolding split_at_colon
split_at_colon-IsDecimal nil rest = refl
split_at_colon-IsDecimal (cons {c} d t) rest =
    rw ((digit_is_ink c d).1, split_at_colon-IsDecimal t rest)

trim_line-number : (n : ℕ) → trim_line (decimal n) ≡ decimal n
trim_line-number n = let (c, cs, e, d) = decimal-IsDecimal n in rw e (trim_line-IsDecimal d)

trim_line-record :
    (address value : ℕ) → trim_line (record_line (address, value)) ≡ record_line (address, value)
unfolding trim_line
trim_line-record address value =
    let (c, cs, e, d) = decimal-IsDecimal address in
    let (v, vs, f, g) = decimal-IsDecimal value in rw (e, f) (starts c cs (v ∷ vs) d (ends v vs g))
  where
    ends :
        (v : ℕ) (vs : Text)
        → IsDecimal (v ∷ vs)
        → trim_right (b':' ∷ b' ' ∷ v ∷ vs) ≡ b':' ∷ b' ' ∷ v ∷ vs
    ends v vs g = trim_right-append (b':' ∷ b' ' ∷ []) v vs (trim_right-IsDecimal g)

    starts :
        (c : ℕ) (cs vs : Text)
        → IsDecimal (c ∷ cs)
        → trim_right (b':' ∷ b' ' ∷ vs) ≡ b':' ∷ b' ' ∷ vs
        → trim_line ((c ∷ cs) ++ b':' ∷ b' ' ∷ vs) ≡ (c ∷ cs) ++ b':' ∷ b' ' ∷ vs
    starts c cs vs (cons d t) h =
        rw (trim_left-digit c (cs ++ b':' ∷ b' ' ∷ vs) d)
          (trim_right-append (c ∷ cs) b':' (b' ' ∷ vs) h)

trim_line-behind_colon : (n : ℕ) → trim_line (b' ' ∷ decimal n) ≡ decimal n
unfolding trim_line trim_left is_whitespace
trim_line-behind_colon n = trim_line-number n

as_idata-number : (n : ℕ) → n < 2 ^ 31 → as_idata (parse_num (decimal n)) ≡ some n
as_idata-number n small = rw (parse_num-decimal n small) (ap some (omega arith))

split_at_colon-record :
    (address value : ℕ)
    → split_at_colon (record_line (address, value)) ≡ some (decimal address, b' ' ∷ decimal value)
split_at_colon-record address value =
    let (c, cs, e, d) = decimal-IsDecimal address in
    rw e (split_at_colon-IsDecimal d (b' ' ∷ decimal value))

parse_line-record :
    (address value : ℕ)
    → IsSmall (address, value)
    → parse_line (record_line (address, value)) ≡ some (address, value)
unfolding parse_line
parse_line-record address value (a_small, v_small) = rw (
  trim_line-record address value,
  split_at_colon-record address value,
  trim_line-number address,
  as_idata-number address a_small,
  trim_line-behind_colon value,
  as_idata-number value v_small,
)

read_lines-records :
    (rs : List (ℕ × ℕ)) (m : Store)
    → All IsSmall rs
    → read_lines (map record_line rs) m ≡ loaded (store_all rs m)
unfolding read_lines
read_lines-records [] m small = refl
read_lines-records ((address, value) ∷ rs) m (here, small) =
    rw (parse_line-record address value here) (read_lines-records rs (write address value m) small)

-- Addresses and values below 2^31 that are printed as `address: value`, a record on each line, are read
-- back: `read_data` loads what storing them in this order gives.
pub read_data-records :
    (rs : List (ℕ × ℕ)) → All IsSmall rs → read_data (map record_line rs) ≡ loaded (store_all rs [])
unfolding read_data
read_data-records rs small = read_lines-records rs [] small
