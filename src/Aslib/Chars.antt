-- ===== src/Aslib/Chars.antt =====
-- The character tests of sim/aslib/common.hpp, on bytes. A byte of 128 or more is a negative `char`
-- there, and fails every one of these tests either way.
use smol_gpu.Prelude.{
  ℕ, ◌+◌, ◌-◌, Bool, false, ◌&&◌, ◌||◌, [], ◌∷◌, ◌==◌, ltb, leb, if◌then◌else◌, Text,
}

unfoldable pub is_whitespace : ℕ → Bool
is_whitespace c = c == b' ' || c == b'\t' || c == b'\n' || c == b'\r'

unfoldable pub is_numeric : ℕ → ℕ → Bool
is_numeric c base =
    if ltb 1 base && leb base 10
    then leb b'0' c && ltb c (b'0' + base)
    else if leb base (10 + 26)
    then leb b'0' c && leb c b'9'
      || leb b'A' c && ltb c (b'A' + base - 10)
      || leb b'a' c && ltb c (b'a' + base - 10)
    else false

unfoldable pub is_lowercase_alphabetic : ℕ → Bool
is_lowercase_alphabetic c = leb b'a' c && leb c b'z'

unfoldable pub is_uppercase_alphabetic : ℕ → Bool
is_uppercase_alphabetic c = leb b'A' c && leb c b'Z'

unfoldable pub is_alphabetic : ℕ → Bool
unfolding is_lowercase_alphabetic is_uppercase_alphabetic
is_alphabetic c = is_lowercase_alphabetic c || is_uppercase_alphabetic c

unfoldable pub is_alphanumeric : ℕ → Bool
unfolding is_alphabetic is_numeric
is_alphanumeric c = is_alphabetic c || is_numeric c 10

unfoldable pub is_label_char : ℕ → Bool
unfolding is_alphanumeric
is_label_char c = is_alphanumeric c || c == b'_'

-- The first loop of `trim_line`.
unfoldable pub trim_left : Text → Text
unfolding is_whitespace
trim_left [] = []
trim_left (c ∷ cs) = if is_whitespace c then trim_left cs else c ∷ cs

abbrev pub keep : ℕ → Text → Text
keep c [] = if is_whitespace c then [] else c ∷ []
keep c (d ∷ ds) = c ∷ d ∷ ds

-- The second loop of `trim_line`, from the front: white space goes where nothing else follows it.
unfoldable pub trim_right : Text → Text
unfolding is_whitespace
trim_right [] = []
trim_right (c ∷ cs) = keep c (trim_right cs)

unfoldable pub trim_line : Text → Text
unfolding trim_left trim_right
trim_line line = trim_right (trim_left line)
