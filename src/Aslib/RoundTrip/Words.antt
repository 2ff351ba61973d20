-- ===== src/Aslib/RoundTrip/Words.antt =====
-- Words that are printed are read as their tokens: mnemonics, registers, labels and references.
use smol_gpu.Prelude.{
  ℕ, ◌≡◌, refl, ap, subst, ◌∙◌, Bool, true, false, ◌||◌, Option, none, some, [], ◌∷◌, ◌++◌, Text,
  length-append, arith, all, ◌==◌,
}
use smol_gpu.Isa.Mnemonic
use smol_gpu.Isa.Mnemonic.{MnemonicName, Mnemonic, str_to_mnemonic}
use smol_gpu.Isa.Mnemonic.Names.{str_to_mnemonic-to_str, to_str-str_to_mnemonic}
use smol_gpu.Aslib.Chars.{is_numeric, is_alphabetic, is_alphanumeric, is_label_char}
use smol_gpu.Aslib.Token
use smol_gpu.Aslib.Token.{TokenType, Token}
use smol_gpu.Aslib.Lexer.{
  advance, chop_while, is_keyword_char, next_token, trim_whitespace, token_at, parse_keyword,
  keyword_token, token, ends_with_colon, found,
}
use smol_gpu.Aslib.RoundTrip.Lexing.{Delimits, Gives}

pub all-head : (p : ℕ → Bool) (c : ℕ) (cs : Text) → all p (c ∷ cs) ≡ true → p c ≡ true
all-head p c cs h = ground (arith, h)

pub all-tail : (p : ℕ → Bool) (c : ℕ) (cs : Text) → all p (c ∷ cs) ≡ true → all p cs ≡ true
all-tail p c cs h = ground (arith, h)

chop_while-word :
    (word rest : Text) (col : ℕ)
    → all is_keyword_char word ≡ true
    → Delimits rest
    → (end : ℕ) × (chop_while is_keyword_char col (word ++ rest)
        ≡ (word, record { column_number = end; source = rest }))
unfolding chop_while
chop_while-word [] [] col h k = (col, refl)
chop_while-word [] (c ∷ cs) col h k = (col, rw k refl)
chop_while-word (c ∷ cs) rest col h k =
    let (end, e) = chop_while-word cs rest (advance col) (all-tail is_keyword_char c cs h) k in
    (end, rw (all-head is_keyword_char c cs h, e) refl)

-- Texts that the lexer reads as one word: a letter, then bytes of a word.
abbrev pub IsWord : Text → Type 0
IsWord [] = ⊥
IsWord (c ∷ cs) = (is_alphabetic c ≡ true) × (all is_keyword_char (c ∷ cs) ≡ true)

no_space :
    (c : ℕ) → is_alphabetic c ≡ true → (c == b' ' || c == b'\t' || c == b'\r' || c == b'\n') ≡ false
unfolding is_alphabetic
no_space c h = ground (arith, h)

no_comment : (c : ℕ) → is_alphabetic c ≡ true → (c == b'#') ≡ false
unfolding is_alphabetic
no_comment c h = ground (arith, h)

no_number : (c : ℕ) → is_alphabetic c ≡ true → (c == b'-' || is_numeric c 10) ≡ false
unfolding is_alphabetic is_numeric
no_number c h = ground (arith, h)

parse_keyword-word :
    (word rest : Text) (t : TokenType) (col : ℕ)
    → all is_keyword_char word ≡ true
    → Delimits rest
    → keyword_token word col ≡ token t col
    → (end : ℕ) × (parse_keyword col (word ++ rest)
        ≡ (token t col, record { column_number = end; source = rest }))
unfolding parse_keyword
parse_keyword-word word rest t col h k e =
    let (end, chopped) = chop_while-word word rest col h k in (end, rw (chopped, e) refl)

-- A word is left to `parse_keyword`.
next_token-keyword :
    (c : ℕ) (cs : Text) (col : ℕ)
    → is_alphabetic c ≡ true
    → next_token (record { column_number = col; source = c ∷ cs })
      ≡ found (parse_keyword col (c ∷ cs))
unfolding next_token trim_whitespace token_at
next_token-keyword c cs col first =
    rw (no_space c first, no_comment c first, no_number c first, first) refl

-- A word in front of a delimiter gives what `parse_keyword` makes of it.
pub word-Gives :
    (word rest : Text) (t : TokenType)
    → IsWord word
    → Delimits rest
    → ((col : ℕ) → keyword_token word col ≡ token t col)
    → Gives (word ++ rest) t rest
word-Gives [] rest t h k e = absurd h
word-Gives (c ∷ cs) rest t (first, others) k e = record {
  shorter = omega (arith, length-append {0} cs rest);
  gives = λ col.
      let (end, parsed) = parse_keyword-word (c ∷ cs) rest t col others k (e col) in
      (col, end, next_token-keyword c (cs ++ rest) col first ∙ ap found parsed);
}

-- The texts of mnemonics, and what tells them from other words.
unfoldable pub second_numeric : Text → Bool
unfolding is_numeric
second_numeric (c ∷ d ∷ cs) = is_numeric d 10
second_numeric _ = false

pub record IsMnemonicText (text : Text) : Type 0 where
  pub word : IsWord text
  pub no_digit : second_numeric text ≡ false
  pub no_colon : ends_with_colon text ≡ false

to_str-IsMnemonicText : (m : Mnemonic) → IsMnemonicText (Mnemonic.to_str m)
unfolding Mnemonic.to_str is_alphabetic is_keyword_char ends_with_colon is_alphanumeric
    is_label_char is_numeric second_numeric
to_str-IsMnemonicText m = by_name m.name m.has_s_prefix
  where
    by_name :
        (n : MnemonicName) (b : Bool)
        → IsMnemonicText (Mnemonic.to_str (record { name = n; has_s_prefix = b }))
    by_name Mnemonic.lui true = record { word = (refl, refl); no_digit = refl; no_colon = refl }
    by_name Mnemonic.lui false = record { word = (refl, refl); no_digit = refl; no_colon = refl }
    by_name _ true = record { word = (refl, refl); no_digit = refl; no_colon = refl }
    by_name _ false = record { word = (refl, refl); no_digit = refl; no_colon = refl }

keyword_token-mnemonic :
    (word : Text) (m : Mnemonic) (col : ℕ)
    → str_to_mnemonic word ≡ some m
    → keyword_token word col ≡ token (Token.mnemonic m) col
unfolding keyword_token
keyword_token-mnemonic word m col e = rw (keyword_token, e) refl

-- A printed mnemonic gives its token.
pub mnemonic-Gives :
    (m : Mnemonic) (rest : Text)
    → Delimits rest
    → Gives (Mnemonic.to_str m ++ rest) (Token.mnemonic m) rest
mnemonic-Gives m rest h =
    word-Gives (Mnemonic.to_str m) rest (Token.mnemonic m) (to_str-IsMnemonicText m).word h
      (λ col. keyword_token-mnemonic (Mnemonic.to_str m) m col (str_to_mnemonic-to_str m))

-- A word with a digit in second place, or a colon at the end, is no mnemonic.
pub no_mnemonic : (word : Text) → (IsMnemonicText word → ⊥) → str_to_mnemonic word ≡ none
no_mnemonic word h = go (str_to_mnemonic word) refl
  where
    go : (o : Option Mnemonic) → str_to_mnemonic word ≡ o → o ≡ none
    go none e = refl
    go (some m) e =
        absurd (h (subst IsMnemonicText (to_str-str_to_mnemonic word e) (to_str-IsMnemonicText m)))
