-- ===== src/Aslib/RoundTrip/Names.antt =====
-- Labels, references, registers and directives that are printed are read as their tokens.
use smol_gpu.Prelude.{
  ℕ, ◌≡◌, refl, ap, subst, ◌∙◌, true, false, none, [], ◌∷◌, ◌++◌, Text, codes, append-nil, arith,
  Bool-cases, inl, inr, all,
}
use smol_gpu.Isa.Mnemonic.{str_to_mnemonic}
use smol_gpu.Aslib.Chars.{is_numeric, is_alphabetic, is_alphanumeric, is_label_char}
use smol_gpu.Aslib.Error.{Error, unexpected}
use smol_gpu.Aslib.Number.{str_to_reg}
use smol_gpu.Aslib.Token
use smol_gpu.Aslib.Token.{TokenType, Token}
use smol_gpu.Aslib.Lexer.{
  chop_while, is_keyword_char, next_token, trim_whitespace, token_at, keyword_token, token,
  ends_with_colon, remove_last, register_token, may_be_register, label_ref_token, parse_directive,
  punctuation, directive_token,
}
use smol_gpu.Aslib.RoundTrip.Lexing.{Delimits, Gives}
use smol_gpu.Aslib.RoundTrip.Words.{all-head, all-tail, IsWord, word-Gives, no_mnemonic}

keyword_token-colon :
    (word : Text) (col : ℕ)
    → str_to_mnemonic word ≡ none
    → ends_with_colon word ≡ true
    → all is_label_char (remove_last word) ≡ true
    → keyword_token word col ≡ token (Token.label (remove_last word)) col
unfolding keyword_token
keyword_token-colon word col e colon chars = rw (keyword_token, e, colon, chars) refl

pub keyword_token-register_token :
    (word : Text) (col : ℕ)
    → str_to_mnemonic word ≡ none
    → ends_with_colon word ≡ false
    → keyword_token word col ≡ register_token word col
unfolding keyword_token
keyword_token-register_token word col e colon = rw (keyword_token, e, colon) refl

-- A label's name: a letter, then letters, digits and underscores.
abbrev pub IsLabel : Text → Type 0
IsLabel [] = ⊥
IsLabel (c ∷ cs) = (is_alphabetic c ≡ true) × (all is_label_char (c ∷ cs) ≡ true)

-- A label's name that is a label reference where it is read: no mnemonic, and no register.
abbrev pub IsReference : Text → Type 0
IsReference name =
    IsLabel name × (str_to_mnemonic name ≡ none) × ((e : Error) × (str_to_reg name ≡ unexpected e))

label-keyword_chars :
    (name : Text) → all is_label_char name ≡ true → all is_keyword_char name ≡ true
unfolding is_keyword_char
label-keyword_chars [] h = refl
label-keyword_chars (c ∷ cs) h =
    rw (all-head is_label_char c cs h, label-keyword_chars cs (all-tail is_label_char c cs h))
      (ground arith)

label_colon : (name : Text) → all is_label_char name ≡ true → ends_with_colon name ≡ false
unfolding ends_with_colon is_label_char is_alphanumeric is_alphabetic is_numeric
label_colon [] h = refl
label_colon (c ∷ []) h = ground (arith, h)
label_colon (c ∷ d ∷ ds) h = label_colon (d ∷ ds) (all-tail is_label_char c (d ∷ ds) h)

colon_ends : (name : Text) → ends_with_colon (name ++ codes ":") ≡ true
unfolding ends_with_colon
colon_ends [] = refl
colon_ends (c ∷ []) = refl
colon_ends (c ∷ d ∷ ds) = colon_ends (d ∷ ds)

remove_last-colon : (name : Text) → remove_last (name ++ codes ":") ≡ name
unfolding remove_last
remove_last-colon [] = refl
remove_last-colon (c ∷ []) = refl
remove_last-colon (c ∷ d ∷ ds) = ap (λ t. c ∷ t) (remove_last-colon (d ∷ ds))

label-IsWord :
    (name after : Text) → all is_keyword_char after ≡ true → IsLabel name → IsWord (name ++ after)
label-IsWord [] after k h = absurd h
label-IsWord (c ∷ cs) after k (first, chars) =
    (first, all-append (c ∷ cs) after (label-keyword_chars (c ∷ cs) chars) k)
  where
    all-append :
        (a b : Text)
        → all is_keyword_char a ≡ true
        → all is_keyword_char b ≡ true
        → all is_keyword_char (a ++ b) ≡ true
    all-append [] b h k = k
    all-append (x ∷ xs) b h k =
        rw (all-head is_keyword_char x xs h, all-append xs b (all-tail is_keyword_char x xs h) k)
          refl

label-chars : (name : Text) → IsLabel name → all is_label_char name ≡ true
label-chars [] h = absurd h
label-chars (c ∷ cs) (first, chars) = chars

-- A printed label with its colon gives its token.
pub label-Gives :
    (name rest : Text)
    → IsLabel name
    → Delimits rest
    → Gives ((name ++ codes ":") ++ rest) (Token.label name) rest
label-Gives name rest h k =
    word-Gives (name ++ codes ":") rest (Token.label name)
      (label-IsWord name (codes ":") (unfold is_keyword_char in refl) h) k
      (λ col.
        keyword_token-colon (name ++ codes ":") col
          (no_mnemonic _ (λ m. cc (m.no_colon, colon_ends name))) (colon_ends name)
          (rw (remove_last-colon name) (label-chars name h))
        ∙ ap (λ n. token (Token.label n) col) (remove_last-colon name))

register_token-reference :
    (name : Text) (e : Error) (col : ℕ)
    → str_to_reg name ≡ unexpected e
    → all is_label_char name ≡ true
    → register_token name col ≡ token (Token.label_ref name) col
unfolding register_token label_ref_token
register_token-reference name e col failed chars = elim (Bool-cases (may_be_register name)) [
  | inl may ↦ rw (register_token, label_ref_token, may, failed, chars) refl
  | inr never ↦ rw (register_token, label_ref_token, never, chars) refl
]

-- A printed label reference gives its token.
pub label_ref-Gives :
    (name rest : Text)
    → IsReference name
    → Delimits rest
    → Gives (name ++ rest) (Token.label_ref name) rest
label_ref-Gives name rest (h, other, (e, failed)) k =
    word-Gives name rest (Token.label_ref name)
      (subst IsWord (append-nil name) (label-IsWord name [] refl h)) k
      (λ col.
        keyword_token-register_token name col other (label_colon name (label-chars name h))
        ∙ register_token-reference name e col failed (label-chars name h))

pub blocks-Gives :
    (rest : Text) → Gives (codes ".blocks " ++ rest) Token.blocks_directive (b' ' ∷ rest)
unfolding next_token trim_whitespace token_at punctuation parse_directive chop_while directive_token
blocks-Gives rest = record { shorter = omega arith; gives = λ col. (_, _, refl) }

pub warps-Gives :
    (rest : Text) → Gives (codes ".warps " ++ rest) Token.warps_directive (b' ' ∷ rest)
unfolding next_token trim_whitespace token_at punctuation parse_directive chop_while directive_token
warps-Gives rest = record { shorter = omega arith; gives = λ col. (_, _, refl) }
