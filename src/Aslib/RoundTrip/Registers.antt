-- ===== src/Aslib/RoundTrip/Registers.antt =====
-- Registers that are printed are read as their tokens.
use smol_gpu.Prelude.{
  ℕ, ◌<◌, ◌≡◌, ◌^◌, refl, sym, ap, ◌∙◌, true, false, none, ◌∷◌, ◌++◌, Text, arith, all,
}
use smol_gpu.Prelude.Int.{pos, to_u32}
use smol_gpu.Isa.Mnemonic.{str_to_mnemonic}
use smol_gpu.Isa.Register
use smol_gpu.Isa.Register.{RegisterType, Register, vector, scalar}
use smol_gpu.Aslib.Chars.{is_numeric, is_alphabetic, is_alphanumeric}
use smol_gpu.Aslib.Error.{expected}
use smol_gpu.Aslib.Number.{value_of, register_from, str_to_reg}
use smol_gpu.Aslib.Number.Digits.{IsDecimal, nil, cons, from_chars-fits}
use smol_gpu.Aslib.Number.Printed.{Prints-decimal}
use smol_gpu.Aslib.Token
use smol_gpu.Aslib.Token.{TokenType, Token}
use smol_gpu.Aslib.Lexer.{is_keyword_char, token, ends_with_colon, register_token, may_be_register}
use smol_gpu.Aslib.RoundTrip.Lexing.{Delimits, Gives}
use smol_gpu.Aslib.RoundTrip.Words.{IsWord, word-Gives, second_numeric, no_mnemonic}
use smol_gpu.Aslib.RoundTrip.Names.{keyword_token-register_token}

digit-keyword_char : (c : ℕ) → is_numeric c 10 ≡ true → is_keyword_char c ≡ true
unfolding is_keyword_char is_alphanumeric
digit-keyword_char c h = rw h (ground arith)

digits-keyword_chars : {ds : Text} → IsDecimal ds → all is_keyword_char ds ≡ true
digits-keyword_chars nil = refl
digits-keyword_chars (cons {c} d t) = rw (digit-keyword_char c d, digits-keyword_chars t) refl

digits-no_colon : {ds : Text} → IsDecimal ds → ends_with_colon ds ≡ false
unfolding ends_with_colon is_numeric
digits-no_colon nil = refl
digits-no_colon (cons d nil) = ground (arith, d)
digits-no_colon (cons d (cons e t)) = digits-no_colon (cons e t)

-- The digits of a register are read as its number.
str_to_reg-printed :
    (t : RegisterType) (d : ℕ) (ds : Text)
    → IsDecimal (d ∷ ds)
    → value_of 10 0 (d ∷ ds) < 2 ^ 31
    → str_to_reg (Register.letter t ∷ d ∷ ds)
      ≡ expected (record { register_number = to_u32 (pos (value_of 10 0 (d ∷ ds))); type = t })
unfolding str_to_reg
str_to_reg-printed vector d ds digits small =
    ap (register_from vector (d ∷ ds)) (from_chars-fits digits small)
str_to_reg-printed scalar d ds digits small =
    ap (register_from scalar (d ∷ ds)) (from_chars-fits digits small)

register_token-printed :
    (t : RegisterType) (digits : Text) (r : Register) (col : ℕ)
    → str_to_reg (Register.letter t ∷ digits) ≡ expected r
    → register_token (Register.letter t ∷ digits) col ≡ token (Token.register r) col
unfolding register_token may_be_register
register_token-printed vector digits r col e = rw (register_token, may_be_register, e) refl
register_token-printed scalar digits r col e = rw (register_token, may_be_register, e) refl

letter-IsWord : (t : RegisterType) {ds : Text} → IsDecimal ds → IsWord (Register.letter t ∷ ds)
unfolding is_alphabetic is_keyword_char
letter-IsWord vector digits = (refl, digits-keyword_chars digits)
letter-IsWord scalar digits = (refl, digits-keyword_chars digits)

-- A letter and digits are no mnemonic.
register-no_mnemonic :
    (c d : ℕ) (ds : Text) → is_numeric d 10 ≡ true → str_to_mnemonic (c ∷ d ∷ ds) ≡ none
register-no_mnemonic c d ds h = no_mnemonic (c ∷ d ∷ ds) (λ m. cc (m.no_digit, digit h))
  where
    digit : is_numeric d 10 ≡ true → second_numeric (c ∷ d ∷ ds) ≡ true
    digit h = unfold second_numeric in h

digits-Gives :
    (t : RegisterType) (n d : ℕ) (ds rest : Text)
    → is_numeric d 10 ≡ true
    → IsDecimal ds
    → value_of 10 0 (d ∷ ds) ≡ n
    → n < 2 ^ 31
    → Delimits rest
    → Gives
        (Register.letter t ∷ d ∷ (ds ++ rest))
        (Token.register (record { register_number = n; type = t }))
        rest
digits-Gives t n d ds rest h others value small k =
    word-Gives (Register.letter t ∷ d ∷ ds) rest _ (letter-IsWord t (cons h others)) k (λ col.
      keyword_token-register_token (Register.letter t ∷ d ∷ ds) col
        (register-no_mnemonic (Register.letter t) d ds h) (no_colon t)
      ∙ register_token-printed t (d ∷ ds) _ col (
          str_to_reg-printed t d ds (cons h others) (omega (arith, value, small))
          ∙ ap (λ (v : ℕ). expected (record { register_number = v; type = t }))
              (omega (arith, value, small))))
  where
    no_colon : (t : RegisterType) → ends_with_colon (Register.letter t ∷ d ∷ ds) ≡ false
    no_colon t = unfold ends_with_colon in digits-no_colon (cons h others)

-- A printed register gives its token.
pub register-Gives :
    (r : Register) (rest : Text)
    → r.register_number < 2 ^ 31
    → Delimits rest
    → Gives (Register.to_str r ++ rest) (Token.register r) rest
unfolding Register.to_str value_of
register-Gives r rest small h =
    let p = Prints-decimal r.register_number in
    rw p.text_is (
      digits-Gives r.type r.register_number p.head p.tail rest p.head_numeric p.tail_decimal
        (ap (value_of 10 0) (sym p.text_is) ∙ p.value_is) small h)
