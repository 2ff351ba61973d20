-- ===== src/Aslib/RoundTrip/Lexing.antt =====
-- What `collect_tokens` makes of a text, one token after the other.
use smol_gpu.Prelude.{ℕ, zero, suc, ◌<◌, ◌≡◌, refl, false, some, List, [], ◌∷◌, Text, length, arith}
use smol_gpu.Aslib.Error.{expected}
use smol_gpu.Aslib.Token
use smol_gpu.Aslib.Token.{TokenType, Token}
use smol_gpu.Aslib.Lexer.{
  advance, next_token, trim_whitespace, token_at, is_keyword_char, collect, collect_tokens,
  punctuation,
}
use smol_gpu.Aslib.RoundTrip.Tokens.{placed}

-- A text that goes on with no byte of a word or a number.
abbrev pub Delimits : Text → Type 0
Delimits [] = Unit
Delimits (c ∷ cs) = is_keyword_char c ≡ false

-- `next_token` reads `t` at the front of `s` and leaves `rest`, whatever the column.
pub record Gives (s : Text) (t : TokenType) (rest : Text) : Type 0 where
  pub shorter : length rest < length s
  pub gives :
      (col : ℕ)
      → (first : ℕ) × (end : ℕ) × (next_token (record { column_number = col; source = s }) ≡ (
        some (expected (record { token_type = t; col = first })),
        record { column_number = end; source = rest },
      ))

-- The loop reads `ts` from `s`, and no error.
pub record Lexes (s : Text) (ts : List TokenType) : Type 0 where
  pub lexes :
      (fuel col : ℕ)
      → length s < fuel
      → (at_col : ℕ → ℕ) × (collect fuel (record { column_number = col; source = s })
          ≡ some (placed ts at_col, []))

abbrev first_col : ℕ → (ℕ → ℕ) → ℕ → ℕ
first_col c cs zero = c
first_col c cs (suc i) = cs i

pub nil-Lexes : Lexes [] []
unfolding collect next_token trim_whitespace token_at
nil-Lexes = record { lexes = go }
  where
    go :
        (fuel col : ℕ)
        → 0 < fuel
        → (at_col : ℕ → ℕ) × (collect fuel (record { column_number = col; source = [] })
            ≡ some (placed [] at_col, []))
    go zero col enough = absurd (omega arith)
    go (suc fuel) col enough = ((λ i. 0), refl)

pub cons-Lexes :
    {s rest : Text} {t : TokenType} {ts : List TokenType}
    → Gives s t rest
    → Lexes rest ts
    → Lexes s (t ∷ ts)
unfolding collect
cons-Lexes {s} {rest} {t} {ts} g h = record { lexes = go }
  where
    go :
        (fuel col : ℕ)
        → length s < fuel
        → (at_col : ℕ → ℕ) × (collect fuel (record { column_number = col; source = s })
            ≡ some (placed (t ∷ ts) at_col, []))
    go zero col enough = absurd (omega arith)
    go (suc fuel) col enough =
        let (c, d, e) = g.gives col in
        let (cs, others) = h.lexes fuel d (omega (arith, g.shorter, enough)) in
        (first_col c cs, rw (e, others))

-- A space in front is passed over.
pub space-Lexes : {s : Text} {ts : List TokenType} → Lexes s ts → Lexes (b' ' ∷ s) ts
unfolding collect next_token trim_whitespace
space-Lexes {s} {ts} h = record { lexes = go }
  where
    go :
        (fuel col : ℕ)
        → length (b' ' ∷ s) < fuel
        → (at_col : ℕ → ℕ) × (collect fuel (record { column_number = col; source = b' ' ∷ s })
            ≡ some (placed ts at_col, []))
    go zero col enough = absurd (omega arith)
    go (suc fuel) col enough = h.lexes (suc fuel) (advance col) (omega (arith, enough))

pub comma-Gives : (rest : Text) → Gives (b',' ∷ rest) Token.comma rest
unfolding next_token trim_whitespace token_at punctuation
comma-Gives rest = record { shorter = omega arith; gives = λ col. (col, advance col, refl) }

pub lparen-Gives : (rest : Text) → Gives (b'(' ∷ rest) Token.lparen rest
unfolding next_token trim_whitespace token_at punctuation
lparen-Gives rest = record { shorter = omega arith; gives = λ col. (col, advance col, refl) }

pub rparen-Gives : (rest : Text) → Gives (b')' ∷ rest) Token.rparen rest
unfolding next_token trim_whitespace token_at punctuation
rparen-Gives rest = record { shorter = omega arith; gives = λ col. (col, advance col, refl) }

-- A text whose tokens are read is collected.
pub Lexes-collect_tokens :
    (s : Text) (ts : List TokenType)
    → Lexes s ts
    → (col : ℕ → ℕ) × (collect_tokens s ≡ some (placed ts col, []))
unfolding collect_tokens
Lexes-collect_tokens s ts h = h.lexes (suc (length s)) 1 (omega arith)
