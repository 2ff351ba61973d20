-- ===== src/Aslib/Parser/Ensures.antt =====
-- What a method promises: a result with no new error, or no result and one new error.
use smol_gpu.Prelude.{
  ℕ, Bool, true, false, not, Option, none, some, List, [], ◌∷◌, ◌++◌, ◌≡◌, inl, inr, refl, bool_eq,
  Bool-cases, if◌then◌else◌,
}
use smol_gpu.Isa.Register
use smol_gpu.Aslib.Error.{Error, Message, register_should_be}
use smol_gpu.Aslib.Token.{Token, Kind, is_of_type}
use smol_gpu.Aslib.Parser.{
  Parser, Method, after, ◌>>=◌, fail, chop_front, expect, expect_next, as_register,
  check_register_correct_type,
}

abbrev pub Ensures {ℓ} : {A : Type ℓ} → (A → Type 0) → Parser → Option A × Parser → Type 0
Ensures P p (some a, q) = P a × (q.errors ≡ p.errors)
Ensures P p (none, q) = (e : Error) × (q.errors ≡ p.errors ++ e ∷ [])

module _ {ℓ κ} {A : Type ℓ} {B : Type κ} (P : A → Type 0) (Q : B → Type 0) where
  after-Ensures :
      (f : A → Method B) (p : Parser) (r : Option A × Parser)
      → Ensures P p r
      → ((a : A) (q : Parser) → P a → Ensures Q q (f a q))
      → Ensures Q p (after f r)
  after-Ensures f p (none, q) h k = h
  after-Ensures f p (some a, q) (holds, same) k = rw (← same) (k a q holds)

  pub bind-Ensures :
      (m : Method A) (f : A → Method B) (p : Parser)
      → Ensures P p (m p)
      → ((a : A) (q : Parser) → P a → Ensures Q q (f a q))
      → Ensures Q p ((m >>= f) p)
  bind-Ensures m f p = after-Ensures f p (m p)

pub if-Ensures {ℓ} :
    {A : Type ℓ} (P : A → Type 0) (b : Bool) (m n : Method A) (p : Parser)
    → (b ≡ true → Ensures P p (m p))
    → (b ≡ false → Ensures P p (n p))
    → Ensures P p ((if b then m else n) p)
if-Ensures P true m n p h k = h refl
if-Ensures P false m n p h k = k refl

expect_next-Ensures :
    (k : Kind) (ks : List Kind) (p : Parser) (ts : List Token)
    → Ensures (λ t. is_of_type (k ∷ ks) t ≡ true) p (expect_next k ks (chop_front ts p))
expect_next-Ensures k ks p [] = (_, refl)
expect_next-Ensures k ks p (t ∷ ts) = elim (Bool-cases (is_of_type (k ∷ ks) t)) [
  | inl fits ↦ rw fits (fits, refl)
  | inr other ↦ rw other (_, refl)
]

pub expect-Ensures :
    (k : Kind) (ks : List Kind) (p : Parser)
    → Ensures (λ t. is_of_type (k ∷ ks) t ≡ true) p (expect k ks p)
unfolding expect
expect-Ensures k ks p = expect_next-Ensures k ks p p.tokens

class-Ensures :
    (b scalar : Bool) (message : Message) (col : ℕ) (p : Parser)
    → Ensures
        (λ _. b ≡ scalar)
        p
        (if not (bool_eq b scalar) then fail {A = Unit {0}} message col p else (some tt, p))
class-Ensures true true message col p = (refl, refl)
class-Ensures true false message col p = (_, refl)
class-Ensures false true message col p = (_, refl)
class-Ensures false false message col p = (refl, refl)

pub check_register_correct_type-Ensures :
    (t : Token) (scalar : Bool) (p : Parser)
    → Ensures
        (λ _. Register.is_scalar (as_register t) ≡ scalar)
        p
        (check_register_correct_type t scalar p)
unfolding check_register_correct_type
check_register_correct_type-Ensures t scalar p =
    class-Ensures (Register.is_scalar (as_register t)) scalar
      (register_should_be (as_register t) scalar) t.col p
