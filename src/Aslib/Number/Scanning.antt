-- ===== src/Aslib/Number/Scanning.antt =====
-- What the scanning loop and `std::from_chars` leave of their input.
use smol_gpu.Prelude.{
  ℕ, ◌+◌, ◌≤◌, ◌<◌, ◌≡◌, inl, inr, refl, Bool, true, false, [], ◌∷◌, length, length-append, arith,
  Text, if◌then◌else◌, Bool-cases, ◌==◌, ◌||◌,
}
use smol_gpu.Prelude.Int.{ℤ}
use smol_gpu.Aslib.Error.{Expected, expected, unexpected}
use smol_gpu.Aslib.Number.{
  FromChars, parsed, failed, digit_run, from_run, from_chars, Scan, clean, bad, push_digit, scan,
  finish_number, from_scan, parse_integral, parse_magnitude,
}

pub digit_run-length :
    (base : ℕ) (s : Text) → length (digit_run base s).0 + length (digit_run base s).1 ≡ length s
unfolding digit_run
digit_run-length base [] = omega arith
digit_run-length base (c ∷ cs) = ground (arith, digit_run-length base cs)

from_run-shorter :
    (negative : Bool) (base : ℕ) (run rest s : Text) {n : ℤ} {left : Text}
    → length run + length rest ≤ length s
    → from_run negative base run rest ≡ parsed n left
    → length left < length s
from_run-shorter negative base [] rest s h e = cc
from_run-shorter negative base (d ∷ ds) rest s h e = ground arith

-- A parsed number took a digit.
pub from_chars-shorter :
    (base : ℕ) (s : Text) {n : ℤ} {left : Text}
    → from_chars base s ≡ parsed n left
    → length left < length s
unfolding from_chars
from_chars-shorter base [] h = cc
from_chars-shorter base (c ∷ cs) h = elim (Bool-cases (c == b'-')) [
  | inl sign ↦
      from_run-shorter true base (digit_run base cs).0 (digit_run base cs).1 (c ∷ cs)
        (omega (arith, digit_run-length base cs)) (rw sign at h)
  | inr plain ↦
      from_run-shorter false base (digit_run base (c ∷ cs)).0 (digit_run base (c ∷ cs)).1 (c ∷ cs)
        (omega (arith, digit_run-length base (c ∷ cs))) (rw plain at h)
]

-- The scanned text is cut in two.
abbrev pub Cuts : Text → Scan → Type 0
Cuts s (clean taken rest) = length taken + length rest ≡ length s
Cuts s (bad taken digit rest) = length taken + length rest ≡ length s

Cuts-push : (c : ℕ) (s : Text) (r : Scan) → Cuts s r → Cuts (c ∷ s) (push_digit c r)
Cuts-push c s (clean taken rest) h = omega arith
Cuts-push c s (bad taken digit rest) h = omega arith

pub scan-Cuts : (base : ℕ) (s : Text) → Cuts s (scan base s)
unfolding scan
scan-Cuts base [] = omega arith
scan-Cuts base (c ∷ cs) = ground (arith, Cuts-push c cs (scan base cs) (scan-Cuts base cs))

-- What a call that reads at least one of `len` bytes leaves, and of what kind its result is.
abbrev pub Shrinks : ℕ → Expected ℤ × Text → Type 0
Shrinks len (expected n, rest) = length rest < len
Shrinks len (unexpected e, rest) = length rest ≤ len

finish_number-Shrinks :
    (negative : Bool) (s taken rest : Text) (r : FromChars)
    → length taken + length rest ≡ length s
    → ((n : ℤ) (left : Text) → r ≡ parsed n left → length left < length taken)
    → Shrinks (length s) (finish_number negative s taken rest r)
finish_number-Shrinks negative s taken rest (failed ec) h shorter = omega arith
finish_number-Shrinks negative s taken rest (parsed n left) h shorter =
    omega (arith, shorter n left refl, length-append {0} left rest)

from_scan-Shrinks :
    (negative : Bool) (base : ℕ) (s : Text) (r : Scan)
    → Cuts s r
    → Shrinks (length s) (from_scan negative base s r)
from_scan-Shrinks negative base s (bad taken digit rest) h = omega arith
from_scan-Shrinks negative base s (clean taken rest) h =
    finish_number-Shrinks negative s taken rest (from_chars base taken) h
      (λ n left e. from_chars-shorter base taken e)

pub parse_integral-Shrinks :
    (negative : Bool) (base : ℕ) (s : Text) → Shrinks (length s) (parse_integral negative base s)
unfolding parse_integral
parse_integral-Shrinks negative base s =
    from_scan-Shrinks negative base s (scan base s) (scan-Cuts base s)

pub Shrinks-le :
    (len more : ℕ) (r : Expected ℤ × Text) → len ≤ more → Shrinks len r → Shrinks more r
Shrinks-le len more (expected n, rest) h k = omega arith
Shrinks-le len more (unexpected e, rest) h k = omega arith

pub Shrinks-if :
    (len : ℕ) (b : Bool) (x y : Expected ℤ × Text)
    → Shrinks len x
    → Shrinks len y
    → Shrinks len (if b then x else y)
Shrinks-if len true x y p q = p
Shrinks-if len false x y p q = q

pub parse_magnitude-Shrinks :
    (negative : Bool) (s : Text) → Shrinks (length s) (parse_magnitude negative s)
unfolding parse_magnitude
parse_magnitude-Shrinks negative [] = parse_integral-Shrinks negative 10 []
parse_magnitude-Shrinks negative (c ∷ []) = parse_integral-Shrinks negative 10 (c ∷ [])
parse_magnitude-Shrinks negative (c ∷ d ∷ cs) =
    Shrinks-if _ (c == b'0') _ _
      (Shrinks-if _ (d == b'x' || d == b'X') _ _
        (Shrinks-le _ _ (parse_integral negative 16 cs) (omega arith)
          (parse_integral-Shrinks negative 16 cs))
        (Shrinks-if _ (d == b'b' || d == b'B') _ _
          (Shrinks-le _ _ (parse_integral negative 2 cs) (omega arith)
            (parse_integral-Shrinks negative 2 cs))
          (parse_integral-Shrinks negative 8 (c ∷ d ∷ cs))))
      (parse_integral-Shrinks negative 10 (c ∷ d ∷ cs))
