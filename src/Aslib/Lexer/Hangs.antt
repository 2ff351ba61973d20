-- ===== src/Aslib/Lexer/Hangs.antt =====
-- Where the loop of `collect_tokens` does not end.
use smol_gpu.Prelude.{
  ℕ, zero, suc, ◌<◌, ◌≡◌, ◌⊎◌, ◌↔◌, inl, inr, refl, Option, none, some, length, arith, Text,
}
use smol_gpu.Aslib.Error.{Expected}
use smol_gpu.Aslib.Number.Overflow.{IsTooLarge}
use smol_gpu.Aslib.Token.{Token}
use smol_gpu.Aslib.Lexer.{
  Lexer, next_token, push_result, collect_after, collect, start, collect_tokens,
}
use smol_gpu.Aslib.Lexer.Progress.{collect_stalled, next_token-Steps, map-eq_none}

-- `m` is the lexer after some calls of `next_token`, each of which gave a result.
pub data Reaches : Lexer → Lexer → Type 0 where
  here : {l : Lexer} → Reaches l l
  step :
      {l m k : Lexer} {t : Expected Token} → next_token l ≡ (some t, m) → Reaches m k → Reaches l k

-- `next_token` changes nothing, and the digits in front are a number of 2^31 or more.
pub record IsStuck (l : Lexer) : Type 0 where
  pub result : Expected Token
  pub stays : next_token l ≡ (some result, l)
  pub large : IsTooLarge l.source

-- A stuck lexer that is reached.
abbrev pub GetsStuck : Lexer → Type 0
GetsStuck l = (m : Lexer) × Reaches l m × IsStuck m

collect-stuck : {l m : Lexer} → Reaches l m → IsStuck m → (fuel : ℕ) → collect fuel l ≡ none
unfolding collect
collect-stuck here stuck fuel = collect_stalled _ stuck.stays fuel
collect-stuck (step e r) stuck zero = refl
collect-stuck (step e r) stuck (suc fuel) = rw (e, collect-stuck r stuck fuel)

GetsStuck-step :
    {l m : Lexer} {t : Expected Token} → next_token l ≡ (some t, m) → GetsStuck m → GetsStuck l
GetsStuck-step e (k, r, stuck) = (k, step e r, stuck)

stuck-round :
    (n : ℕ) (l : Lexer) (r : Option (Expected Token) × Lexer)
    → next_token l ≡ r
    → length l.source < suc n
    → ((m : Lexer) → length m.source < n → collect n m ≡ none → GetsStuck m)
    → collect_after (collect n) r ≡ none
    → GetsStuck l
stuck-round n l (none, m) found h ih e = cc
stuck-round n l (some t, m) found h ih e = GetsStuck-step found (by_step (next_token-Steps l found))
  where
    by_step :
        (length m.source < length l.source) ⊎ ((next_token m ≡ (some t, m)) × IsTooLarge m.source)
        → GetsStuck m
    by_step (inl shorter) = ih m (omega arith) (map-eq_none (push_result t) (collect n m) e)
    by_step (inr (stays, large)) = (m, here, record { result = t; stays = stays; large = large })

collect-GetsStuck : (n : ℕ) (l : Lexer) → length l.source < n → collect n l ≡ none → GetsStuck l
unfolding collect
collect-GetsStuck zero l h e = absurd (omega arith)
collect-GetsStuck (suc n) l h e =
    stuck-round n l (next_token l) refl h (λ m k d. collect-GetsStuck n m k d) e

-- `collect_tokens` does not end exactly where calls of `next_token`, each with a result, lead to a
-- lexer that `next_token` does not change and that stands in front of decimal digits for a number of
-- 2^31 or more.
pub collect_tokens-hangs_iff :
    (source : Text) → (collect_tokens source ≡ none) ↔ GetsStuck (start source)
unfolding collect_tokens
collect_tokens-hangs_iff source = (
  collect-GetsStuck (suc (length source)) (start source) (omega arith),
  λ (m, r, stuck). collect-stuck r stuck (suc (length source)),
)
