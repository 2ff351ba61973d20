-- ===== src/Aslib/Lexer/Iterator.antt =====
-- `Lexer::Iterator` of sim/aslib/lexer.hpp, by which `collect_tokens` goes through the tokens. The
-- lexer that the pointer leads to is a part of the iterator; `none` is the null pointer.
use smol_gpu.Prelude.{
  ℕ, zero, suc, ◌≡◌, refl, Bool, true, false, Option, none, some, [], ◌∷◌, ◌++◌, append-nil,
  append_assoc, ap, ◌∙◌, if◌then◌else◌,
}
use mathlib.Core.Option
use smol_gpu.Aslib.Error.{Expected, expected, unexpected}
use smol_gpu.Aslib.Token.{Token}
use smol_gpu.Aslib.Lexer.{Lexer, next_token, Tokens, push_result, collect_after, collect}

pub record Iterator : Type 0 where
  pub current_token : Option (Expected Token)
  pub lexer : Option Lexer

-- The iterator that holds a result of `next_token`: without a token the pointer is null.
abbrev pub holding : Option (Expected Token) × Lexer → Iterator
holding (none, l) = record { current_token = none; lexer = none }
holding (some t, l) = record { current_token = some t; lexer = some l }

-- `Iterator(lexer)`
unfoldable pub begin : Lexer → Iterator
begin l = holding (next_token l)

abbrev advance_lexer : Option Lexer → Iterator → Iterator
advance_lexer none it = it
advance_lexer (some l) it = holding (next_token l)

-- `operator++`
unfoldable pub increment : Iterator → Iterator
increment it = advance_lexer it.lexer it

-- Both members are as in the default iterator.
abbrev is_default : Option Lexer → Option (Expected Token) → Bool
is_default none none = true
is_default none (some t) = false
is_default (some l) c = false

-- `it == end()`
unfoldable pub at_end : Iterator → Bool
at_end it = is_default it.lexer it.current_token

-- The body of the loop of `collect_tokens`, on `*it`. In the loop there always is a token.
abbrev pub push_back : Option (Expected Token) → Tokens → Tokens
push_back none acc = acc
push_back (some (expected t)) (tokens, errors) = (tokens ++ t ∷ [], errors)
push_back (some (unexpected e)) (tokens, errors) = (tokens, errors ++ e ∷ [])

-- `for (; it != end(); ++it)`, one unit of fuel for each test.
unfoldable pub drain : ℕ → Iterator → Tokens → Option Tokens
unfolding at_end increment
drain zero it acc = none
drain (suc n) it acc =
    let rest = drain n (increment it) (push_back it.current_token acc) in
    if at_end it then some acc else rest

abbrev pub behind : Tokens → Tokens → Tokens
behind (tokens, errors) (ts, es) = (tokens ++ ts, errors ++ es)

behind-push :
    (t : Expected Token) (acc rest : Tokens)
    → behind (push_back (some t) acc) rest ≡ behind acc (push_result t rest)
behind-push (expected t) (tokens, errors) (ts, es) = rw (append_assoc tokens (t ∷ []) ts)
behind-push (unexpected e) (tokens, errors) (ts, es) = rw (append_assoc errors (e ∷ []) es)

behind-map :
    (t : Expected Token) (acc : Tokens) (o : Option Tokens)
    → Option.map (behind (push_back (some t) acc)) o
      ≡ Option.map (behind acc) (Option.map (push_result t) o)
behind-map t acc none = refl
behind-map t acc (some rest) = ap some (behind-push t acc rest)

-- The loop over the iterator that `begin` gives, with the results so far, is `collect`, which takes
-- the results of `next_token` one by one.
pub drain-begin :
    (fuel : ℕ) (l : Lexer) (acc : Tokens)
    → drain fuel (begin l) acc ≡ Option.map (behind acc) (collect fuel l)
unfolding drain begin collect
drain-begin zero l acc = refl
drain-begin (suc n) l acc = go (next_token l) (λ m acc. drain-begin n m acc)
  where
    go :
        (r : Option (Expected Token) × Lexer)
        → ((m : Lexer) (acc : Tokens)
            → drain n (holding (next_token m)) acc ≡ Option.map (behind acc) (collect n m))
        → drain (suc n) (holding r) acc ≡ Option.map (behind acc) (collect_after (collect n) r)
    go (none, m) ih = rw (append-nil acc.0, append-nil acc.1)
    go (some t, m) ih = ih m (push_back (some t) acc) ∙ behind-map t acc (collect n m)
