-- ===== src/Simlib/Store.antt =====
-- `std::unordered_map<IData, IData>` and `std::map<IData, IData>` as sim/simlib/sim.hpp uses them: an
-- association list, the last write in front. The order of iteration is not modelled.
use smol_gpu.Prelude.{ℕ, Option, none, some, List, [], ◌∷◌, ◌≡◌, ◌==◌, refl, if◌then◌else◌, arith}

abbrev pub Store : Type 0
Store = List (ℕ × ℕ)

unfoldable pub find : ℕ → Store → Option ℕ
find address [] = none
find address ((a, v) ∷ m) = if a == address then some v else find address m

-- `memory[address] = value`
abbrev pub write : ℕ → ℕ → Store → Store
write address value m = (address, value) ∷ m

-- What `memory[address]` is: 0 for a key that is not there.
unfoldable pub value_at : ℕ → Store → ℕ
unfolding find
value_at address m = elim (find address m) [ some v ↦ v | none ↦ 0 ]

abbrev insert_default : ℕ → Option ℕ → Store → Store
insert_default address (some v) m = m
insert_default address none m = write address 0 m

-- The read of `memory[address]` inserts the key that is not there.
unfoldable pub touch : ℕ → Store → Store
unfolding find
touch address m = insert_default address (find address m) m

pub value_at-write :
    (a address value : ℕ) (m : Store)
    → value_at a (write address value m) ≡ (if address == a then value else value_at a m)
unfolding value_at find
value_at-write a address value m = ground arith

-- A read changes no value.
pub value_at-touch : (a address : ℕ) (m : Store) → value_at a (touch address m) ≡ value_at a m
unfolding touch value_at find
value_at-touch a address m = go (find address m) refl
  where
    go :
        (o : Option ℕ) → find address m ≡ o → value_at a (insert_default address o m) ≡ value_at a m
    go (some v) e = refl
    go none e = ground (arith, e)
