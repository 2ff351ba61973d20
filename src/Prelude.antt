-- ===== src/Prelude.antt =====
-- The names that the other modules share: the libraries' are passed on, and those of the children.
mod Tests
mod Lists
pub mod Int
pub mod Word
pub mod Bit
pub mod Decimal
pub mod Checked
pub use Tests.*
pub use Lists.{
  length, get_elem?, length-append, all, All, All-append, All-map, Text, codes, equal_iff,
  equal_refl,
}
unfoldable pub use Lists.{equal}
pub use Prim.Native.Nat.{
  ℕ, zero, suc, ◌+◌, ◌-◌, ◌*◌, ◌/◌, ◌%◌, ◌^◌, ◌≤◌, ◌<◌, bit_and, bit_or, bit_xor,
}
pub use Prim.Native.String.{String}
pub use mathlib.Core.Path.{◌≡◌, refl, sym, ap, ◌∙◌, subst}
pub use mathlib.Core.Logic.{◌≢◌, ◌↔◌, ◌⊎◌, inl, inr}
pub use mathlib.Core.Bool.{Bool, true, false, not, ◌&&◌, ◌||◌}
pub use mathlib.Core.Option.{Option, none, some}
pub use mathlib.Core.List.{List, [], ◌∷◌, ◌++◌, map, append-nil, append_assoc}
pub use native.Mathlib.Omega.{arith}
