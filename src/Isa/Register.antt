-- ===== src/Isa/Register.antt =====
-- `RegisterType` and `Register` of sim/simlib/instructions.hpp.
use smol_gpu.Prelude.{ℕ, Bool, true, false, ◌&&◌, ◌∷◌, ◌==◌, ltb, Text}
use smol_gpu.Prelude.Decimal.{decimal}

pub data RegisterType : Type 0 where
  vector scalar : RegisterType

pub record Register : Type 0 where
  pub register_number : ℕ
  pub type : RegisterType

abbrev pub bits : Register → ℕ
bits r = r.register_number

abbrev pub type_eq : RegisterType → RegisterType → Bool
type_eq vector vector = true
type_eq vector scalar = false
type_eq scalar vector = false
type_eq scalar scalar = true

unfoldable pub register_eq : Register → Register → Bool
register_eq a b = a.register_number == b.register_number && type_eq a.type b.type

unfoldable pub is_scalar : Register → Bool
is_scalar r = type_eq r.type scalar

unfoldable pub is_vector : Register → Bool
is_vector r = type_eq r.type vector

abbrev pub letter : RegisterType → ℕ
letter vector = b'x'
letter scalar = b's'

unfoldable pub to_str : Register → Text
unfolding decimal
to_str r = letter r.type ∷ decimal r.register_number

unfoldable pub validate : Register → Bool
validate r = ltb r.register_number 32

-- The literals `3_s` and `3_x`.
abbrev pub s_register : ℕ → Register
s_register n = record { register_number = n; type = scalar }

abbrev pub x_register : ℕ → Register
x_register n = record { register_number = n; type = vector }
