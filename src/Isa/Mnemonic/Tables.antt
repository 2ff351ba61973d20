-- ===== src/Isa/Mnemonic/Tables.antt =====
-- The tables of sim/simlib/instructions.hpp agree with each other.
use smol_gpu.Prelude.{Bool, true, false, ◌||◌, ◌≡◌, refl}
use smol_gpu.Isa.Opcode
use smol_gpu.Isa.Opcode.{Opcode, opcode_bits}
use smol_gpu.Isa.Mnemonic.{
  MnemonicName, lui, halt, Mnemonic, name_eq, mnemonic_name_to_opcode, name_to_determinant,
  to_opcode, is_scalar,
}

-- The scalar bit of a mnemonic's opcode is set exactly for the scalar mnemonics and for `halt`.
pub is_scalar-to_opcode :
    (m : Mnemonic) → Opcode.is_scalar (to_opcode m) ≡ (is_scalar m || name_eq m.name halt)
unfolding to_opcode is_scalar name_eq Opcode.is_scalar
is_scalar-to_opcode m = by_name m.name m.has_s_prefix
  where
    by_name :
        (n : MnemonicName) (b : Bool)
        → let m : Mnemonic = record { name = n; has_s_prefix = b } in
          Opcode.is_scalar (to_opcode m) ≡ (is_scalar m || name_eq n halt)
    by_name lui true = refl
    by_name lui false = refl
    by_name _ true = refl
    by_name _ false = refl

-- The opcode in a name's determinant is that of `mnemonic_name_to_opcode`.
opcode-name_to_determinant :
    (n : MnemonicName) → (name_to_determinant n).opcode ≡ mnemonic_name_to_opcode n
unfolding name_to_determinant mnemonic_name_to_opcode
opcode-name_to_determinant lui = refl
opcode-name_to_determinant _ = refl
