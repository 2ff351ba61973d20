-- ===== src/Isa/Funct7.antt =====
-- The enumerators of `Funct7` of sim/simlib/instructions.hpp, as the numbers that they stand for.
use smol_gpu.Prelude.{ℕ, List, [], ◌∷◌}

abbrev pub slli : ℕ
slli = 0b0000000

abbrev pub srli : ℕ
srli = 0b0000000

abbrev pub srai : ℕ
srai = 0b0100000

abbrev pub add : ℕ
add = 0b0000000

abbrev pub sub : ℕ
sub = 0b0100000

abbrev pub sll : ℕ
sll = 0b0000000

abbrev pub slt : ℕ
slt = 0b0000000

abbrev pub xor : ℕ
xor = 0b0000000

abbrev pub srl : ℕ
srl = 0b0000000

abbrev pub sra : ℕ
sra = 0b0100000

abbrev pub or : ℕ
or = 0b0000000

abbrev pub and : ℕ
and = 0b0000000

-- The values that `set_funct7` accepts.
abbrev pub funct7s : List ℕ
funct7s = slli ∷ srli ∷ srai ∷ add ∷ sub ∷ sll ∷ slt ∷ xor ∷ srl ∷ sra ∷ or ∷ and ∷ []
