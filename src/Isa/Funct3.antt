-- ===== src/Isa/Funct3.antt =====
-- The enumerators of `Funct3` of sim/simlib/instructions.hpp. Several share a value, and the code
-- compares them by value, so each is the number that it stands for.
use smol_gpu.Prelude.{ℕ, List, [], ◌∷◌}

abbrev pub addi : ℕ
addi = 0b000

abbrev pub slti : ℕ
slti = 0b010

abbrev pub xori : ℕ
xori = 0b100

abbrev pub ori : ℕ
ori = 0b110

abbrev pub andi : ℕ
andi = 0b111

abbrev pub slli : ℕ
slli = 0b001

abbrev pub srli : ℕ
srli = 0b101

abbrev pub srai : ℕ
srai = 0b101

abbrev pub add : ℕ
add = 0b000

abbrev pub sub : ℕ
sub = 0b000

abbrev pub sll : ℕ
sll = 0b001

abbrev pub slt : ℕ
slt = 0b010

abbrev pub xor : ℕ
xor = 0b100

abbrev pub srl : ℕ
srl = 0b101

abbrev pub sra : ℕ
sra = 0b101

abbrev pub or : ℕ
or = 0b110

abbrev pub and : ℕ
and = 0b111

abbrev pub lb : ℕ
lb = 0b000

abbrev pub lh : ℕ
lh = 0b001

abbrev pub lw : ℕ
lw = 0b010

abbrev pub sb : ℕ
sb = 0b000

abbrev pub sh : ℕ
sh = 0b001

abbrev pub sw : ℕ
sw = 0b010

abbrev pub jalr : ℕ
jalr = 0b000

abbrev pub beq : ℕ
beq = 0b000

abbrev pub bne : ℕ
bne = 0b001

abbrev pub blt : ℕ
blt = 0b100

abbrev pub bge : ℕ
bge = 0b101

-- The values that `set_funct3` accepts.
abbrev pub funct3s : List ℕ
funct3s =
    addi ∷ slti ∷ xori ∷ ori ∷ andi ∷ slli ∷ srli ∷ srai ∷ add ∷ sub ∷ sll ∷ slt ∷ xor ∷ srl ∷ sra
    ∷ or ∷ and ∷ lb ∷ lh ∷ lw ∷ sb ∷ sh ∷ sw ∷ jalr ∷ beq ∷ bne ∷ blt ∷ bge ∷ []
