-- ===== src/Isa/Opcode.antt =====
-- `Opcode` of sim/simlib/instructions.hpp: the values, the scalar bit, and the texts.
use smol_gpu.Prelude.{
  ℕ, ◌^◌, Bool, false, not, ◌&&◌, ◌||◌, Option, none, some, List, [], ◌∷◌, ◌==◌, if◌then◌else◌,
  Text, codes, equal, bit_and, bit_or,
}
use mathlib.Core.Option

pub data Opcode : Type 0 where
  lui auipc itype rtype load stype : Opcode
  -- jumps and branches are scalar only
  jtype jalr btype : Opcode
  -- custom opcodes, scalar only
  halt sx_slt sx_slti : Opcode

-- The value of the enumerator. The 7th bit of a 6-bit value is the scalar flag.
unfoldable pub opcode_bits : Opcode → ℕ
opcode_bits lui = 0b110111
opcode_bits auipc = 0b010111
opcode_bits itype = 0b010011
opcode_bits rtype = 0b110011
opcode_bits load = 0b000011
opcode_bits stype = 0b100011
opcode_bits jtype = 0b1101111
opcode_bits jalr = 0b1100111
opcode_bits btype = 0b1100011
opcode_bits halt = 0b1111111
opcode_bits sx_slt = 0b1111110
opcode_bits sx_slti = 0b1111101

unfoldable pub opcodes : List Opcode
opcodes =
    lui ∷ auipc ∷ itype ∷ rtype ∷ load ∷ stype ∷ jtype ∷ jalr ∷ btype ∷ halt ∷ sx_slt ∷ sx_slti ∷ []

-- The test at the head of `is_of_type`: the opcodes of 6 bits.
unfoldable pub is_six_bits : Opcode → Bool
unfolding opcode_bits
is_six_bits type =
    let bits = opcode_bits type in
    bits == opcode_bits lui
    || bits == opcode_bits auipc
    || bits == opcode_bits itype
    || bits == opcode_bits rtype
    || bits == opcode_bits load
    || bits == opcode_bits stype

unfoldable pub is_of_type : ℕ → Opcode → Bool
unfolding is_six_bits opcode_bits
is_of_type opcode type =
    if is_six_bits type
    then bit_and opcode 0b111111 == opcode_bits type
    else opcode == opcode_bits type

unfoldable pub is_scalar : ℕ → Bool
is_scalar opcode = not (bit_and opcode (2 ^ 6) == 0)

unfoldable pub is_vector : ℕ → Bool
unfolding is_scalar
is_vector opcode = not (is_scalar opcode)

unfoldable pub to_scalar : ℕ → ℕ
to_scalar opcode = bit_or opcode (2 ^ 6)

-- `str.starts_with("s.")`
unfoldable pub starts_with_s : Text → Bool
starts_with_s (a ∷ b ∷ rest) = a == b's' && b == b'.'
starts_with_s _ = false

-- `str.remove_prefix(2)`, on a text of two bytes or more
unfoldable pub drop_two : Text → Text
drop_two (a ∷ b ∷ rest) = rest
drop_two str = str

-- The ladder of `str_to_opcode`, behind the prefix.
unfoldable pub base_opcode : Text → Option Opcode
unfolding equal
base_opcode str =
    if equal str (codes "lui")
    then some lui
    else if equal str (codes "auipc")
    then some auipc
    else if equal str (codes "addi")
    then some itype
    else if equal str (codes "add")
    then some rtype
    else if equal str (codes "sub")
    then some rtype
    else if equal str (codes "slli")
    then some itype
    else if equal str (codes "slti")
    then some itype
    else if equal str (codes "sltiu")
    then some itype
    else if equal str (codes "xori")
    then some itype
    else if equal str (codes "srli")
    then some itype
    else if equal str (codes "srai")
    then some itype
    else if equal str (codes "ori")
    then some itype
    else if equal str (codes "andi")
    then some itype
    else if equal str (codes "lb")
    then some load
    else if equal str (codes "lh")
    then some load
    else if equal str (codes "lw")
    then some load
    else if equal str (codes "sb")
    then some stype
    else if equal str (codes "sh")
    then some stype
    else if equal str (codes "sw")
    then some stype
    else if equal str (codes "beq")
    then some btype
    else if equal str (codes "bne")
    then some btype
    else if equal str (codes "blt")
    then some btype
    else if equal str (codes "bge")
    then some btype
    else if equal str (codes "jal")
    then some jtype
    else if equal str (codes "jalr")
    then some jalr
    else if equal str (codes "halt")
    then some halt
    else if equal str (codes "sx.slt")
    then some sx_slt
    else if equal str (codes "sx.slti")
    then some sx_slti
    else none

unfoldable pub str_to_opcode : Text → Option ℕ
unfolding starts_with_s drop_two base_opcode opcode_bits to_scalar
str_to_opcode str =
    let scalar = starts_with_s str in
    let rest = if scalar then drop_two str else str in
    Option.map (λ o. if scalar then to_scalar (opcode_bits o) else opcode_bits o) (base_opcode rest)

unfoldable pub opcode_to_str : ℕ → Text
unfolding opcode_bits is_scalar
opcode_to_str opcode =
    if opcode == opcode_bits lui
    then (if is_scalar opcode then codes "s.lui" else codes "lui")
    else if opcode == opcode_bits auipc
    then (if is_scalar opcode then codes "s.auipc" else codes "auipc")
    else if opcode == opcode_bits itype
    then (if is_scalar opcode then codes "s.<itype>" else codes "<itype>")
    else if opcode == opcode_bits rtype
    then (if is_scalar opcode then codes "s.<rtype>" else codes "<rtype>")
    else if opcode == opcode_bits load
    then (if is_scalar opcode then codes "s.<load>" else codes "<load>")
    else if opcode == opcode_bits stype
    then (if is_scalar opcode then codes "s.<store>" else codes "<store>")
    else if opcode == opcode_bits jtype
    then codes "jal"
    else if opcode == opcode_bits jalr
    then codes "jalr"
    else if opcode == opcode_bits btype
    then codes "beq"
    else if opcode == opcode_bits halt
    then codes "halt"
    else if opcode == opcode_bits sx_slt
    then codes "sx.slt"
    else if opcode == opcode_bits sx_slti
    then codes "sx.slti"
    else codes "unknown"
