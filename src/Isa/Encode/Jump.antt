-- ===== src/Isa/Encode/Jump.antt =====
-- The J-type word: what `set_imm21` shuffles, the decoder's `imm_j` puts back.
use smol_gpu.Prelude.{ℕ, ◌+◌, ◌*◌, ◌/◌, ◌%◌, ◌^◌, ◌<◌, ◌≡◌, some, arith, lt→ltb}
use smol_gpu.Prelude.Word.{bit_or-insert}
use smol_gpu.Isa.Opcode.{Opcode, opcode_bits}
use smol_gpu.Isa.Register.{Register}
use smol_gpu.Isa.Encode.{InstructionBits, create_jtype_instruction, set_imm21}
use smol_gpu.Isa.Encode.Imm21.{imm_j_bits}
use smol_gpu.Isa.Encode.Layout.{opcode_bits-lt, set_opcode_lem, set_rd_lem}
use smol_gpu.Gpu.Decoder

-- The immediate as it stands in the upper 20 bits of the word.
abbrev shuffled : ℕ → ℕ
shuffled imm =
    imm / 2 ^ 12 % 2 ^ 8
    + imm / 2 ^ 11 % 2 * 2 ^ 8
    + imm / 2 % 2 ^ 10 * 2 ^ 9
    + imm / 2 ^ 20 * 2 ^ 19

imm_j_bits_lem : (imm : ℕ) → imm < 2 ^ 21 → imm_j_bits imm ≡ shuffled imm * 2 ^ 12
unfolding imm_j_bits
imm_j_bits_lem imm h = omega arith

-- `w` has the fields of a J-type word; the lowest bit of the offset is dropped.
pub record HasJtypeFields (o : Opcode) (rd : Register) (imm : ℕ) (w : InstructionBits)
    : Type 0 where
  pub opcode_is : Decoder.opcode w.word ≡ opcode_bits o
  pub rd_is : Decoder.rd w.word ≡ rd.register_number
  pub imm_is : Decoder.imm_j w.word ≡ imm / 2 * 2
  pub fits : w.word < 2 ^ 32

abbrev jtype_sum : Opcode → ℕ → ℕ → ℕ
jtype_sum o rd imm = opcode_bits o + rd * 2 ^ 7 + shuffled imm * 2 ^ 12

jtype_word :
    (o : Opcode) (rd : Register) (imm : ℕ)
    → rd.register_number < 32
    → imm < 2 ^ 21
    → create_jtype_instruction o rd imm
      ≡ some (record { word = jtype_sum o rd.register_number imm })
unfolding create_jtype_instruction set_imm21
jtype_word o rd imm hd hi = rw (
  set_opcode_lem o,
  set_rd_lem rd (record { word = opcode_bits o }) hd (omega (arith, opcode_bits-lt o)),
  lt→ltb _ _ hi,
  imm_j_bits_lem imm hi,
  bit_or-insert 12 20 (opcode_bits o + rd.register_number * 2 ^ 7) (shuffled imm)
      (omega (arith, opcode_bits-lt o)) (omega arith),
)

-- For a register below 32 and an offset below 2^21 a J-type word is made that fits 32 bits; the decoder
-- reads the opcode, the register and the offset without its lowest bit from it.
pub create_jtype_instruction-HasJtypeFields :
    (o : Opcode) (rd : Register) (imm : ℕ)
    → rd.register_number < 32
    → imm < 2 ^ 21
    → (w : InstructionBits) × (create_jtype_instruction o rd imm ≡ some w)
      × HasJtypeFields o rd imm w
create_jtype_instruction-HasJtypeFields o rd imm hd hi =
    (_, jtype_word o rd imm hd hi, omega (arith, opcode_bits-lt o))
