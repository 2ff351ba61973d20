-- ===== src/Isa/Encode/Fields.antt =====
-- Each builder of sim/simlib/instructions.hpp succeeds on operands in range, and makes the word
-- whose fields, as the decoder slices them, are the operands.
use smol_gpu.Prelude.{ℕ, ◌+◌, ◌*◌, ◌/◌, ◌%◌, ◌^◌, ◌<◌, ◌≡◌, ap, some, true, arith, bit_or, lt→ltb}
use smol_gpu.Prelude.Word.{bit_or-above, bit_or-low, bit_or-shift, zero-bit_or}
use native.Mathlib.Nat.{mod-eq_of_lt, div-eq_of_lt}
use smol_gpu.Isa.Opcode.{Opcode, opcode_bits}
use smol_gpu.Isa.Register.{Register}
use smol_gpu.Isa.Encode.{
  InstructionBits, contains, set_imm12, create_rtype_instruction, create_itype_instruction,
  create_utype_instruction, create_stype_instruction,
}
use smol_gpu.Isa.Encode.Layout.{
  opcode_bits-lt, funct3-lt, funct7-lt, set_opcode_lem, set_rd_lem, set_rs1_lem, set_rs2_lem,
  set_funct3_lem, set_funct7_lem, set_imm12_lem, set_imm20_lem,
}
use smol_gpu.Isa.Funct3.{funct3s}
use smol_gpu.Isa.Funct7.{funct7s}
use smol_gpu.Gpu.Decoder

abbrev pub InRange : Register → Type 0
InRange r = r.register_number < 32

abbrev at : ℕ → InstructionBits
at w = record { word = w }

-- The low 20 bits: the opcode, funct3, and the registers at 7 and at 15.
abbrev low : Opcode → ℕ → ℕ → ℕ → ℕ
low o f3 rd rs1 = opcode_bits o + f3 * 2 ^ 12 + rd * 2 ^ 7 + rs1 * 2 ^ 15

-- `w` has the fields of an I-type word.
pub record HasItypeFields (o : Opcode) (f3 : ℕ) (rd rs1 : Register) (imm : ℕ) (w : InstructionBits)
    : Type 0 where
  pub opcode_is : Decoder.opcode w.word ≡ opcode_bits o
  pub funct3_is : Decoder.funct3 w.word ≡ f3
  pub rd_is : Decoder.rd w.word ≡ rd.register_number
  pub rs1_is : Decoder.rs1 w.word ≡ rs1.register_number
  pub imm_is : Decoder.imm_i w.word ≡ imm
  pub fits : w.word < 2 ^ 32

pub record HasRtypeFields (o : Opcode) (f3 f7 : ℕ) (rd rs1 rs2 : Register) (w : InstructionBits)
    : Type 0 where
  pub opcode_is : Decoder.opcode w.word ≡ opcode_bits o
  pub funct3_is : Decoder.funct3 w.word ≡ f3
  pub funct7_is : Decoder.funct7 w.word ≡ f7
  pub rd_is : Decoder.rd w.word ≡ rd.register_number
  pub rs1_is : Decoder.rs1 w.word ≡ rs1.register_number
  pub rs2_is : Decoder.rs2 w.word ≡ rs2.register_number
  pub fits : w.word < 2 ^ 32

pub record HasUtypeFields (o : Opcode) (rd : Register) (imm : ℕ) (w : InstructionBits)
    : Type 0 where
  pub opcode_is : Decoder.opcode w.word ≡ opcode_bits o
  pub rd_is : Decoder.rd w.word ≡ rd.register_number
  pub imm_is : Decoder.imm_u w.word ≡ imm
  pub fits : w.word < 2 ^ 32

-- The fields of a store as the decoder sees them: the immediate is or-ed over `rs2`.
pub record HasStypeFields (o : Opcode) (f3 : ℕ) (rs1 rs2 : Register) (imm : ℕ) (w : InstructionBits)
    : Type 0 where
  pub opcode_is : Decoder.opcode w.word ≡ opcode_bits o
  pub funct3_is : Decoder.funct3 w.word ≡ f3
  pub rs1_is : Decoder.rs1 w.word ≡ rs1.register_number
  pub rs2_is : Decoder.rs2 w.word ≡ bit_or rs2.register_number (imm % 32)
  pub imm_is : Decoder.imm_s w.word ≡ imm / 32 * 32
  pub fits : w.word < 2 ^ 32

-- `rs2 | imm`, cut at the five bits of a register.
or_fields :
    (r imm : ℕ)
    → r < 32
    → imm < 4096
    → (bit_or r imm % 32 ≡ bit_or r (imm % 32))
      × (bit_or r imm / 32 ≡ imm / 32)
      × (bit_or r imm < 4096)
or_fields r imm hr hi =
    let low : bit_or r imm % 32 ≡ bit_or r (imm % 32) =
      rw (bit_or-low 5 r imm, mod-eq_of_lt {n = r} {m = 2 ^ 5} hr) in
    let high : bit_or r imm / 32 ≡ imm / 32 =
      rw (bit_or-shift 5 r imm, div-eq_of_lt {n = r} {m = 2 ^ 5} hr) (zero-bit_or _) in
    (low, high, omega arith)

utype_word :
    (o : Opcode) (rd : Register) (imm : ℕ)
    → InRange rd
    → imm < 1048576
    → create_utype_instruction o rd imm
      ≡ some (at (opcode_bits o + rd.register_number * 2 ^ 7 + imm * 2 ^ 12))
unfolding create_utype_instruction
utype_word o rd imm hd hi = rw (
  set_opcode_lem o,
  set_rd_lem rd (at (opcode_bits o)) hd (omega (arith, opcode_bits-lt o)),
  set_imm20_lem imm (at (opcode_bits o + rd.register_number * 2 ^ 7)) hi
      (omega (arith, opcode_bits-lt o)),
)

-- For a register below 32 and an immediate below 2^20 a U-type word is made; the decoder reads the
-- opcode, the register and the immediate from it, and it fits 32 bits.
pub create_utype_instruction-HasUtypeFields :
    (o : Opcode) (rd : Register) (imm : ℕ)
    → InRange rd
    → imm < 1048576
    → (w : InstructionBits) × (create_utype_instruction o rd imm ≡ some w)
      × HasUtypeFields o rd imm w
create_utype_instruction-HasUtypeFields o rd imm hd hi =
    (_, utype_word o rd imm hd hi, omega (arith, opcode_bits-lt o))

module _ (o : Opcode) (f3 : ℕ) (known : contains f3 funct3s ≡ true) where
  itype_word :
      (rd rs1 : Register) (imm : ℕ)
      → InRange rd
      → InRange rs1
      → imm < 4096
      → create_itype_instruction o f3 rd rs1 imm
        ≡ some (at (low o f3 rd.register_number rs1.register_number + imm * 2 ^ 20))
  unfolding create_itype_instruction
  itype_word rd rs1 imm hd h1 hi = rw (
    set_opcode_lem o,
    set_funct3_lem f3 (at (opcode_bits o)) known (omega (arith, opcode_bits-lt o)),
    set_rd_lem rd (at (opcode_bits o + f3 * 2 ^ 12)) hd
        (omega (arith, opcode_bits-lt o, funct3-lt f3 known)),
    set_rs1_lem rs1 (at (opcode_bits o + f3 * 2 ^ 12 + rd.register_number * 2 ^ 7)) h1
        (omega (arith, opcode_bits-lt o, funct3-lt f3 known)),
    set_imm12_lem imm (at (low o f3 rd.register_number rs1.register_number)) hi
        (omega (arith, opcode_bits-lt o, funct3-lt f3 known)),
  )

  -- For a known funct3, registers below 32 and an immediate below 4096 an I-type word is made; the
  -- decoder reads the opcode, the funct3, the registers and the immediate from it, and it fits 32 bits.
  pub create_itype_instruction-HasItypeFields :
      (rd rs1 : Register) (imm : ℕ)
      → InRange rd
      → InRange rs1
      → imm < 4096
      → (w : InstructionBits) × (create_itype_instruction o f3 rd rs1 imm ≡ some w)
        × HasItypeFields o f3 rd rs1 imm w
  create_itype_instruction-HasItypeFields rd rs1 imm hd h1 hi =
      (_, itype_word rd rs1 imm hd h1 hi, omega (arith, opcode_bits-lt o, funct3-lt f3 known))

  rtype_word :
      (f7 : ℕ) (rd rs1 rs2 : Register)
      → contains f7 funct7s ≡ true
      → InRange rd
      → InRange rs1
      → InRange rs2
      → create_rtype_instruction o f3 f7 rd rs1 rs2
        ≡ some (
            at (
              opcode_bits o
              + f3 * 2 ^ 12
              + f7 * 2 ^ 25
              + rd.register_number * 2 ^ 7
              + rs1.register_number * 2 ^ 15
              + rs2.register_number * 2 ^ 20))
  unfolding create_rtype_instruction
  rtype_word f7 rd rs1 rs2 known7 hd h1 h2 = rw (
    set_opcode_lem o,
    set_funct3_lem f3 (at (opcode_bits o)) known (omega (arith, opcode_bits-lt o)),
    set_funct7_lem f7 (at (opcode_bits o + f3 * 2 ^ 12)) known7
        (omega (arith, opcode_bits-lt o, funct3-lt f3 known)),
    set_rd_lem rd (at (opcode_bits o + f3 * 2 ^ 12 + f7 * 2 ^ 25)) hd
        (omega (arith, opcode_bits-lt o, funct3-lt f3 known)),
    set_rs1_lem rs1 (at (opcode_bits o + f3 * 2 ^ 12 + f7 * 2 ^ 25 + rd.register_number * 2 ^ 7)) h1
        (omega (arith, opcode_bits-lt o, funct3-lt f3 known)),
    set_rs2_lem rs2
        (at (
          opcode_bits o
          + f3 * 2 ^ 12
          + f7 * 2 ^ 25
          + rd.register_number * 2 ^ 7
          + rs1.register_number * 2 ^ 15))
        h2 (omega (arith, opcode_bits-lt o, funct3-lt f3 known)),
  )

  -- For a known funct3 and funct7 and registers below 32 an R-type word is made; the decoder reads the
  -- opcode, the functs and the registers from it, and it fits 32 bits.
  pub create_rtype_instruction-HasRtypeFields :
      (f7 : ℕ) (rd rs1 rs2 : Register)
      → contains f7 funct7s ≡ true
      → InRange rd
      → InRange rs1
      → InRange rs2
      → (w : InstructionBits) × (create_rtype_instruction o f3 f7 rd rs1 rs2 ≡ some w)
        × HasRtypeFields o f3 f7 rd rs1 rs2 w
  create_rtype_instruction-HasRtypeFields f7 rd rs1 rs2 known7 hd h1 h2 = (
    _,
    rtype_word f7 rd rs1 rs2 known7 hd h1 h2,
    omega (arith, opcode_bits-lt o, funct3-lt f3 known, funct7-lt f7 known7),
  )

  stype_word :
      (rs1 rs2 : Register) (imm : ℕ)
      → InRange rs1
      → InRange rs2
      → imm < 4096
      → create_stype_instruction o f3 rs1 rs2 imm
        ≡ some (at (low o f3 0 rs1.register_number + bit_or rs2.register_number imm * 2 ^ 20))
  unfolding create_stype_instruction set_imm12
  stype_word rs1 rs2 imm h1 h2 hi =
      rw
        (
          set_opcode_lem o,
          set_funct3_lem f3 (at (opcode_bits o)) known (omega (arith, opcode_bits-lt o)),
          set_rs1_lem rs1 (at (opcode_bits o + f3 * 2 ^ 12)) h1
              (omega (arith, opcode_bits-lt o, funct3-lt f3 known)),
          set_rs2_lem rs2 (at (opcode_bits o + f3 * 2 ^ 12 + rs1.register_number * 2 ^ 15)) h2
              (omega (arith, opcode_bits-lt o, funct3-lt f3 known)),
          lt→ltb _ _ hi,
          mod-eq_of_lt {n = imm * 2 ^ 20} {m = 2 ^ 32} (omega arith),
          bit_or-above 20 (opcode_bits o + f3 * 2 ^ 12 + rs1.register_number * 2 ^ 15)
              rs2.register_number imm (omega (arith, opcode_bits-lt o, funct3-lt f3 known)),
        )
        (ap (λ (n : ℕ). some (at n)) (omega arith))

  -- For a known funct3, registers below 32 and an immediate below 4096 a store word is made that fits
  -- 32 bits. The decoder reads the opcode, the funct3 and `rs1` from it; but as `rs2` the number of `rs2`
  -- or-ed with the low five bits of the immediate, and as immediate the rest of it, rounded down to 32.
  pub create_stype_instruction-HasStypeFields :
      (rs1 rs2 : Register) (imm : ℕ)
      → InRange rs1
      → InRange rs2
      → imm < 4096
      → (w : InstructionBits) × (create_stype_instruction o f3 rs1 rs2 imm ≡ some w)
        × HasStypeFields o f3 rs1 rs2 imm w
  create_stype_instruction-HasStypeFields rs1 rs2 imm h1 h2 hi = (
    _,
    stype_word rs1 rs2 imm h1 h2 hi,
    omega (arith, opcode_bits-lt o, funct3-lt f3 known, or_fields rs2.register_number imm h2 hi),
  )
