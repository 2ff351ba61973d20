-- ===== src/Isa/Encode/Imm21.antt =====
-- The shuffle of bits in `set_imm21` of sim/simlib/instructions.hpp.
use smol_gpu.Prelude.{ℕ, zero, suc, ◌+◌, ◌-◌, ◌*◌, ◌/◌, ◌%◌, ◌^◌, ◌==◌, if◌then◌else◌}

-- A `std::bitset`: the bit, 0 or 1, at each position.
abbrev pub Bitset : Type 0
Bitset = ℕ → ℕ

-- `std::bitset<21>(x)`
abbrev pub bitset_21 : ℕ → Bitset
bitset_21 x i = x % 2 ^ 21 / 2 ^ i % 2

-- `b[i] = v`
abbrev pub assign : ℕ → ℕ → Bitset → Bitset
assign i v b j = if j == i then v else b j

-- `for (; n rounds; i++) imm_j[i] = imm[i - back]`
abbrev pub copy_bits : ℕ → ℕ → ℕ → Bitset → Bitset → Bitset
copy_bits zero i back imm imm_j = imm_j
copy_bits (suc n) i back imm imm_j = copy_bits n (i + 1) back imm (assign i (imm (i - back)) imm_j)

-- The sum of the bits below position `n`.
abbrev pub to_ulong : ℕ → Bitset → ℕ
to_ulong zero b = 0
to_ulong (suc n) b = to_ulong n b + b n * 2 ^ n

-- The value that `set_imm21` adds to the word.
unfoldable pub imm_j_bits : ℕ → ℕ
imm_j_bits imm21 =
    let imm = bitset_21 imm21 in
    let sign = assign 31 (imm 20) (λ i. 0) in
    let high = copy_bits 10 21 20 imm sign in
    let eleven = assign 20 (imm 11) high in
    let low = copy_bits 8 12 0 imm eleven in to_ulong 32 (assign 0 0 low)
