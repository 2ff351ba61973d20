-- ===== src/Gpu/RegFile.antt =====
-- src/reg_file.sv: the vector registers of one warp, 32 of each thread, under the clock.
pub mod ReadOnly
pub mod Lanes
use smol_gpu.Prelude.{ℕ, ◌+◌, ◌*◌, Bool, true, false, ◌&&◌, List, [], ◌∷◌, ◌==◌, leb, if◌then◌else◌}
use smol_gpu.Prelude.Word.{u32}
use smol_gpu.Gpu.Decoder
use smol_gpu.Gpu.Decoder.{Control, RegInputMux}

-- `warp_state_t`
pub data WarpState : Type 0 where
  idle fetch decode request wait execute update done : WarpState

-- The inputs `warp_id`, `block_id` and `block_size` at an edge of the clock; the dispatcher assigns a new
-- block before a core is reset.
pub record Identity : Type 0 where
  pub warp_id : ℕ
  pub block_id : ℕ
  pub block_size : ℕ

-- The inputs of one edge of the clock. `decoded_reg_write_enable` is an input of its own, since the core
-- masks it for scalar instructions.
pub record Inputs : Type 0 where
  pub enable : Bool
  pub thread_enable : ℕ → Bool
  pub warp_state : WarpState
  pub write_enable : Bool
  pub decoded : Control
  pub alu_out : ℕ → ℕ
  pub lsu_out : ℕ → ℕ

-- The registers of each thread, and the outputs.
pub record RegFile : Type 0 where
  pub registers : ℕ → ℕ → ℕ
  pub rs1 : ℕ → ℕ
  pub rs2 : ℕ → ℕ

unfoldable pub thread_id : Identity → ℕ → ℕ
thread_id id i = u32 (id.warp_id * 32 + i)

-- The special registers, and `other` for those from 4 on.
unfoldable pub special : Identity → ℕ → ℕ → ℕ → ℕ
unfolding thread_id
special id i r other =
    if r == 0
    then 0
    else if r == 1
    then thread_id id i
    else if r == 2
    then id.block_id
    else if r == 3
    then id.block_size
    else other

abbrev is_request : WarpState → Bool
is_request request = true
is_request _ = false

abbrev pub is_update : WarpState → Bool
is_update update = true
is_update _ = false

-- The `case` on the multiplexer; an error of it writes nothing.
abbrev pub selected : Inputs → ℕ → ℕ → RegInputMux → ℕ
selected inputs i old Decoder.alu_out = inputs.alu_out i
selected inputs i old Decoder.lsu_out = inputs.lsu_out i
selected inputs i old Decoder.immediate_in = inputs.decoded.immediate
selected inputs i old Decoder.vector_to_scalar = old
selected inputs i old Decoder.pc_plus_1 = old

-- Whether thread `i` writes its register `r`.
abbrev pub writes : Inputs → ℕ → ℕ → Bool
writes inputs i r =
    inputs.thread_enable i
    && (is_update inputs.warp_state
        && (inputs.write_enable
            && (leb 4 inputs.decoded.rd_address && r == inputs.decoded.rd_address)))

abbrev pub next_register : Identity → Inputs → (ℕ → ℕ → ℕ) → ℕ → ℕ → ℕ
next_register id inputs registers i r =
    if writes inputs i r
    then selected inputs i (registers i r) inputs.decoded.reg_input_mux
    else special id i r (registers i r)

abbrev pub next_output : Inputs → ℕ → ℕ → ℕ → ℕ
next_output inputs i value old =
    if inputs.thread_enable i && is_request inputs.warp_state then value else old

-- An edge with `reset`, on the registers.
unfoldable pub reset : Identity → RegFile → RegFile
unfolding special thread_id
reset id f = record f { registers = λ i r. special id i r 0 }

abbrev enabled_edge : Identity → Inputs → RegFile → RegFile
enabled_edge id inputs f = record {
  registers = next_register id inputs f.registers;
  rs1 = λ i. next_output inputs i (f.registers i inputs.decoded.rs1_address) (f.rs1 i);
  rs2 = λ i. next_output inputs i (f.registers i inputs.decoded.rs2_address) (f.rs2 i);
}

-- An edge without `reset`.
unfoldable pub clock : Identity → Inputs → RegFile → RegFile
unfolding special thread_id
clock id inputs f = if inputs.enable then enabled_edge id inputs f else f

-- Edges without `reset`, one after the other, each with all its inputs.
unfoldable pub run : List (Identity × Inputs) → RegFile → RegFile
unfolding clock
run [] f = f
run ((id, inputs) ∷ more) f = run more (clock id inputs f)
