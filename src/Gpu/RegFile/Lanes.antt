-- ===== src/Gpu/RegFile/Lanes.antt =====
-- A vector instruction in the lanes of a warp: the edges of the clock in which the registers are read, the
-- arithmetic units compute and the results are written, as src/compute_core.sv wires them.
use smol_gpu.Prelude.{ℕ, ◌≤◌, ◌≡◌, refl, Bool, true, false, not, ◌&&◌, ==_refl, leb, arith}
use smol_gpu.Gpu.Decoder
use smol_gpu.Gpu.Decoder.{Control}
use smol_gpu.Gpu.Alu
use smol_gpu.Gpu.RegFile.{Identity, Inputs, RegFile, WarpState, request, update, clock}

module _ (id : Identity) (lanes : ℕ → Bool) (lsu_out : ℕ → ℕ) (pc : ℕ) (c : Control) where
  -- The inputs of the register file in a state of the warp.
  abbrev edge : WarpState → (ℕ → ℕ) → Inputs
  edge state alu_out = record {
    enable = true;
    thread_enable = lanes;
    warp_state = state;
    write_enable = c.reg_write_enable && not c.scalar_instruction;
    decoded = c;
    alu_out = alu_out;
    lsu_out = lsu_out;
  }

  abbrev requested : RegFile → RegFile
  requested f = clock id (edge request (λ i. 0)) f

  -- The arithmetic unit of a lane, on what the register file has put out.
  abbrev lane_out : RegFile → ℕ → ℕ
  lane_out f i =
      Alu.clock false (lanes i && not c.scalar_instruction) c.alu_instruction pc c.immediate
        (f.rs1 i) (f.rs2 i) 0

  abbrev pub carry_out : RegFile → RegFile
  carry_out f = clock id (edge update (lane_out (requested f))) (requested f)

  lane_out-requested :
      (f : RegFile) (i : ℕ)
      → lanes i ≡ true
      → c.scalar_instruction ≡ false
      → lane_out (requested f) i
        ≡ Alu.clock false true c.alu_instruction pc c.immediate
            (f.registers i c.rs1_address)
            (f.registers i c.rs2_address)
            0
  unfolding clock
  lane_out-requested f i on vector = rw (on, vector) refl

  -- A lane that is on has the result of the unit on its own registers.
  pub carry_out-written :
      (f : RegFile) (i : ℕ)
      → lanes i ≡ true
      → c.reg_write_enable ≡ true
      → c.scalar_instruction ≡ false
      → c.reg_input_mux ≡ Decoder.alu_out
      → 4 ≤ c.rd_address
      → (carry_out f).registers i c.rd_address
        ≡ Alu.clock false true c.alu_instruction pc c.immediate
            (f.registers i c.rs1_address)
            (f.registers i c.rs2_address)
            0
  unfolding clock
  carry_out-written f i on write vector mux high =
      rw (on, write, vector, mux, ==_refl c.rd_address, at_least c.rd_address high)
        (lane_out-requested f i on vector)
    where
      at_least : (r : ℕ) → 4 ≤ r → leb 4 r ≡ true
      at_least r h = ground (arith, h)
