-- ===== src/Simlib/DataMemory/Reported.antt =====
-- What a cycle of the data memory prints to `stderr`, by the requests that it finds.
use smol_gpu.Prelude.{
  ℕ, zero, suc, ◌≤◌, ◌≡◌, refl, ap, Bool, true, false, not, ◌&&◌, ltb, if◌then◌else◌, some, List,
  [], ◌∷◌, ◌++◌, Text, codes, arith,
}
use smol_gpu.Prelude.Checked.{bind-eq-some}
use smol_gpu.Prelude.Decimal.{decimal}
use smol_gpu.Simlib.Signal.{get_bit}
use smol_gpu.Simlib.InstructionMemory.{max_size}
use smol_gpu.Simlib.DataMemory.{
  DataMemory, process_writes, read_channel, process_reads, process, errors_of, printed_writes,
  printed_reads, printed,
}
use smol_gpu.Simlib.DataMemory.Cycle.Writes.{process_writes-Wrote}
use smol_gpu.Simlib.DataMemory.Cycle.Reads.{process_reads-HasRead}

-- The texts for the channels below `n` that ask for an address out of range, in ascending order.
unfoldable reports : Text → ℕ → ℕ → (ℕ → ℕ) → List Text
unfolding decimal get_bit
reports text zero valid address = []
reports text (suc n) valid address =
    reports text n valid address
    ++ (if get_bit valid n && not (ltb (address n) max_size)
        then (text ++ decimal (address n)) ∷ []
        else [])

-- A text for each write out of range, and behind these one for each read out of range.
unfoldable pub reported : ℕ → DataMemory → List Text
unfolding reports
reported n m =
    reports (codes "Error: Write to invalid address ") n m.write_valid m.write_address
    ++ reports (codes "Error: Read from invalid address ") n m.read_valid m.read_address

errors_of-if :
    (text : Text) (asks low : Bool) (address : ℕ)
    → errors_of text asks low address
      ≡ (if asks && not low then (text ++ decimal address) ∷ [] else [])
errors_of-if text true true address = refl
errors_of-if text true false address = refl
errors_of-if text false low address = refl

printed_writes-reports :
    (n : ℕ) (m : DataMemory)
    → n ≤ 8
    → printed_writes n m
      ≡ reports (codes "Error: Write to invalid address ") n m.write_valid m.write_address
unfolding printed_writes reports
printed_writes-reports zero m few = refl
printed_writes-reports (suc n) m few =
    let wrote = process_writes-Wrote n m (omega arith) in
    rw (printed_writes-reports n m (omega arith), wrote.write_valid_is, wrote.write_address_is)
      (ap
        (λ (l : List Text).
          reports (codes "Error: Write to invalid address ") n m.write_valid m.write_address ++ l)
        (errors_of-if (codes "Error: Write to invalid address ") _ _ (m.write_address n)))

printed_reads-reports :
    (n : ℕ) (m t : DataMemory)
    → n ≤ 8
    → process_reads n m ≡ some t
    → printed_reads n m
      ≡ reports (codes "Error: Read from invalid address ") n m.read_valid m.read_address
unfolding printed_reads reports process_reads
printed_reads-reports zero m t few ran = refl
printed_reads-reports (suc n) m t few ran =
    let (u, first, last) = bind-eq-some (process_reads n m) (read_channel n) ran in
    let read = process_reads-HasRead n m u (omega arith) first in
    rw
      (
        first,
        printed_reads-reports n m u (omega arith) first,
        read.read_valid_is,
        read.read_address_is n,
      )
      (ap
        (λ (l : List Text).
          reports (codes "Error: Read from invalid address ") n m.read_valid m.read_address ++ l)
        (errors_of-if (codes "Error: Read from invalid address ") _ _ (m.read_address n)))

-- With at most eight channels, a cycle of the data memory that ends prints to `stderr` one text for each
-- channel that asks, at the start of the cycle, to write at an address out of range, with the address,
-- and behind these one for each channel that asks to read at one, both in ascending order of the channels.
pub printed-reported :
    (n : ℕ) (m t : DataMemory) → n ≤ 8 → process n m ≡ some t → printed n m ≡ reported n m
unfolding printed reported process
printed-reported n m t few ran =
    let wrote = process_writes-Wrote n m few in
    rw
      (
        printed_writes-reports n m few,
        printed_reads-reports n (process_writes n m) t few ran,
        wrote.read_valid_is,
        wrote.read_address_is,
      )
      refl
