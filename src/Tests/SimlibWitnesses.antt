-- ===== src/Tests/SimlibWitnesses.antt =====
-- The theorems on sim/simlib/sim.hpp at concrete states.
use smol_gpu.Prelude.{
  ◌^◌, ℕ, ◌≡◌, ◌↔◌, ◌<◌, ◌==◌, some, none, [], ◌∷◌, codes, refl, arith, map, ◌-◌, if◌then◌else◌,
}
use smol_gpu.Simlib.Store.{Store, write}
use smol_gpu.Simlib.InstructionMemory
use smol_gpu.Simlib.InstructionMemory.{InstructionMemory}
use smol_gpu.Simlib.InstructionMemory.Served.{IsServed, process-IsServed}
use smol_gpu.Simlib.DataMemory
use smol_gpu.Simlib.DataMemory.{DataMemory}
use smol_gpu.Simlib.DataMemory.Cycle.{IsCycle, process-IsCycle}
use smol_gpu.Simlib.DataMemory.Printing.{entries, print_entry, print_memory}
use smol_gpu.Simlib.DataMemory.Printing.Listing.{Lists, take, print_memory-Lists}
use smol_gpu.Simlib.DataMemory.Reported.{reported, printed-reported}
use smol_gpu.Simlib.DataMemory.Faults.{IsFault, process-eq_none_iff}

abbrev instruction_memory : InstructionMemory
instruction_memory = record {
  read_valid = 0b11;
  read_address = λ j. j;
  read_ready = 0;
  read_data = λ j. 9;
  memory = write 1 0x7F [];
  stack_ptr = 0;
}

process-IsServed_example :
    IsServed 2 instruction_memory (InstructionMemory.process 2 instruction_memory)
process-IsServed_example = process-IsServed 2 instruction_memory (omega arith)

abbrev data_memory : DataMemory
data_memory = record {
  read_valid = 0b1;
  read_address = λ j. j;
  read_ready = 0;
  read_data = λ j. none;
  write_valid = 0b10;
  write_address = λ j. 0;
  write_data = λ j. 5;
  write_ready = 0;
  memory = [];
  stack_ptr = 0;
}

process-eq_none_iff_example :
    (DataMemory.process 2 data_memory ≡ none) ↔ ((j : ℕ) × (j < 2) × IsFault data_memory j)
process-eq_none_iff_example = process-eq_none_iff 2 data_memory

abbrev reading_memory : DataMemory
reading_memory = record data_memory { read_data = λ j. some 0 }

abbrev memory_behind : DataMemory
memory_behind = record {
  read_valid = 0b1;
  read_address = λ j. j;
  read_ready = 0b1;
  read_data = λ j. if j == 0 then some 5 else some 0;
  write_valid = 0b10;
  write_address = λ j. 0;
  write_data = λ j. 5;
  write_ready = 0b10;
  memory = write 0 5 [];
  stack_ptr = 0;
}

processed : DataMemory.process 2 reading_memory ≡ some memory_behind
unfolding DataMemory.process
processed = refl

process-IsCycle_example : IsCycle 2 reading_memory memory_behind
process-IsCycle_example = process-IsCycle 2 reading_memory (omega arith) processed

print_memory-Lists_example :
    (es : Store) × Lists es (write 3 7 (write 1 5 (write 3 6 [])))
    × (print_memory 2 (record data_memory { memory = write 3 7 (write 1 5 (write 3 6 [])) })
        ≡ map print_entry (take (2 - 1) es))
unfolding entries
print_memory-Lists_example =
    print_memory-Lists 2 (record data_memory { memory = write 3 7 (write 1 5 (write 3 6 [])) })
      (omega arith)

-- A write on channel 1 and a read on channel 0, both at the last address.
abbrev last_address : DataMemory
last_address = record data_memory {
  read_address = λ j. 2 ^ 32 - 1;
  write_address = λ j. 2 ^ 32 - 1;
}

abbrev last_address_behind : DataMemory
last_address_behind = record last_address {
  read_ready = 0b1;
  write_ready = 0b10;
  read_data = λ j. if j == 0 then none else none;
}

passed_over : DataMemory.process 2 last_address ≡ some last_address_behind
unfolding DataMemory.process
passed_over = refl

printed_texts :
    DataMemory.printed 2 last_address
    ≡ codes "Error: Write to invalid address 4294967295"
      ∷ codes "Error: Read from invalid address 4294967295"
      ∷ []
unfolding DataMemory.printed
printed_texts = refl

printed-reported_example : DataMemory.printed 2 last_address ≡ reported 2 last_address
printed-reported_example =
    printed-reported 2 last_address last_address_behind (omega arith) passed_over
