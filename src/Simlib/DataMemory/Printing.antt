-- ===== src/Simlib/DataMemory/Printing.antt =====
-- `print_memory` of sim/simlib/sim.hpp: the lines that it prints.
pub mod Listing
use smol_gpu.Prelude.{ℕ, ◌+◌, List, [], ◌∷◌, ◌++◌, Text, codes, ◌==◌, ltb, leb, if◌then◌else◌}
use smol_gpu.Prelude.Word.{u32}
use smol_gpu.Prelude.Decimal.{decimal}
use smol_gpu.Simlib.Store.{Store}
use smol_gpu.Simlib.DataMemory.{DataMemory}

-- The entry at its place in a `std::map`, in place of one with its key.
unfoldable pub put : ℕ → ℕ → Store → Store
put address value [] = (address, value) ∷ []
put address value ((a, v) ∷ m) =
    let rest = put address value m in
    if ltb address a
    then (address, value) ∷ (a, v) ∷ m
    else if address == a
    then (address, value) ∷ m
    else (a, v) ∷ rest

-- The entries in the order of the map.
unfoldable pub entries : Store → Store
unfolding put
entries [] = []
entries ((address, value) ∷ m) = put address value (entries m)

-- `std::println("Memory[{}]: {}", key, value)`
unfoldable pub print_entry : ℕ × ℕ → Text
unfolding decimal
print_entry (key, value) = codes "Memory[" ++ decimal key ++ codes "]: " ++ decimal value

-- The loop, with `i` counted so far.
unfoldable pub print_entries : ℕ → ℕ → Store → List Text
unfolding print_entry
print_entries max_num_lines i [] = []
print_entries max_num_lines i (e ∷ es) =
    let rest = print_entries max_num_lines (u32 (i + 1)) es in
    if leb max_num_lines (u32 (i + 1)) then [] else print_entry e ∷ rest

unfoldable pub print_memory : ℕ → DataMemory → List Text
unfolding entries print_entries
print_memory max_num_lines m = print_entries max_num_lines 0 (entries m.memory)
