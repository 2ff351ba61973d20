-- ===== src/Simulator/Finishing.antt =====
-- How a run of sim/main.cpp on a program that is in bounds goes on behind the assembler.
use smol_gpu.Prelude.{◌≡◌, ◌⊎◌, refl, Bool, Option, none, some, List, Text}
use smol_gpu.Isa.Encode.{InstructionBits}
use smol_gpu.Aslib.Syntax.{Program}
use smol_gpu.Aslib.DataReader
use smol_gpu.Aslib.DataReader.{read_data}
use smol_gpu.Simlib.Store.{Store}
use smol_gpu.Simlib.Device.{Device}
use smol_gpu.Simlib.Simulation.{System, simulate, make_data_memory}
use smol_gpu.Simlib.Simulation.Pointers.{IsAttached}
use smol_gpu.Simlib.Simulation.Crashes.{started, Crashes}
use smol_gpu.Simulator.{Outcome, crashed, finished, set_up}

-- The data that the lines of the data file are read to, if there is one.
abbrev pub Loads : Option (List Text) → Option Store → Type 0
Loads none none = Unit
Loads none (some m) = ⊥
Loads (some data_lines) none = ⊥
Loads (some data_lines) (some m) = read_data data_lines ≡ DataReader.loaded m

-- The simulation from `s` on returns, or it writes through a null pointer: then, and only then, a channel
-- asks for the word at the last address and in a later round for one below it.
abbrev pub GoesOn : (d : Device) → System d → Option (Outcome d) → Type 0
GoesOn d s o =
    (((done : Bool) × (t : System d) × (simulate d 8 200 s ≡ some (done, t))
        × (o ≡ some (finished done t)))
      × ¬ Crashes d 8 200 (started d s))
    ⊎ ((o ≡ some crashed) × Crashes d 8 200 (started d s))

-- The memories that `main` makes have pointers to the device.
pub set_up-IsAttached :
    (d : Device) (file_data : Option Store) (p : Program) (ws : List InstructionBits)
    → IsAttached (set_up d file_data p ws).data_mem
unfolding set_up make_data_memory
set_up-IsAttached d file_data p ws j = (_, refl)
