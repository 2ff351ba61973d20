-- ===== src/Simulator/Console/Outcomes.antt =====
-- The process of sim/main.cpp on a program that is in bounds.
use smol_gpu.Prelude.{◌≡◌, ◌⊎◌, Bool, Option, some, List, ◌++◌, Text, if◌then◌else◌}
use smol_gpu.Aslib.Labels.{Labels}
use smol_gpu.Aslib.Syntax.{Program}
use smol_gpu.Simlib.Store.{Store}
use smol_gpu.Simlib.Device.{Device}
use smol_gpu.Simlib.Simulation.{System, simulate, simulate_printed}
use smol_gpu.Simlib.Simulation.Crashes.{started, Crashes}
use smol_gpu.Simulator.Console.{Console, exited, aborted}

-- The process ends with an exit code, 0 where the device is done and 1 otherwise, or it is aborted by a write through a null pointer, the
-- latter exactly where a channel asks for the word at the last address and in a later round for one
-- below it; it has printed the texts of the program first, and to `stderr` what `simulate` prints there.
abbrev pub Ends : (d : Device) → List Text → System d → Option Console → Type 0
Ends d texts s c =
    (((done : Bool) × (t : System d) × (simulate d 8 200 s ≡ some (done, t))
        × (more : List Text) × (c
            ≡ some (record {
              out = texts ++ more;
              err = simulate_printed d 8 200 s;
              ending = exited (if done then 0 else 1);
            })))
      × ¬ Crashes d 8 200 (started d s))
    ⊎ ((c ≡ some (record { out = texts; err = simulate_printed d 8 200 s; ending = aborted }))
        × Crashes d 8 200 (started d s))
