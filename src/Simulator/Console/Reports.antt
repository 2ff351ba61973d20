-- ===== src/Simulator/Console/Reports.antt =====
-- What sim/main.cpp prints of a source file that the assembler refuses.
use smol_gpu.Prelude.{ℕ, ◌^◌, ◌<◌, ◌≡◌, refl, Option, some, List, [], ◌∷◌, Text, length, arith}
use smol_gpu.Aslib.Error.{Errc, Error}
use smol_gpu.Aslib.Error.Texts.{error_text}
use smol_gpu.Aslib.Labels.{Labels}
use smol_gpu.Aslib.Program.{failed, parse_program}
use smol_gpu.Aslib.Program.ErrorLines.{Names, parse_program-Names}
use smol_gpu.Simlib.Store.{Store}
use smol_gpu.Simlib.Device.{Device}
use smol_gpu.Simulator.Console.{
  Console, aborted, FileSystem, print_errors, print_error, from_lines, main,
}
use smol_gpu.Simulator.Console.Invocation.{Invokes, main-Invokes}

-- `main` ends with the first of the errors, which names one of `n` lines.
pub record ReportsFirst (errc_message : Errc → Text) (n : ℕ) (es : List Error) (c : Option Console)
    : Type 0 where
  pub first : Error
  pub others : List Error
  pub errors_are : es ≡ first ∷ others
  pub names : Names n first
  pub console_is :
      c ≡ some (record { out = []; err = error_text errc_message first ∷ []; ending = aborted })

from_lines-ReportsFirst :
    (d : Device) (errc_message : Errc → Text) (in_order : Labels → Labels)
    (file_data : Option Store) (lines : List Text) (es : List Error)
    → length lines < 2 ^ 32
    → parse_program lines ≡ some (failed es)
    → ReportsFirst errc_message
        (length lines)
        es
        (from_lines d errc_message in_order file_data lines)
unfolding print_errors print_error
from_lines-ReportsFirst d errc_message in_order file_data lines [] few h =
    absurd (omega (arith, (parse_program-Names lines [] few h).0))
from_lines-ReportsFirst d errc_message in_order file_data lines (e ∷ es) few h = record {
  first = e;
  others = es;
  errors_are = refl;
  names = (parse_program-Names lines (e ∷ es) few h).1.0;
  console_is = rw h refl;
}

-- On a source file of fewer than 2^32 lines that the assembler refuses, with a data file of records or
-- none, `main` prints the first of the errors, which names a line of the source file, and its process
-- ends in the assertion of `print_error`: the other errors are not printed.
pub main-ReportsFirst :
    (d : Device) (errc_message : Errc → Text) (in_order : Labels → Labels) (files : FileSystem)
    (arguments lines : List Text) (file_data : Option Store) (es : List Error)
    → Invokes files arguments lines file_data
    → length lines < 2 ^ 32
    → parse_program lines ≡ some (failed es)
    → ReportsFirst errc_message (length lines) es (main d errc_message in_order files arguments)
main-ReportsFirst d errc_message in_order files arguments lines file_data es h few refused =
    rw (main-Invokes d errc_message in_order files h)
      (from_lines-ReportsFirst d errc_message in_order file_data lines es few refused)
