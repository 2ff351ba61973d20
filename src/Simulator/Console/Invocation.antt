-- ===== src/Simulator/Console/Invocation.antt =====
-- The arguments with which sim/main.cpp gets as far as the source file.
use smol_gpu.Prelude.{◌≡◌, refl, Option, none, some, List, [], ◌∷◌, Text}
use smol_gpu.Aslib.Error.{Errc}
use smol_gpu.Aslib.Labels.{Labels}
use smol_gpu.Aslib.DataReader
use smol_gpu.Aslib.DataReader.{read_data}
use smol_gpu.Simlib.Store.{Store}
use smol_gpu.Simlib.Device.{Device}
use smol_gpu.Simulator.Console.{FileSystem, open_file, from_lines, main}

-- The arguments name a source file that there is, and a data file of records or none: the lines of the
-- source file, and the data.
pub data Invokes (files : FileSystem) : List Text → List Text → Option Store → Type 0 where
  source_only :
      {name input_filename : Text} {lines : List Text}
      → files input_filename ≡ some lines
      → Invokes files (name ∷ input_filename ∷ []) lines none
  with_data :
      {name input_filename data_filename : Text} {lines data_lines : List Text} {m : Store}
      → files input_filename ≡ some lines
      → files data_filename ≡ some data_lines
      → read_data data_lines ≡ DataReader.loaded m
      → Invokes files (name ∷ input_filename ∷ data_filename ∷ []) lines (some m)

-- From there `main` depends on the lines and the data only.
pub main-Invokes :
    (d : Device) (errc_message : Errc → Text) (in_order : Labels → Labels) (files : FileSystem)
    {arguments lines : List Text} {file_data : Option Store}
    → Invokes files arguments lines file_data
    → main d errc_message in_order files arguments
      ≡ from_lines d errc_message in_order file_data lines
unfolding main open_file
main-Invokes d errc_message in_order files (source_only source) = rw source refl
main-Invokes d errc_message in_order files (with_data source there loaded) =
    rw (there, loaded, source) refl
