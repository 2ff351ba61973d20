-- ===== src/Aslib/DataReader.antt =====
-- sim/aslib/data_reader.cpp: the lines `address: value` of a data file to the data memory.
pub mod Records
pub mod RoundTrip
use smol_gpu.Prelude.{ℕ, Option, none, some, List, [], ◌∷◌, Text, ◌==◌, if◌then◌else◌}
use mathlib.Core.Option
use smol_gpu.Prelude.Int.{ℤ, to_u32}
use smol_gpu.Prelude.Checked.{◌>>=◌}
use smol_gpu.Aslib.Error.{Expected, expected, unexpected}
use smol_gpu.Aslib.Chars.{trim_line}
use smol_gpu.Aslib.Number.{parse_num}
use smol_gpu.Simlib.Store.{Store, write}

abbrev push_left : ℕ → Text × Text → Text × Text
push_left c (left, right) = (c ∷ left, right)

-- `line.find(':')`, and what stands before the colon and behind it
unfoldable pub split_at_colon : Text → Option (Text × Text)
split_at_colon [] = none
split_at_colon (c ∷ cs) =
    if c == b':' then some ([], cs) else Option.map (push_left c) (split_at_colon cs)

-- The number as an `IData`; what `parse_num` leaves of the text is not looked at.
abbrev pub as_idata : Expected ℤ × Text → Option ℕ
as_idata (expected n, rest) = some (to_u32 n)
as_idata (unexpected e, rest) = none

unfoldable pub parse_line : Text → Option (ℕ × ℕ)
unfolding split_at_colon trim_line parse_num
parse_line line = do
  (left, right) ← split_at_colon (trim_line line)
  address ← as_idata (parse_num (trim_line left))
  value ← as_idata (parse_num (trim_line right))
  some (address, value)

-- What `read_data` returns; the error names the line.
pub data DataFile : Type 0 where
  loaded : Store → DataFile
  failed : Text → DataFile

abbrev pub store_record : Option (ℕ × ℕ) → Text → Store → (Store → DataFile) → DataFile
store_record none line memory rest = failed line
store_record (some (address, value)) line memory rest = rest (write address value memory)

-- The loop over the lines.
unfoldable pub read_lines : List Text → Store → DataFile
read_lines [] memory = loaded memory
read_lines (line ∷ lines) memory = store_record (parse_line line) line memory (read_lines lines)

-- `read_data`, on the lines of the file.
unfoldable pub read_data : List Text → DataFile
unfolding read_lines parse_line
read_data lines = read_lines lines []
