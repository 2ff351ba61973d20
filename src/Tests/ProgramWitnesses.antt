-- ===== src/Tests/ProgramWitnesses.antt =====
-- The theorems on sim/aslib at concrete texts and instructions.
use smol_gpu.Prelude.{
  ◌≡◌, ◌↔◌, true, false, none, some, List, [], ◌∷◌, ◌++◌, refl, codes, Text, All, arith, map,
  length, ◌≤◌,
}
use smol_gpu.Prelude.Int.{pos, negate}
use smol_gpu.Isa.Register.{x_register}
use smol_gpu.Isa.Mnemonic
use smol_gpu.Isa.Mnemonic.{Mnemonic, name_to_determinant}
use smol_gpu.Isa.Mnemonic.{name_eq}
use smol_gpu.Aslib.Chars.{is_numeric}
use smol_gpu.Aslib.Error.{Error, duplicate_warps, expected}
use smol_gpu.Aslib.Number.{digit_run, value_of, parse_integral, parse_num}
use smol_gpu.Aslib.Number.Digits.{
  IsDecimal, nil, cons, Stops, at_end, at_other, parse_integral-fits,
}
use smol_gpu.Aslib.Number.Overflow.{Moves, parse_num-Moves}
use smol_gpu.Aslib.Token.{Token, mnemonic}
use smol_gpu.Aslib.Lexer.{start, collect, collect_tokens}
use smol_gpu.Aslib.Lexer.Stall.{collect-overflows}
use smol_gpu.Aslib.Syntax.{Line, Program, itype, jalr, label_ref}
use smol_gpu.Aslib.Parser.{parse_line}
use smol_gpu.Aslib.Parser.Lines.{Reports, IsAccepted, parse_line-Reports}
use mathlib.Core.Option
use smol_gpu.Aslib.Program.{ParsedProgram, parsed, failed, parse_program}
use smol_gpu.Aslib.Program.Accepts.{parse_program_iff}
use smol_gpu.Aslib.Program.Distinct.{AreDistinct}
use smol_gpu.Aslib.Program.ErrorLines.{Names, parse_program-Names}
use smol_gpu.Aslib.Program.Ends.{parse_program-ends}
use smol_gpu.Aslib.Lexer.Terminates.{HasShortRuns}
use smol_gpu.Aslib.Lexer.Hangs.{GetsStuck, collect_tokens-hangs_iff}
use smol_gpu.Aslib.Lexer.Iterator.{begin, drain, behind, drain-begin}
use smol_gpu.Aslib.DataReader.{loaded, read_data}
use smol_gpu.Aslib.DataReader.Records.{Describes, read_data-Describes}
use smol_gpu.Aslib.DataReader.RoundTrip.{record_line, store_all, read_data-records}
use smol_gpu.Aslib.Program.Layout.{Reads}
use smol_gpu.Aslib.Program.Reading.{IsProgramOf, parse_program-IsProgramOf}

abbrev pub vector : Mnemonic.MnemonicName → Mnemonic
vector n = record { name = n; has_s_prefix = false }

abbrev file : List Text
file =
    codes ".blocks 2" ∷ codes "" ∷ codes "loop: addi x5, x6, 7 # next" ∷ codes "jalr x1, loop" ∷ []

abbrev pub program : Program
program = record {
  blocks = 2;
  warps = 1;
  instructions =
      record {
        label = some (codes "loop");
        mnemonic = vector Mnemonic.addi;
        operands = itype (x_register 5) (x_register 6) (pos 7);
      }
      ∷ record {
        label = none;
        mnemonic = vector Mnemonic.jalr;
        operands = jalr (x_register 1) (x_register 0) (label_ref (codes "loop"));
      }
      ∷ [];
  label_mappings = (codes "loop", 0) ∷ [];
}

parse_program-IsProgramOf_example :
    (ls : List Line) × Reads file ls × All IsAccepted ls × IsProgramOf ls program
unfolding parse_program
parse_program-IsProgramOf_example = parse_program-IsProgramOf file program refl

abbrev halt_token : Token
halt_token = record { token_type = mnemonic (vector Mnemonic.halt); col = 1 }

parse_line-Reports_example : Reports (parse_line (halt_token ∷ []))
parse_line-Reports_example = parse_line-Reports halt_token []

abbrev large_digits : Text
large_digits = codes "147483648"

large_IsDecimal : IsDecimal (b'2' ∷ large_digits)
unfolding is_numeric
large_IsDecimal = cons refl (
    cons refl (
      cons refl
        (cons refl (cons refl (cons refl (cons refl (cons refl (cons refl (cons refl nil)))))))))

collect-overflows_example :
    collect 100 (record { column_number = 14; source = b'2' ∷ (large_digits ++ []) }) ≡ none
unfolding value_of
collect-overflows_example = collect-overflows large_IsDecimal at_end refl (omega arith) 14 100

parse_num-Moves_example : Moves (codes "-0x1F(s2)") (parse_num (codes "-0x1F(s2)"))
parse_num-Moves_example = parse_num-Moves b'-' (codes "0x1F(s2)") refl

comma_Stops : Stops (codes ", x1")
unfolding is_numeric
comma_Stops = at_other refl

small_IsDecimal : IsDecimal (codes "42")
unfolding is_numeric
small_IsDecimal = cons refl (cons refl nil)

parse_integral-fits_example :
    parse_integral true 10 (codes "42, x1")
    ≡ (expected (negate (pos (value_of 10 0 (codes "42")))), codes ", x1")
unfolding value_of
parse_integral-fits_example = parse_integral-fits true small_IsDecimal comma_Stops (omega arith)

parse_program_iff_example :
    ((p : Program) × (parse_program file ≡ some (parsed p)))
    ↔ ((ls : List Line) × Reads file ls × AreDistinct ls)
parse_program_iff_example = parse_program_iff file

abbrev short_lines : List Text
short_lines = codes "halt" ∷ codes ".warps 12" ∷ []

short_lines-HasShortRuns : All HasShortRuns short_lines
unfolding digit_run is_numeric
short_lines-HasShortRuns = (
  (omega arith, (omega arith, (omega arith, (omega arith, tt)))),
  (
    (
      omega arith,
      (
        omega arith,
        (
          omega arith,
          (
            omega arith,
            (omega arith, (omega arith, (omega arith, (omega arith, (omega arith, tt))))),
          ),
        ),
      ),
    ),
    tt,
  ),
)

parse_program-ends_example : (r : ParsedProgram) × (parse_program short_lines ≡ some r)
parse_program-ends_example = parse_program-ends short_lines short_lines-HasShortRuns

collect_tokens-hangs_iff_example :
    (collect_tokens (codes "addi x1, x2, 2147483648") ≡ none)
    ↔ GetsStuck (start (codes "addi x1, x2, 2147483648"))
collect_tokens-hangs_iff_example = collect_tokens-hangs_iff (codes "addi x1, x2, 2147483648")

drain-begin_example :
    drain 5 (begin (start (codes "halt , #"))) ([], [])
    ≡ Option.map (behind ([], [])) (collect 5 (start (codes "halt , #")))
drain-begin_example = drain-begin 5 (start (codes "halt , #")) ([], [])

read_data-Describes_example :
    Describes []
      (codes "0x10: 1" ∷ codes "none" ∷ [])
      (read_data (codes "0x10: 1" ∷ codes "none" ∷ []))
read_data-Describes_example = read_data-Describes (codes "0x10: 1" ∷ codes "none" ∷ [])

read_data-records_example :
    read_data (map record_line ((16, 1) ∷ (0, 205) ∷ []))
    ≡ loaded (store_all ((16, 1) ∷ (0, 205) ∷ []) [])
read_data-records_example =
    read_data-records ((16, 1) ∷ (0, 205) ∷ [])
      ((omega arith, omega arith), ((omega arith, omega arith), tt))

abbrev duplicate_lines : List Text
duplicate_lines = codes "" ∷ codes ".warps 2" ∷ codes ".warps 3" ∷ []

abbrev duplicate_error : Error
duplicate_error = record { message = duplicate_warps; column = 0; line = 3 }

duplicates-refused : parse_program duplicate_lines ≡ some (failed (duplicate_error ∷ []))
unfolding parse_program
duplicates-refused = refl

parse_program-Names_example :
    (1 ≤ length (duplicate_error ∷ []))
    × All (Names (length duplicate_lines)) (duplicate_error ∷ [])
parse_program-Names_example =
    parse_program-Names duplicate_lines (duplicate_error ∷ []) (omega arith) duplicates-refused
