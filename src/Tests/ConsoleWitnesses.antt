-- ===== src/Tests/ConsoleWitnesses.antt =====
-- The theorems on what sim/main.cpp prints at a small device, and on printed files.
use smol_gpu.Prelude.{
  ◌≡◌, false, none, some, List, [], ◌∷◌, refl, codes, Text, arith, All, map, equal,
}
use smol_gpu.Prelude.Int.{pos, negsuc}
use smol_gpu.Isa.Register.{x_register}
use smol_gpu.Isa.Mnemonic
use smol_gpu.Isa.Mnemonic.{Mnemonic}
use smol_gpu.Aslib.Error.{
  Errc, Error, unexpected_end_of_stream, unknown_directive, expected_mnemonic_or_directive,
}
use smol_gpu.Aslib.Labels.{Labels}
use smol_gpu.Aslib.Syntax.{
  Line, Program, just_label, blocks_directive, instruction, itype, jalr, stype, label_ref,
  line_to_str,
}
use smol_gpu.Aslib.Token.{token_type_to_str}
use smol_gpu.Aslib.Program.{parsed, failed, parse_program}
use smol_gpu.Aslib.Program.Reading.{IsProgramOf}
use smol_gpu.Isa.Register
use smol_gpu.Isa.Mnemonic.{name_eq}
use smol_gpu.Aslib.Chars.{is_alphabetic, is_label_char}
use smol_gpu.Aslib.Number.{str_to_reg}
use smol_gpu.Aslib.Program.Distinct.{AreDistinct}
use smol_gpu.Aslib.RoundTrip.Lines.{IsReadable}
use smol_gpu.Aslib.RoundTrip.Tokens.{IsLine}
use smol_gpu.Aslib.RoundTrip.Files.{parse_program-line_to_str}
use smol_gpu.Isa.Encode.{create_itype_instruction}
use smol_gpu.Isa.Instructions
use smol_gpu.Simlib.DataMemory
use smol_gpu.Simlib.InstructionMemory
use smol_gpu.Simlib.DataMemory.Printing.{print_memory}
use smol_gpu.Simulator.Console.{Console, exited, FileSystem, main}
use smol_gpu.Simulator.Console.Invocation.{source_only}
use smol_gpu.Simulator.Console.Reports.{ReportsFirst, main-ReportsFirst}
use smol_gpu.Simlib.Store.{Store}
use smol_gpu.Tests.SimulatorWitnesses.{device, lines}

abbrev errc_message : Errc → Text
errc_message ec = codes "errc"

abbrev in_order : Labels → Labels
in_order labels = labels

-- Two lines that are refused.
abbrev refused_lines : List Text
refused_lines = codes "addi x5," ∷ codes ".threads 3" ∷ []

abbrev only_file : List Text → FileSystem
only_file source path = some source

abbrev arguments : List Text
arguments = codes "sim" ∷ codes "a.as" ∷ []

abbrev errors : List Error
errors =
    record { message = unexpected_end_of_stream (codes "register"); column = 0; line = 1 }
    ∷ record { message = unknown_directive (codes "threads"); column = 9; line = 2 }
    ∷ record { message = expected_mnemonic_or_directive (codes "3"); column = 10; line = 2 }
    ∷ []

refused : parse_program refused_lines ≡ some (failed errors)
unfolding parse_program token_type_to_str
refused = refl

main-ReportsFirst_example :
    ReportsFirst errc_message 2 errors
      (main device errc_message in_order (only_file refused_lines) arguments)
main-ReportsFirst_example =
    main-ReportsFirst device errc_message in_order (only_file refused_lines) arguments refused_lines
      none errors (source_only refl) (omega arith) refused

-- What the run of two instructions and a device that reads the address 3 prints.
abbrev console : Console
console = record {
  out =
      (b'\n' ∷ codes "Succesfully parsed the entire file.")
      ∷ codes "Warps: 1, Blocks: 2"
      ∷ codes "Parsed 2 instructions:"
      ∷ codes "  0: loop: addi x5, x6, 7"
      ∷ codes "  1: jalr x1, loop"
      ∷ codes "Labels:"
      ∷ codes "  0: loop: 0"
      ∷ codes "Memory[3]: 0"
      ∷ [];
  err = [];
  ending = exited 0;
}

console_printed : main device errc_message in_order (only_file lines) arguments ≡ some console
unfolding main create_itype_instruction Instructions.jalr DataMemory.process DataMemory.printed
    InstructionMemory.printed print_memory
console_printed = refl

abbrev plain : Mnemonic.MnemonicName → Mnemonic
plain n = record { name = n; has_s_prefix = false }

-- A file with a label, a negative immediate, a store and a jump back.
abbrev printed_lines : List Line
printed_lines =
    blocks_directive 2
    ∷ just_label (codes "start")
    ∷ instruction (record {
      label = some (codes "loop");
      mnemonic = plain Mnemonic.addi;
      operands = itype (x_register 5) (x_register 6) (negsuc 6);
    })
    ∷ instruction (record {
      label = none;
      mnemonic = plain Mnemonic.sw;
      operands = stype (x_register 5) (x_register 6) (pos 32);
    })
    ∷ instruction (record {
      label = none;
      mnemonic = plain Mnemonic.jalr;
      operands = jalr (x_register 1) (x_register 0) (label_ref (codes "loop"));
    })
    ∷ []

printed_lines-IsLine : All IsLine printed_lines
unfolding Register.is_scalar Mnemonic.is_scalar name_eq
printed_lines-IsLine = (
  (omega arith, omega arith),
  (
    tt,
    (
      (record { fits = (refl, refl) }, tt),
      ((record { fits = (refl, refl) }, tt), ((record { fits = refl }, tt), tt)),
    ),
  ),
)

printed_lines-IsReadable : All IsReadable printed_lines
unfolding is_alphabetic is_label_char Mnemonic.str_to_mnemonic str_to_reg
printed_lines-IsReadable = (
  tt,
  (
    (refl, refl),
    (
      ((refl, refl), (omega arith, omega arith, omega arith)),
      (
        (tt, (omega arith, omega arith, omega arith)),
        ((tt, (omega arith, ((refl, refl), refl, (_, refl)))), tt),
      ),
    ),
  ),
)

printed_lines-AreDistinct : AreDistinct printed_lines
unfolding equal
printed_lines-AreDistinct = (
  (refl, (refl, (refl, (refl, tt)))),
  ((refl, (refl, (refl, tt))), ((refl, (refl, tt)), ((refl, tt), (tt, tt)))),
)

parse_program-line_to_str_example :
    (p : Program) × (parse_program (map line_to_str printed_lines) ≡ some (parsed p))
    × IsProgramOf printed_lines p
parse_program-line_to_str_example =
    parse_program-line_to_str printed_lines printed_lines-IsLine printed_lines-IsReadable
      printed_lines-AreDistinct
