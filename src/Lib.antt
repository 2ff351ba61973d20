-- ===== src/Lib.antt =====
-- smol-gpu: the assembler (sim/aslib), the instruction words (sim/simlib/instructions.hpp), the
-- memories and the loop of the simulation (sim/simlib/sim.hpp) and the program that puts them together
-- (sim/main.cpp), with the decoder (src/decoder.sv), the arithmetic unit (src/alu.sv) and the vector
-- registers (src/reg_file.sv) as what reads the words and carries them out.
--
-- How the parts interact. sim/main.cpp reads the lines of a file; `parse_program` runs the lexer and
-- the parser on each and collects instructions, labels and errors; `translate_to_binary` makes a word
-- of each instruction with the builders of instructions.hpp; the words are put into the instruction
-- memory and the records that `read_data` reads into the data memory; `simulate` evaluates the device,
-- lets both memories serve its channels and ticks its clock, until it is done.
--
-- Where the parts are modelled.
--   Prelude: helpers. Texts are lists of bytes, `Checked` is a run that an assertion, an exception or
--     the end of fuel may cut short, `Word` and `Bit` have the facts on `|` and `&` of words.
--   Isa.Opcode, Isa.Funct3, Isa.Funct7, Isa.Register, Isa.Mnemonic: the tables of
--     sim/simlib/instructions.hpp, with the source's names in lower case.
--   Isa.Encode, Isa.Instructions: `InstructionBits`, its setters and the builders; a failed
--     `assert_or_err`, which ends the process, is `none`. Children: Imm21 (the shuffle of `set_imm21`),
--     Layout and Fields and Jump (the words as sums of fields), Rejects (the assertions).
--   Isa.Execution: what the arithmetic instructions compute by the ISA in README.md, a description.
--   Gpu.Decoder: the wires and one decode step of src/decoder.sv, with src/common/common.sv.
--   Gpu.Alu: src/alu.sv. Child: Exact (the unit and the ISA).
--   Gpu.RegFile: src/reg_file.sv. Children: ReadOnly, Lanes (with the wires of src/compute_core.sv).
--   Aslib.Error: `Error` of sim/simlib/error.hpp; each format string is a constructor of `Message`.
--     Child: Texts (what the format strings make, and the line that `print_error` prints).
--   Aslib.Chars, Aslib.Number: sim/aslib/common.hpp and sim/aslib/parser_utils.cpp; a `string_view`
--     that a function shortens is an argument and a part of the result.
--   Aslib.Token, Aslib.Lexer: sim/aslib/token.hpp and sim/aslib/lexer.cpp. Children: Progress, Stall,
--     Hangs, Suffix and Terminates (when the loop ends), Iterator (the class of sim/aslib/lexer.hpp).
--   Aslib.Syntax, Aslib.Parser: sim/aslib/parser.hpp and the class `Parser` of sim/aslib/parser.cpp; a
--     method is a function from the parser to a result and the parser.
--   Aslib.Labels, Aslib.Program: `parse_program`; its local variables are the record `State`.
--     Children: Layout (what lines declare), Visit, Extension and Reading (what the program is),
--     Grows, Distinct and Accepts (which files are assembled), Ends, ErrorLines.
--   Aslib.Emitter: sim/aslib/emitter.cpp. Children: Decoded and Meaning (what the decoder reads from
--     the word of an instruction), Intended (what it is to read), Assembled (a program), Executed (an
--     arithmetic instruction against the decoder and the arithmetic unit), Constructed (the emitter
--     against the constructors of `sim::instructions`), Lanes (an arithmetic instruction against the
--     vector registers).
--   Aslib.RoundTrip: what `line_to_str` and `Instruction::to_str` print, assembled again. Children:
--     Tokens and Parsing (the tokens of a line, under the parser), Lexing, Numbers, Words, Names and
--     Registers (the texts of tokens, under the lexer), Lines, Files.
--   Aslib.DataReader: sim/aslib/data_reader.cpp. Children: Records, RoundTrip.
--   Simlib.Signal, Simlib.Store, Simlib.InstructionMemory, Simlib.DataMemory: sim/simlib/sim.hpp; the
--     signals of the device that the pointers reach are fields of the memories. Simlib.Channels has
--     what the loops over the channels share. Children of DataMemory: Faults, Reported (what it prints),
--     Cycle (with Writes and Reads), Printing (`print_memory`, as the list of its lines).
--   Simlib.Device, Simlib.Simulation: the other functions of sim/simlib/sim.hpp. The class `Vgpu` is
--     generated by Verilator and is a parameter, the record `Device`: any type with the members that
--     the code reads, assigns and calls. Around each `process` the signals are copied into the memory
--     and what it has assigned is copied back. What `process` prints to `stderr` is a function of
--     its own beside it, `printed`, as is `simulate_printed` beside `simulate`. Children: Steps (the loop
--     as a sequence of cycles), Pointers and Crashes (its writes through a null pointer).
--   Simulator: sim/main.cpp. Children: Loading (the words in the memory), Run (from source to
--     run), Finishing (the run behind the assembler), Console (the arguments, the files, what is
--     printed and how the process ends, with Invocation, Reports, Successes and Outcomes).
--   Tests: runs, and the theorems at concrete arguments.
--
-- Bounds and fuel. `uint32_t` values keep their wrap, as `u32`; an `int32_t` is an integer. The loop of
-- `collect_tokens` runs on fuel, one unit for a call of `next_token`, with one more than the text has
-- bytes, which is enough wherever any number of calls is; every other loop is structural, that of
-- `simulate` on its own bound. The constants, 8 channels and 200 cycles among them, are those of the
-- source; `process` takes the number of channels.
--
-- The files of `open_file` and `get_lines` are a function from paths to lines; the texts of
-- `std::make_error_code` and the order in which a hash map is iterated are parameters of Console.
--
-- Not modelled: what a failed assertion prints, and a build with NDEBUG, which does not compile; the
-- hardware besides the decoder, the arithmetic unit and the vector registers; what a `string_view`
-- shows once its string is gone; the buffer of `stdout`: a text counts as printed once it is handed
-- over. `std::from_chars` and `std::bitset` are written out as the standard
-- documents them.
mod Prelude
pub mod Isa
pub mod Gpu
pub mod Aslib
pub mod Simlib
pub mod Simulator
mod Tests
