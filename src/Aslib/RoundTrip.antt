-- ===== src/Aslib/RoundTrip.antt =====
-- Lines that are printed by `line_to_str` of sim/aslib/parser.cpp and `Instruction::to_str` of
-- sim/aslib/parser.hpp, and assembled again.
pub mod Tokens
pub mod Parsing
pub mod Lexing
pub mod Numbers
pub mod Words
pub mod Names
pub mod Registers
pub mod Lines
pub mod Files
