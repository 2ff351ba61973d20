-- ===== src/Isa.antt =====
-- sim/simlib/instructions.hpp: the instruction set as the assembler and the simulator see it.
pub mod Execution
pub mod Opcode
pub mod Funct3
pub mod Funct7
pub mod Mnemonic
pub mod Register
pub mod Encode
pub mod Instructions
