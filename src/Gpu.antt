-- ===== src/Gpu.antt =====
-- The parts of the hardware (src/*.sv) that read what the assembler writes and carry it out.
pub mod Decoder
pub mod Alu
pub mod RegFile
