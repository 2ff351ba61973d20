-- ===== src/Tests.antt =====
-- Runs of the definitions on inputs of the program's own tests, and the theorems at concrete inputs.
mod LexerRuns
mod EncodeWitnesses
mod ProgramWitnesses
mod EmitterWitnesses
mod SimlibWitnesses
mod SimulatorWitnesses
mod ConsoleWitnesses
