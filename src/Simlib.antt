-- ===== src/Simlib.antt =====
-- sim/simlib/sim.hpp: the memories that serve the channels of the simulated device.
pub mod Signal
pub mod Channels
pub mod Store
pub mod InstructionMemory
pub mod DataMemory
pub mod Device
pub mod Simulation
