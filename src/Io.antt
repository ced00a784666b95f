-- ===== src/Io.antt =====
-- Inputs and outputs: src/Modules/IOModule.
pub mod Types
pub mod Cycle
pub mod Table
pub mod Inputs
pub mod Outputs
pub mod Pulses
pub mod Edges
pub mod Touched
pub mod Readback
pub mod Ids
pub mod Enumeration
pub mod Known
pub mod Exposure
pub mod Registration
pub mod Definitions
pub mod Tests
