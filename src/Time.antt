-- ===== src/Time.antt =====
-- The time scheduler: src/Modules/Network/TimeModule/TimeModule.cpp, the slots and their events.
pub mod Types
pub mod Clock
pub mod Table
pub mod System
pub mod Tick
pub mod ClockLaws
pub mod Bits
pub mod Listen
pub mod Events
pub mod Runs
pub mod TableLaws
pub mod Reserved
pub mod Decimal
pub mod Stored
pub mod Filtration
pub mod Tests
