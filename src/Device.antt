-- ===== src/Device.antt =====
-- Pool devices: src/Modules/PoolDeviceModule/PoolDeviceControl.cpp and the reset of
-- PoolDeviceCommands.cpp, with the types of PoolDeviceModule.h and PoolDeviceModuleDataModel.h.
pub mod Types
pub mod Control
pub mod Slots
pub mod Module
pub mod Operations
pub mod Safety
pub mod Recovery
pub mod Rounds
pub mod Service
pub mod Tests
