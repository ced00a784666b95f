-- ===== src/Startup.antt =====
-- Start-up: src/Core/ModuleManager.cpp.
pub mod Manager
pub mod Order
pub mod OrderLaws
pub mod Passes
pub mod Stuck
pub mod Success
pub mod Release
pub mod Steps
pub mod ReleaseLaws
pub mod Tests
