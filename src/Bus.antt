-- ===== src/Bus.antt =====
-- The event bus: src/Core/EventBus/EventBus.cpp.
pub mod Types
pub mod Posting
pub mod Dispatch
pub mod Growth
pub mod Laws
pub mod Tests
