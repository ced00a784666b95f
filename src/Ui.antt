-- ===== src/Ui.antt =====
-- The compact runtime values: src/Core/RuntimeUi.cpp and RuntimeUi.h.
pub mod Types
pub mod Writer
pub mod Service
pub mod Wire
pub mod WireLaws
pub mod WriterLaws
pub mod ServiceLaws
pub mod Answers
pub mod Limits
pub mod Tests
