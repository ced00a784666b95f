-- ===== src/Alarm.antt =====
-- The alarm engine: src/Modules/AlarmModule/AlarmModule.cpp, with the types of
-- src/Core/Services/IAlarm.h and include/Core/AlarmIds.h. The slot array is a list, and each
-- `portENTER_CRITICAL` section is one step on it. Log lines are left out.
pub mod Types
pub mod Registry
pub mod Engine
pub mod Keys
pub mod Timers
pub mod Evolution
pub mod Clearing
pub mod Tests
