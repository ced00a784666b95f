-- ===== src/Logic.antt =====
-- Pool logic: src/Modules/PoolLogicModule. `Window` is FiltrationWindow.cpp, `Plan` is
-- PoolLogicScheduler.cpp, and the others are PoolLogicControl.cpp.
pub mod Window
pub mod Types
pub mod Devices
pub mod Pid
pub mod Plan
pub mod Sensors
pub mod Conditions
pub mod ConditionLaws
pub mod Demand
pub mod Heating
pub mod Loop
pub mod Lifecycle
pub mod Follow
pub mod WindowLaws
pub mod PidLaws
pub mod Requests
pub mod Pressure
pub mod Sessions
pub mod DosingLaws
pub mod Bench
pub mod Tests
