-- ===== src/Mqtt.antt =====
-- The publish jobs of MQTT: src/Modules/Network/MQTTModule/MQTTQueue.cpp.
pub mod Types
pub mod Queues
pub mod Jobs
pub mod Process
pub mod Keeps
pub mod Steps
pub mod Taking
pub mod Runs
pub mod Laws
pub mod Passing
pub mod Refusal
pub mod Producers
pub mod Tests
