-- ===== src/Lib.antt =====
-- Flow.io: the firmware of a pool controller (C++, ESP32). This library models the parts that decide
-- what the pool's equipment does, and the queues and formats that carry it to others.
--
-- The parts and their files (paths from the repository's root):
--
-- Alarm: src/Modules/AlarmModule/AlarmModule.cpp. `Alarms` is the module: its sixteen slots and the
-- events it has posted on the bus. `Alarm/Types` and `Alarm/Registry` have the data,
-- `registerAlarm_`, `reset_`, `resetAll_` and the queries; `Alarm/Engine` has `evaluateOnce_`, which
-- asks each alarm's condition, counts its delays, latches, and repeats reminders. The conditions are
-- callbacks, a parameter of the engine. The critical sections of the source are the steps of one
-- thread here.
--
-- Device: src/Modules/PoolDeviceModule/PoolDeviceControl.cpp. `Slot` is a device with its counters;
-- `Device/Control` and `Device/Slots` are the body of the loop of `tickDevices_`, one function for
-- each part of it, `Device/Module` has the loop, the resets of daily, weekly and monthly counters
-- and the recovery lock, and `Device/Operations` has `svcWriteDesiredImpl_`, `svcRefillTankImpl_`
-- and `resetUptimeSlot_` (PoolDeviceCommands.cpp). The outputs, and the storage of metrics, are the
-- interface `Env`: an output can be read or not, a write can fail. An internal tick inside a request
-- reads the clock again; that time is an argument (`later`).
--
-- Logic: src/Modules/PoolLogicModule. `Logic/Window` is FiltrationWindow.cpp; `Logic/Plan` is
-- PoolLogicScheduler.cpp, the next filtration plan; the others are PoolLogicControl.cpp:
-- `Logic/Devices` follows the devices and sends requests, `Logic/Pid` is the dosing controller,
-- `Logic/Sensors`, `Logic/Demand` and `Logic/Heating` are the parts of `runControlLoop_`, and
-- `Logic/Loop` composes them in its order; `Logic/Conditions` has the callbacks that the alarm
-- engine evaluates, and `Logic/Lifecycle` the events and the loop of PoolLogicLifecycle.cpp.
-- Sensors, alarms, devices, the scheduler and the configuration store are the interface `Services`.
-- It asks the devices by `write_desired`, the service that `Device/Operations` models, and asks
-- about the alarms that `Alarm` evaluates.
--
-- Startup: src/Core/ModuleManager.cpp. `Startup/Manager` has the registered modules, `Startup/Order`
-- the order of initialisation (`buildInitOrder`), `none` where the source returns false, and
-- `Startup/Release` the staged release (`tickStartup`), over the interface `Host` of the modules'
-- own start and the creation of tasks. Modules are told apart by their identifiers, which `add`
-- keeps distinct; the source compares pointers.
--
-- Time: src/Modules/Network/TimeModule/TimeModule.cpp, its scheduler. `Time/Clock` says when a slot
-- is on, `Time/Table` and `Time/System` are the operations of the service, `Time/Tick` is
-- `tickScheduler_`, with the events it posts as a list; `Time/Stored` writes and reads the text of
-- the schedule, and `Time/Decimal` the numbers in it, with the conversions of `snprintf` and
-- `sscanf` that the code uses (a number has 20 digits at most; the loop over the text has its length
-- as fuel); `Time/Filtration` puts the filtration window of the pool logic into its slot. The time
-- is an argument, with what `localtime_r` makes of it; whether the table could be stored is another,
-- and `setSlot_` is one step, in which no other task changes the table. Times before 1970 are not
-- distinguished from 0.
--
-- Ui: src/Core/RuntimeUi.cpp, the compact values that pages and displays ask for by id. `Ui/Writer`
-- is the binary writer, `Ui/Service` the registry and `readValues`; `Ui/Wire` is a reader of the
-- format, written from its layout and not from the code. A provider is a script of calls of the
-- writer.
--
-- Mqtt: src/Modules/Network/MQTTModule/MQTTQueue.cpp. `Jobs` is the table of publish jobs with its
-- three rings; `Mqtt/Queues` has `queueSlot_`, `Mqtt/Jobs` the requests and `dequeueNextJob_`,
-- `Mqtt/Process` the rounds of `processJobs_`. The capacities are a parameter, as the board's
-- profile sets them. The critical sections are the steps: between taking a job and settling it other
-- tasks may act. What a producer builds and whether the transport accepts it are arguments. The
-- bound on the rounds of `dequeueNextJob_` is the source's.
--
-- Bus: src/Core/EventBus/EventBus.cpp. `Bus` has the subscribers, the counters and the queue of the
-- operating system, which is the parameter `QueueOps`. What a callback posts is a parameter; the
-- posts of other tasks during a dispatch are not modelled. The bound of a dispatch is the source's.
--
-- Io: src/Modules/IOModule/IOModule.cpp. `Io` is the module with its digital and analog slots;
-- `Io/Table` has the definitions and the ids of the service, `Io/Cycle` the summary of a cycle,
-- `Io/Inputs` `processDigitalInputDefinition_` with its counters, and `Io/Outputs` the writes, the
-- pulses and `tickDigitalInputs_`. The pins and the store of totals are the interface `Env`. The
-- board's capacity is a parameter. Differences of counters do not overflow here, since drivers count
-- up from 0.
--
-- Floats: single-precision arithmetic is the parameter `FloatOps`. No law of it is assumed, so every
-- theorem holds for whatever the machine computes. `thousandths` is an instance for tests.
--
-- Prelude: numbers, Boolean tests, lists, machine words. Time is a 32-bit count of milliseconds;
-- `sub32` is its difference and wraps as the source's does. The heating assistant's seconds are
-- 16-bit.
--
-- Fuel: the loop that moves the dosing window has the time since the window's start: each step takes
-- at least a millisecond off it. The passes of the initialisation order have the source's own bound,
-- the number of modules.
--
-- Not modelled: text (JSON snapshots, commands, logs), the configuration store, the network
-- besides the MQTT jobs, the display, drivers and the synchronisation of the clock. Label and
-- title strings are kept only where the source tests them.
pub mod Prelude
pub mod Floats
pub mod Alarm
pub mod Device
pub mod Logic
pub mod Startup
pub mod Time
pub mod Ui
pub mod Mqtt
pub mod Bus
pub mod Io
