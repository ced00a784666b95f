-- ===== src/Io/Types.antt =====
-- The data of the input and output module (IOModule.h, IIO.h and the endpoints). `F` is the type of
-- floats.
use flowio_waveshare_qwiic.Prelude.{ℕ, ℤ, Bool, true, false, Option, List}
use flowio_waveshare_qwiic.Floats.{FloatOps}

-- `DigitalSlotKind`
pub data Kind : Type 0 where
  input output : Kind

abbrev pub same_kind : Kind → Kind → Bool
same_kind input input = true
same_kind output output = true
same_kind input output = false
same_kind output input = false

-- `IoStatus`
pub data Status : Type 0 where
  ok invalid_arg unknown_id type_mismatch read_only not_ready hw : Status

abbrev pub io_id_invalid : ℕ
io_id_invalid = 65535

abbrev pub io_id_di_base : ℕ
io_id_di_base = 64

abbrev pub io_id_ai_base : ℕ
io_id_ai_base = 192

abbrev pub io_max_changed_ids : ℕ
io_max_changed_ids = 32

-- `BoardCapacityProfile::kIoCapacity`, which the board's profile sets.
pub record Capacity : Type 0 where
  pub max_digital_inputs : ℕ
  pub max_digital_outputs : ℕ
  pub max_analog_endpoints : ℕ

-- The value of an endpoint with its type.
pub data Value (F : Type 0) : Type 0 where
  boolean : Bool → Value F
  int32 : ℤ → Value F
  number : F → Value F

-- `IOEndpointValue`
pub record EndpointValue (F : Type 0) : Type 0 where
  pub value : Value F
  pub valid : Bool
  pub timestamp_ms : ℕ

-- The pointer `endpoint` of a digital slot: null, a `DigitalSensorEndpoint` or a
-- `DigitalActuatorEndpoint`.
pub data Endpoint (F : Type 0) : Type 0 where
  no_endpoint : Endpoint F
  sensor : EndpointValue F → Endpoint F
  actuator : EndpointValue F → Endpoint F

-- The configuration of a counter input, and the total that it was last seen to hold, `none` where
-- there is no memory for it. `precision` is 0 where the configured value is negative.
pub record CounterConfig (F : Type 0) : Type 0 where
  pub c0 : F
  pub counter_total : F
  pub precision : ℕ
  pub last_config_total : Option F

-- `DigitalSlot`. `bound` says that its driver is there, `rt_idx` is what `endpointIndexFromId_` finds
-- for its endpoint, and `has_callback` that `onValueChanged` is not null.
pub record Slot (F : Type 0) : Type 0 where
  pub used : Bool
  pub io_id : ℕ
  pub kind : Kind
  pub logical_idx : ℕ
  pub counter_mode : Bool
  pub momentary : Bool
  pub pulse_ms : ℕ
  pub bound : Bool
  pub endpoint : Endpoint F
  pub rt_idx : Option ℕ
  pub has_callback : Bool
  pub pulse_armed : Bool
  pub pulse_deadline_ms : ℕ
  pub last_valid : Bool
  pub last_value : Bool
  pub counter_config : CounterConfig F
  pub counter_scaled_total : F
  pub counter_last_persisted_total : F
  pub counter_last_raw_count : ℕ
  pub counter_last_flushed_raw_count : ℕ
  pub counter_last_persist_ms : ℕ

-- `AnalogSlot`, as far as its identity and its reading go.
pub record AnalogSlot (F : Type 0) : Type 0 where
  pub used : Bool
  pub io_id : ℕ
  pub endpoint : Option (EndpointValue F)

-- `IoCycleInfo`
pub record Cycle : Type 0 where
  pub seq : ℕ
  pub ts_ms : ℕ
  pub changed : List ℕ

-- What the module tells others: a value written to the data store, and a call of `onValueChanged`.
pub data Effect (F : Type 0) : Type 0 where
  stored : ℕ → Value F → ℕ → Effect F
  called : ℕ → Bool → Effect F

-- What the module uses and does not implement: floats with `roundf` and the integer part of `lroundf`,
-- the drivers of the pins with their state, and whether a counter's total could be stored. Counters
-- count up from 0.
pub record Env : Type 1 where
  pub floats : FloatOps
  pub open floats use *
  pub roundf : F → F
  pub lroundf : F → F
  pub World : Type 0
  pub write_pin : World → ℕ → Bool → World × Bool
  pub read_pin : World → ℕ → Option Bool
  pub read_count : World → ℕ → World × Option ℕ
  pub save_total : World → ℕ → F → Bool

-- `IOModule`. `cycle` is `none` until it is first needed, and `cycle_memory` says whether there is
-- memory for it; `has_store` and `has_config` say that `dataStore_` and `cfgStore_` are not null.
pub record Io (F : Type 0) : Type 0 where
  pub enabled : Bool
  pub runtime_ready : Bool
  pub slots : List (Slot F)
  pub analog : List (AnalogSlot F)
  pub cycle : Option Cycle
  pub cycle_memory : Bool
  pub has_store : Bool
  pub has_config : Bool
  pub effects : List (Effect F)
