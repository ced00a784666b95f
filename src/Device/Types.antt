-- ===== src/Device/Types.antt =====
-- The data of the pool device module. `F` is the type of floats.
use flowio_waveshare_qwiic.Prelude.{ℕ, Bool, true, false, Option, List}
use flowio_waveshare_qwiic.Floats.{FloatOps}

-- `PoolDeviceRuntimeBlockReason`
pub data BlockReason : Type 0 where
  none_ disabled interlock io_error max_uptime : BlockReason

abbrev pub is_disabled : BlockReason → Bool
is_disabled disabled = true
is_disabled _ = false

abbrev pub is_interlock : BlockReason → Bool
is_interlock interlock = true
is_interlock _ = false

abbrev pub is_io_error : BlockReason → Bool
is_io_error io_error = true
is_io_error _ = false

abbrev pub is_max_uptime : BlockReason → Bool
is_max_uptime max_uptime = true
is_max_uptime _ = false

-- The number that the block reason is published as.
abbrev pub reason_code : BlockReason → ℕ
reason_code none_ = 0
reason_code disabled = 1
reason_code interlock = 2
reason_code io_error = 3
reason_code max_uptime = 4

-- `PoolDeviceSvcStatus`
pub data Status : Type 0 where
  ok invalid_arg unknown_slot not_ready err_disabled err_interlock err_io err_max_uptime : Status

-- `PoolDeviceDefinition`; `max_uptime_day_sec` is 0 where the configured value is not positive.
pub record Definition (F : Type 0) : Type 0 where
  pub kind : ℕ
  pub enabled : Bool
  pub flow_l_per_hour : F
  pub tank_capacity_ml : F
  pub depends_on_mask : ℕ
  pub max_uptime_day_sec : ℕ

-- `PoolDeviceSlot`
pub record Slot (F : Type 0) : Type 0 where
  pub used : Bool
  pub def : Definition F
  pub io_id : ℕ
  pub desired_on : Bool
  pub actual_on : Bool
  pub block_reason : BlockReason
  pub last_tick_ms : ℕ
  pub running_ms_day : ℕ
  pub running_ms_week : ℕ
  pub running_ms_month : ℕ
  pub running_ms_total : ℕ
  pub injected_ml_day : F
  pub injected_ml_week : F
  pub injected_ml_month : F
  pub injected_ml_total : F
  pub tank_remaining_ml : F
  pub day_key : ℕ
  pub week_key : ℕ
  pub month_key : ℕ
  pub state_ts_ms : ℕ
  pub metrics_ts_ms : ℕ
  pub last_runtime_commit_ms : ℕ
  pub last_persist_ms : ℕ
  pub has_persisted_metrics : Bool
  pub persist_dirty : Bool
  pub persist_immediate : Bool
  pub force_metrics_commit : Bool

-- `PeriodKeys`
pub record PeriodKeys : Type 0 where
  pub day : ℕ
  pub week : ℕ
  pub month : ℕ

-- `PoolDeviceRuntimeStateEntry`
pub record StateEntry : Type 0 where
  pub valid : Bool
  pub enabled : Bool
  pub desired_on : Bool
  pub actual_on : Bool
  pub kind : ℕ
  pub block_reason : ℕ
  pub ts_ms : ℕ

-- `PoolDeviceRuntimeMetricsEntry`
pub record MetricsEntry (F : Type 0) : Type 0 where
  pub valid : Bool
  pub running_sec_day : ℕ
  pub running_sec_week : ℕ
  pub running_sec_month : ℕ
  pub running_sec_total : ℕ
  pub injected_ml_day : F
  pub injected_ml_week : F
  pub injected_ml_month : F
  pub injected_ml_total : F
  pub tank_remaining_ml : F
  pub ts_ms : ℕ

-- `PoolDeviceRuntimeData`
pub record RuntimeData (F : Type 0) : Type 0 where
  pub state : List StateEntry
  pub metrics : List (MetricsEntry F)

pub data ActivityCode : Type 0 where
  device_started device_stopped interlock_triggered : ActivityCode

-- `ActivityEvent`, without its texts. `safety` says severity Warning and source Safety, else it is
-- Success and System.
pub record Activity : Type 0 where
  pub slot : ℕ
  pub code : ActivityCode
  pub state : Bool
  pub safety : Bool

-- What the module uses and does not implement: floats, the digital outputs behind `IOServiceV2`
-- with their state (an unavailable service reads `none` and answers `false`), and whether the
-- metrics of a slot could be formatted and stored by `ConfigStore::set`.
pub record Env : Type 1 where
  pub floats : FloatOps
  pub open floats use *
  pub World : Type 0
  pub read_digital : World → ℕ → Option Bool
  pub write_digital : World → ℕ → Bool → Bool × World
  pub save_metrics : ℕ → Slot F → Bool

-- `POOL_DEVICE_MAX`
abbrev pub pool_device_max : ℕ
pool_device_max = 8
