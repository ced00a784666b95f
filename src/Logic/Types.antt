-- ===== src/Logic/Types.antt =====
-- The state of PoolLogicModule and what it uses of other modules. `F` is the type of floats.
use flowio_waveshare_qwiic.Prelude.{ℕ, Bool, Option}
use flowio_waveshare_qwiic.Floats.{FloatOps}
use flowio_waveshare_qwiic.Device.Types.{Status}

-- `DeviceFsm`
pub record DeviceFsm : Type 0 where
  pub known : Bool
  pub on : Bool
  pub last_desired : Bool
  pub state_since_ms : ℕ
  pub last_cmd_ms : ℕ

-- `TemporalPidState`
pub record PidState (F : Type 0) : Type 0 where
  pub initialized : Bool
  pub sample_valid : Bool
  pub last_demand_on : Bool
  pub window_start_ms : ℕ
  pub last_compute_ms : ℕ
  pub sample_ts_ms : ℕ
  pub output_on_ms : ℕ
  pub runtime_ts_ms : ℕ
  pub sample_input : F
  pub sample_setpoint : F
  pub sample_error : F
  pub integral : F
  pub prev_error : F
  pub last_error : F

-- `HeatAssistReason`
pub data HeatReason : Type 0 where
  heat_disabled manual_mode psi_blocked setpoint_invalid temp_unavailable : HeatReason
  probe_wait_30m probe_wait_20m probe_running heating idle_pump_on setpoint_reached : HeatReason

-- `heatAssistFlags_` bit by bit, the two halves of `heatAssistTimingPacked_`, and the reason.
pub record HeatAssist : Type 0 where
  pub probing : Bool
  pub heating_active : Bool
  pub fast_cycle : Bool
  pub probe_start_sec : ℕ
  pub last_probe_end_sec : ℕ
  pub reason : HeatReason

-- The configuration that the control loop and the alarm conditions read. A signed window or sample time that is not
-- positive is 0.
pub record Config (F : Type 0) : Type 0 where
  pub enabled : Bool
  pub auto_mode : Bool
  pub winter_mode : Bool
  pub ph_auto_mode : Bool
  pub orp_auto_mode : Bool
  pub heater_auto_mode : Bool
  pub ph_dose_plus : Bool
  pub electrolyse_mode : Bool
  pub electro_run_mode : Bool
  pub tank_level_monitoring_enabled : Bool
  pub filtration_feedback_monitoring_enabled : Bool
  pub chlorine_generator_feedback_monitoring_enabled : Bool
  pub psi_low_threshold : F
  pub psi_high_threshold : F
  pub winter_start_temp_c : F
  pub freeze_hold_temp_c : F
  pub secure_electro_temp_c : F
  pub ph_setpoint : F
  pub orp_setpoint : F
  pub heater_setpoint : F
  pub ph_kp : F
  pub ph_ki : F
  pub ph_kd : F
  pub orp_kp : F
  pub orp_ki : F
  pub orp_kd : F
  pub ph_window_ms : ℕ
  pub orp_window_ms : ℕ
  pub pid_min_on_ms : ℕ
  pub pid_sample_ms : ℕ
  pub psi_startup_delay_sec : ℕ
  pub delay_pids_min : ℕ
  pub delay_electro_min : ℕ
  pub robot_delay_min : ℕ
  pub robot_duration_min : ℕ
  pub filling_min_on_sec : ℕ
  pub ph_io_id : ℕ
  pub orp_io_id : ℕ
  pub psi_io_id : ℕ
  pub water_temp_io_id : ℕ
  pub air_temp_io_id : ℕ
  pub level_io_id : ℕ
  pub ph_level_io_id : ℕ
  pub chlorine_level_io_id : ℕ
  pub filtration_feedback_io_id : ℕ
  pub chlorine_generator_feedback_io_id : ℕ
  pub filtration_slot : ℕ
  pub swg_slot : ℕ
  pub robot_slot : ℕ
  pub filling_slot : ℕ
  pub ph_pump_slot : ℕ
  pub orp_pump_slot : ℕ
  pub heater_slot : ℕ

-- The next plan and the sampling of the water temperature for it.
pub record Plan (F : Type 0) : Type 0 where
  pub calc_start_minute : ℕ
  pub calc_stop_minute : ℕ
  pub calc_duration_minute : ℕ
  pub active_duration_minute : ℕ
  pub continuous : Bool
  pub sampling_armed : Bool
  pub plan_stored : Bool
  pub last_sample_ms : ℕ
  pub sample_sum : F
  pub sample_count : ℕ
  pub window_active : Bool
  pub reconcile_pending : Bool

-- The rest of the module's state.
pub record Logic (F : Type 0) : Type 0 where
  pub filtration : DeviceFsm
  pub robot : DeviceFsm
  pub swg : DeviceFsm
  pub filling : DeviceFsm
  pub ph_pump : DeviceFsm
  pub orp_pump : DeviceFsm
  pub heater : DeviceFsm
  pub ph_pid : PidState F
  pub orp_pid : PidState F
  pub ph_pid_enabled : Bool
  pub orp_pid_enabled : Bool
  pub cleaning_done : Bool
  pub psi_error : Bool
  pub ph_tank_low_error : Bool
  pub chlorine_tank_low_error : Bool
  pub heat : HeatAssist
  pub plan : Plan F

-- `TimeSchedulerSlot`, the fields that differ between the plans.
pub record Schedule : Type 0 where
  pub slot : ℕ
  pub enabled : Bool
  pub start_hour : ℕ
  pub start_minute : ℕ
  pub end_hour : ℕ
  pub end_minute : ℕ

-- The alarms that the control loop asks about.
pub data AlarmName : Type 0 where
  psi_low psi_high ph_tank_low chlorine_tank_low filtration_contactor_mismatch : AlarmName

-- The services of other modules, over their state. A service or a value that is not available
-- reads `none`; `alarms` is `none` where there is no alarm service.
pub record Services : Type 1 where
  pub floats : FloatOps
  pub open floats use *
  pub World : Type 0
  -- the value and the time of an analog sensor
  pub read_analog : World → ℕ → Option (F × ℕ)
  pub read_digital : World → ℕ → Option Bool
  pub alarms : World → Option (AlarmName → Bool)
  -- the pool device service: the state of a device, and a request with its success
  pub read_actual : World → ℕ → Option Bool
  pub write_desired : World → ℕ → Bool → Bool × World
  -- the answer about a device, with its block reason
  pub read_meta : World → ℕ → Option (Status × ℕ)
  -- the time scheduler: whether a slot is active (`none` where it cannot tell), and its setting
  pub slot_active : World → ℕ → Option Bool
  pub set_slot : World → Schedule → Bool × World
  -- whether the configuration store keeps a plan
  pub store_plan : World → ℕ → ℕ → ℕ → Bool × World
  -- the start, stop and duration there, after a failure to store the second three over the first
  pub part_stored : World → ℕ × ℕ × ℕ → ℕ × ℕ × ℕ → ℕ × ℕ × ℕ

-- `SLOT_FILTR_WINDOW`
abbrev pub slot_filtration_window : ℕ
slot_filtration_window = 4
