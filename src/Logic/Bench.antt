-- ===== src/Logic/Bench.antt =====
-- A pool of 20 degrees with a running pump, for tests.
use flowio_waveshare_qwiic.Prelude.{ℕ, Bool, true, false, some, ◌==◌, if◌then◌else◌}
use flowio_waveshare_qwiic.Floats.{thousandths}
use flowio_waveshare_qwiic.Device.Types.{ok}
use flowio_waveshare_qwiic.Logic.Types.{
  DeviceFsm, PidState, HeatAssist, heat_disabled, Config, Plan, Logic, psi_low, Services,
}
use flowio_waveshare_qwiic.Logic.Sensors.{Sensors}

abbrev pub bench : Services
bench = record {
  floats = thousandths;
  World = ℕ → Bool;
  read_analog = λ w id. some (if id == 3 then 20000 else 7500, 900000);
  read_digital = λ w id. some false;
  alarms = λ w. some (λ a. elim a [ psi_low ↦ true | _ ↦ false ]);
  read_actual = λ w slot. some (w slot);
  write_desired = λ w slot on. (true, λ k. if k == slot then on else w k);
  read_meta = λ w slot. some (ok, 0);
  slot_active = λ w slot. some true;
  set_slot = λ w s. (true, w);
  store_plan = λ w a b d. (true, w);
  part_stored = λ w old new. (old.0, old.1, 0);
}

abbrev pub fsm : Bool → DeviceFsm
fsm on = record { known = true; on = on; last_desired = on; state_since_ms = 0; last_cmd_ms = 0 }

abbrev pub pid : PidState ℕ
pid = record {
  initialized = true;
  sample_valid = false;
  last_demand_on = false;
  window_start_ms = 0;
  last_compute_ms = 0;
  sample_ts_ms = 0;
  output_on_ms = 0;
  runtime_ts_ms = 0;
  sample_input = 0;
  sample_setpoint = 0;
  sample_error = 0;
  integral = 0;
  prev_error = 0;
  last_error = 0;
}

abbrev pub config : Config ℕ
config = record {
  enabled = true;
  auto_mode = true;
  winter_mode = false;
  ph_auto_mode = true;
  orp_auto_mode = true;
  heater_auto_mode = true;
  ph_dose_plus = false;
  electrolyse_mode = false;
  electro_run_mode = false;
  tank_level_monitoring_enabled = true;
  filtration_feedback_monitoring_enabled = true;
  chlorine_generator_feedback_monitoring_enabled = false;
  psi_low_threshold = 150;
  psi_high_threshold = 1800;
  winter_start_temp_c = 0;
  freeze_hold_temp_c = 2000;
  secure_electro_temp_c = 15000;
  ph_setpoint = 7200;
  orp_setpoint = 700000;
  heater_setpoint = 27000;
  ph_kp = 100000;
  ph_ki = 0;
  ph_kd = 0;
  orp_kp = 100000;
  orp_ki = 0;
  orp_kd = 0;
  ph_window_ms = 3600000;
  orp_window_ms = 3600000;
  pid_min_on_ms = 1000;
  pid_sample_ms = 30000;
  psi_startup_delay_sec = 60;
  delay_pids_min = 5;
  delay_electro_min = 10;
  robot_delay_min = 30;
  robot_duration_min = 120;
  filling_min_on_sec = 30;
  ph_io_id = 1;
  orp_io_id = 0;
  psi_io_id = 2;
  water_temp_io_id = 3;
  air_temp_io_id = 4;
  level_io_id = 5;
  ph_level_io_id = 6;
  chlorine_level_io_id = 7;
  filtration_feedback_io_id = 8;
  chlorine_generator_feedback_io_id = 9;
  filtration_slot = 0;
  swg_slot = 4;
  robot_slot = 3;
  filling_slot = 5;
  ph_pump_slot = 1;
  orp_pump_slot = 2;
  heater_slot = 6;
}

abbrev pub salt_config : Config ℕ
salt_config = record config { electrolyse_mode = true }

abbrev pub plan : Plan ℕ
plan = record {
  calc_start_minute = 647;
  calc_stop_minute = 1154;
  calc_duration_minute = 507;
  active_duration_minute = 507;
  continuous = false;
  sampling_armed = false;
  plan_stored = false;
  last_sample_ms = 0;
  sample_sum = 0;
  sample_count = 0;
  window_active = true;
  reconcile_pending = false;
}

abbrev pub heat : HeatAssist
heat = record {
  probing = false;
  heating_active = false;
  fast_cycle = false;
  probe_start_sec = 0;
  last_probe_end_sec = 0;
  reason = heat_disabled;
}

-- The pump and the pH pump run, and both controllers are released.
abbrev pub logic : Logic ℕ
logic = record {
  filtration = fsm true;
  robot = fsm false;
  swg = fsm true;
  filling = fsm false;
  ph_pump = fsm true;
  orp_pump = fsm false;
  heater = fsm false;
  ph_pid = record pid { window_start_ms = 895000 };
  orp_pid = record pid { window_start_ms = 895000 };
  ph_pid_enabled = true;
  orp_pid_enabled = true;
  cleaning_done = false;
  psi_error = false;
  ph_tank_low_error = false;
  chlorine_tank_low_error = false;
  heat = heat;
  plan = plan;
}

abbrev pub sensors : Sensors ℕ
sensors = record {
  have_psi = true;
  psi = 900;
  have_ph = true;
  ph = 7500;
  have_water_temp = true;
  water_temp = 20000;
  water_temp_fresh = true;
  have_air_temp = true;
  air_temp = 15000;
  have_orp = true;
  orp = 600000;
  have_level = true;
  level_on = false;
  have_ph_tank_low = true;
  ph_tank_low_on = false;
  have_chlorine_tank_low = true;
  chlorine_tank_low_on = false;
}
