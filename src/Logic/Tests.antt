-- ===== src/Logic/Tests.antt =====
-- Instances of the theorems of the pool logic, at a pool of 20 degrees with a running pump.
use flowio_waveshare_qwiic.Prelude.{
  ℕ, ◌+◌, ◌/◌, ◌%◌, ◌≡◌, ◌≤◌, ◌<◌, ◌⊎◌, refl, Bool, true, false, some, arith, [], ◌∷◌, ◌==◌, ltb,
  leb, sub32, none, ◌||◌,
}
use flowio_waveshare_qwiic.Floats.{thousandths}
use flowio_waveshare_qwiic.Logic.Types.{HeatAssist, Logic}
use flowio_waveshare_qwiic.Logic.Window.{
  Window, compute_window, duration_minutes, duration_hours, normalize_minute,
}
use flowio_waveshare_qwiic.Logic.WindowLaws.{window_bounds, window_centred}
use flowio_waveshare_qwiic.Logic.Devices.{uptime_sec}
use flowio_waveshare_qwiic.Logic.Pid.{
  step_pid, start_pid, advance_window, sample_pid, pid_output, on_time,
}
use flowio_waveshare_qwiic.Logic.PidLaws.{IsPid, OnTime, step_pid-demand}
use flowio_waveshare_qwiic.Logic.Sensors.{read_sensors, update_errors}
use flowio_waveshare_qwiic.Logic.Demand.{
  filtration_base, robot_desired, swg_desired, filling_desired, dosing, dose, ph_allowed,
  orp_allowed, ph_tuning, orp_tuning,
}
use flowio_waveshare_qwiic.Logic.Heating.{HeatIn, heat_assist, pump_step, wait_step, start_probe}
use flowio_waveshare_qwiic.Logic.Loop.{heat_in, decide, run_control_loop}
use flowio_waveshare_qwiic.Logic.Requests.{decide-heater}
use flowio_waveshare_qwiic.Logic.Sessions.{IsSession, assist_runs, assist_runs-IsSession}
use flowio_waveshare_qwiic.Logic.DosingLaws.{
  decide-ph_pump, decide-orp_pump, run_control_loop-IsPid,
}
use flowio_waveshare_qwiic.Alarm.Types.{is_faulty}
use flowio_waveshare_qwiic.Logic.Conditions.{
  cond_psi_low, cond_psi_high, cond_ph_tank_low, cond_chlorine_tank_low,
}
use flowio_waveshare_qwiic.Logic.ConditionLaws.{update_errors-conditions}
use flowio_waveshare_qwiic.Logic.Bench.{bench, fsm, pid, config, salt_config, heat, logic, sensors}

abbrev spring : Window
spring = record {
  start_minute = 647;
  stop_minute = 1154;
  duration_minutes = 507;
  continuous = false;
}

spring_window : compute_window thousandths 20000 ≡ some spring
unfolding compute_window duration_minutes duration_hours normalize_minute
spring_window = refl

window_bounds_example :
    (120 ≤ 507) × (507 ≤ 1440) × (647 < 1440) × (1154 < 1440) × (false ≡ leb 1440 507)
window_bounds_example = window_bounds thousandths 20000 spring spring_window

window_centred_example : (1154 ≡ (647 + 507) % 1440) × (647 + 507 / 2 ≡ 900)
window_centred_example = window_centred thousandths 20000 spring spring_window refl refl

abbrev logic_psi : Logic ℕ
logic_psi = record logic { psi_error = true; heater = fsm true }

requests :
    ((decide bench salt_config 900000 false sensors logic).heater ≡ true)
    × ((decide bench salt_config 900000 false sensors logic).swg ≡ true)
    × ((decide bench config 900000 false sensors logic).orp_pump ≡ true)
    × ((decide bench config 900000 false sensors logic).filtration ≡ true)
unfolding decide heat_in filtration_base heat_assist pump_step swg_desired dosing dose orp_allowed
    ph_allowed step_pid start_pid advance_window sample_pid pid_output on_time robot_desired
    filling_desired uptime_sec
requests = (refl, refl, refl, refl)

decide-heater_example :
    (false ≡ false)
    × (true ≡ true)
    × (true ≡ true)
    × ((leb 27300 20000 ≡ false) ⊎ ((ltb 20000 27300 ≡ true) ⊎ (leb 20000 26700 ≡ true)))
decide-heater_example =
    decide-heater bench salt_config 900000 false sensors logic refl refl requests.0

decide-orp_pump_example :
    (true ≡ true)
    × ((decide bench config 900000 false sensors logic).filtration ≡ true)
    × (false ≡ false)
    × (false ≡ false)
    × (false ≡ false)
    × (true ≡ true)
    × (true ≡ true)
decide-orp_pump_example = decide-orp_pump bench config 900000 false sensors logic refl requests.2

step_pid-demand_example :
    IsPid
      (ph_tuning bench config)
      (step_pid thousandths (ph_tuning bench config) 7500 7200 900000 pid).0
    × (sub32 900000
          (step_pid thousandths (ph_tuning bench config) 7500 7200 900000 pid).0.window_start_ms
        < 3600000)
    × ((step_pid thousandths (ph_tuning bench config) 7500 7200 900000 pid).0.last_demand_on
        ≡ (step_pid thousandths (ph_tuning bench config) 7500 7200 900000 pid).1)
    × ((step_pid thousandths (ph_tuning bench config) 7500 7200 900000 pid).1
        ≡ ltb
            (sub32 900000
              (step_pid thousandths
                (ph_tuning bench config)
                7500
                7200
                900000
                pid).0.window_start_ms)
            (step_pid thousandths (ph_tuning bench config) 7500 7200 900000 pid).0.output_on_ms)
unfolding IsPid OnTime
step_pid-demand_example =
    step_pid-demand thousandths (ph_tuning bench config) 7500 7200 900000 pid (omega arith)
      (ground arith)

decide-ph_pump_example :
    IsPid (ph_tuning bench config) (decide bench config 900000 false sensors logic).logic.ph_pid
    × (((ph_allowed bench sensors logic ≡ true)
          × ((decide bench config 900000 false sensors logic).ph_pump
              ≡ ltb
                  (sub32 900000
                    (decide bench config 900000 false sensors logic).logic.ph_pid.window_start_ms)
                  (decide bench config 900000 false sensors logic).logic.ph_pid.output_on_ms))
        ⊎ ((ph_allowed bench sensors logic ≡ false)
            × ((decide bench config 900000 false sensors logic).ph_pump ≡ true)))
unfolding IsPid OnTime
decide-ph_pump_example =
    decide-ph_pump bench config 900000 false sensors logic (omega arith) (ground arith) refl
      requests.3

abbrev world : ℕ → Bool
world slot = slot == 0

run_control_loop-IsPid_example :
    IsPid (ph_tuning bench config) (run_control_loop bench config 900000 logic world).0.ph_pid
    × IsPid (orp_tuning bench config) (run_control_loop bench config 900000 logic world).0.orp_pid
unfolding IsPid OnTime
run_control_loop-IsPid_example =
    run_control_loop-IsPid bench config 900000 logic world (omega arith) (ground arith)
      (ground arith)

abbrev night : HeatIn ℕ
night = record {
  heater_auto = true;
  auto_mode = true;
  psi_error = false;
  setpoint = 27000;
  pump_on = false;
  base = false;
  heater_on = false;
  fresh = true;
  temp = 20000;
  now_sec = 900;
}

abbrev later : HeatIn ℕ
later = record night { now_sec = 1000; pump_on = true }

abbrev probing : HeatAssist
probing = record heat { probing = true; probe_start_sec = 900 }

assist_runs-IsSession_example : IsSession (assist_runs thousandths (night ∷ later ∷ []) heat)
unfolding IsSession
assist_runs-IsSession_example =
    assist_runs-IsSession thousandths (night ∷ later ∷ []) heat (ground arith)

starts : (wait_step thousandths night heat).heat.probing ≡ true
unfolding wait_step start_probe
starts = refl

update_errors-conditions_example :
    ((update_errors bench config 900000
        (read_sensors bench config 900000 world)
        none
        logic).psi_error
      ≡ false
        || (is_faulty (cond_psi_low bench config 900000 logic world)
            || is_faulty (cond_psi_high bench config logic world)))
    × ((update_errors bench config 900000
          (read_sensors bench config 900000 world)
          none
          logic).ph_tank_low_error
        ≡ is_faulty (cond_ph_tank_low bench config world))
    × ((update_errors bench config 900000
          (read_sensors bench config 900000 world)
          none
          logic).chlorine_tank_low_error
        ≡ is_faulty (cond_chlorine_tank_low bench config world))
update_errors-conditions_example = update_errors-conditions bench config 900000 logic world refl
