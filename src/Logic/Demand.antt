-- ===== src/Logic/Demand.antt =====
-- PoolLogicControl.cpp, the second half of `runControlLoop_`: what is wanted of each device.
use flowio_waveshare_qwiic.Prelude.{
  ℕ, ◌/◌, Bool, true, false, not, ◌&&◌, ◌||◌, leb, ◌!=◌, if◌then◌else◌,
}
use flowio_waveshare_qwiic.Logic.Types.{PidState, DeviceFsm, Config, Logic, Services}
use flowio_waveshare_qwiic.Logic.Devices.{uptime_sec}
use flowio_waveshare_qwiic.Logic.Sensors.{Sensors}
use flowio_waveshare_qwiic.Logic.Pid.{Tuning, reset_pid, step_pid}

module _ (v : Services) where
  open v use {F, floats, flt, fle, fmul, lit}

  -- `filtrationDesiredBase`
  unfoldable pub filtration_base : Config F → Bool → Sensors F → Logic F → Bool
  filtration_base c window_active s l =
      if l.psi_error
      then false
      else if not c.auto_mode
      then l.filtration.on
      else if l.filtration.on && (s.have_air_temp && fle s.air_temp c.freeze_hold_temp_c)
      then true
      else window_active
        || (c.winter_mode && (s.have_air_temp && flt s.air_temp c.winter_start_temp_c))

  -- `robotDesired`
  unfoldable pub robot_desired : Config F → ℕ → Logic F → Bool
  unfolding uptime_sec
  robot_desired c now l =
      if not c.auto_mode
      then l.robot.on
      else if not l.filtration.on
      then false
      else if l.robot.on && leb c.robot_duration_min (uptime_sec l.robot now / 60)
      then false
      else not l.cleaning_done && leb c.robot_delay_min (uptime_sec l.filtration now / 60)

  -- `startReady` of the electrolysis
  unfoldable pub start_ready : Config F → ℕ → Sensors F → Logic F → Bool
  unfolding uptime_sec
  start_ready c now s l =
      s.have_water_temp
      && (fle c.secure_electro_temp_c s.water_temp
          && leb c.delay_electro_min (uptime_sec l.filtration now / 60))

  -- `swgDesired`; `fault` is `filtrationFeedbackFault`.
  unfoldable pub swg_desired : Config F → ℕ → Bool → Sensors F → Logic F → Bool
  unfolding start_ready
  swg_desired c now fault s l =
      if fault
      then false
      else if not c.auto_mode
      then l.swg.on
      else if not (c.electrolyse_mode && l.filtration.on)
      then false
      else if c.electro_run_mode
      then (if l.swg.on
          then s.have_orp && fle s.orp c.orp_setpoint
          else start_ready c now s l && (s.have_orp && fle s.orp (fmul c.orp_setpoint (lit 9 1))))
      else if l.swg.on
      then true
      else start_ready c now s l

  -- `fillingDesired`
  unfoldable pub filling_desired : Config F → ℕ → Sensors F → Logic F → Bool
  unfolding uptime_sec
  filling_desired c now s l =
      if not s.have_level
      then false
      else if not l.filling.on
      then s.level_on
      else s.level_on || not (leb c.filling_min_on_sec (uptime_sec l.filling now))

  -- The reset of a controller that has run.
  unfoldable pub idle_pid : ℕ → PidState F → PidState F
  unfolding reset_pid
  idle_pid now st =
      if st.initialized || ((st.output_on_ms != 0) || st.last_demand_on)
      then reset_pid floats now st
      else st

  abbrev pub ph_tuning : Config F → Tuning F
  ph_tuning c = record {
    kp = c.ph_kp;
    ki = c.ph_ki;
    kd = c.ph_kd;
    window_cfg = c.ph_window_ms;
    sample_cfg = c.pid_sample_ms;
    min_on_ms = c.pid_min_on_ms;
    positive_when_input_high = not c.ph_dose_plus;
  }

  abbrev pub orp_tuning : Config F → Tuning F
  orp_tuning c = record {
    kp = c.orp_kp;
    ki = c.orp_ki;
    kd = c.orp_kd;
    window_cfg = c.orp_window_ms;
    sample_cfg = c.pid_sample_ms;
    min_on_ms = c.pid_min_on_ms;
    positive_when_input_high = false;
  }

  -- `phAllowed`
  unfoldable pub ph_allowed : Sensors F → Logic F → Bool
  ph_allowed s l = l.ph_pid_enabled && (s.have_ph && (not l.psi_error && not l.ph_tank_low_error))

  -- `orpAllowed`
  unfoldable pub orp_allowed : Config F → Sensors F → Logic F → Bool
  orp_allowed c s l =
      l.orp_pid_enabled
      && (s.have_orp
          && (not c.electrolyse_mode && (not l.psi_error && not l.chlorine_tank_low_error)))

  -- The controller and the request of one pump, under `phAutoMode_ || orpAutoMode_` with the
  -- filtration wanted.
  unfoldable pub dose :
      Bool → Bool → Tuning F → F → F → ℕ → DeviceFsm → PidState F → PidState F × Bool
  unfolding idle_pid
  dose auto allowed g input setpoint now f st =
      if auto && allowed then step_pid floats g input setpoint now st else (idle_pid now st, f.on)

  -- Both pumps: the state, `phPumpDesired` and `orpPumpDesired`.
  unfoldable pub dosing : Config F → ℕ → Bool → Sensors F → Logic F → Logic F × Bool × Bool
  unfolding dose ph_allowed orp_allowed idle_pid
  dosing c now filtration s l =
      if c.ph_auto_mode || c.orp_auto_mode
      then (if filtration
          then (let (ph, ph_on) =
                dose c.ph_auto_mode (ph_allowed s l) (ph_tuning c) s.ph c.ph_setpoint now l.ph_pump
                  l.ph_pid in
              let (orp, orp_on) =
                dose c.orp_auto_mode (orp_allowed c s l) (orp_tuning c) s.orp c.orp_setpoint now
                  l.orp_pump l.orp_pid in
              (record l { ph_pid = ph; orp_pid = orp }, ph_on, orp_on))
          else (
            record l {
              ph_pid = if c.ph_auto_mode then idle_pid now l.ph_pid else l.ph_pid;
              orp_pid = if c.orp_auto_mode then idle_pid now l.orp_pid else l.orp_pid;
            },
            l.ph_pump.on,
            l.orp_pump.on,
          ))
      else (
        record l { ph_pid = idle_pid now l.ph_pid; orp_pid = idle_pid now l.orp_pid },
        l.ph_pump.on,
        l.orp_pump.on,
      )
