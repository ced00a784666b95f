-- ===== src/Logic/Sensors.antt =====
-- PoolLogicControl.cpp, the first half of `runControlLoop_`: sensors, errors, the controllers'
-- release, and the filtration window.
use flowio_waveshare_qwiic.Prelude.{
  ℕ, ◌/◌, Bool, true, false, not, ◌&&◌, ◌||◌, Option, none, some, ltb, leb, ◌!=◌, if◌then◌else◌,
  sub32,
}
use flowio_waveshare_qwiic.Logic.Types.{
  Config, Plan, Logic, AlarmName, psi_low, psi_high, ph_tank_low, chlorine_tank_low,
  filtration_contactor_mismatch, Services, slot_filtration_window,
}
use flowio_waveshare_qwiic.Logic.Devices.{uptime_sec}

-- What one run of the loop reads. A value that is not there is 0 or false.
pub record Sensors (F : Type 0) : Type 0 where
  pub have_psi : Bool
  pub psi : F
  pub have_ph : Bool
  pub ph : F
  pub have_water_temp : Bool
  pub water_temp : F
  pub water_temp_fresh : Bool
  pub have_air_temp : Bool
  pub air_temp : F
  pub have_orp : Bool
  pub orp : F
  pub have_level : Bool
  pub level_on : Bool
  pub have_ph_tank_low : Bool
  pub ph_tank_low_on : Bool
  pub have_chlorine_tank_low : Bool
  pub chlorine_tank_low_on : Bool

-- `kHeaterTempFreshMaxMs`
abbrev pub heater_temp_fresh_max_ms : ℕ
heater_temp_fresh_max_ms = 600000

module _ {A : Type 0} where
  -- Whether a service returned a value, and the value or what the variable held before.
  unfoldable pub have : Option A → Bool
  have none = false
  have (some a) = true

  unfoldable pub value_or : A → Option A → A
  value_or d none = d
  value_or d (some a) = a

module _ (v : Services) where
  open v use {F, flt, fle, of_ℕ, World, read_analog, read_digital, alarms, slot_active}

  unfoldable pub read_sensors : Config F → ℕ → World → Sensors F
  unfolding have value_or
  read_sensors c now w =
      let zero_at : F × ℕ = (of_ℕ 0, 0) in
      let psi = read_analog w c.psi_io_id in
      let ph = read_analog w c.ph_io_id in
      let water = read_analog w c.water_temp_io_id in
      let air = read_analog w c.air_temp_io_id in
      let orp = read_analog w c.orp_io_id in
      let level = read_digital w c.level_io_id in
      let ph_low = read_digital w c.ph_level_io_id in
      let cl_low = read_digital w c.chlorine_level_io_id in
      let (temp, ts) = value_or zero_at water in
      record {
        have_psi = have psi;
        psi = (value_or zero_at psi).0;
        have_ph = have ph;
        ph = (value_or zero_at ph).0;
        have_water_temp = have water;
        water_temp = temp;
        water_temp_fresh = have water && ((ts != 0) && leb (sub32 now ts) heater_temp_fresh_max_ms);
        have_air_temp = have air;
        air_temp = (value_or zero_at air).0;
        have_orp = have orp;
        orp = (value_or zero_at orp).0;
        have_level = have level;
        level_on = value_or false level;
        have_ph_tank_low = c.tank_level_monitoring_enabled && have ph_low;
        ph_tank_low_on = c.tank_level_monitoring_enabled && value_or false ph_low;
        have_chlorine_tank_low = c.tank_level_monitoring_enabled && have cl_low;
        chlorine_tank_low_on = c.tank_level_monitoring_enabled && value_or false cl_low;
      }

  -- The error flags: the alarms where there is an alarm service, else a latch of its own.
  unfoldable pub update_errors :
      Config F → ℕ → Sensors F → Option (AlarmName → Bool) → Logic F → Logic F
  unfolding uptime_sec
  update_errors c now s (some active) l = record l {
    psi_error = active psi_low || active psi_high;
    ph_tank_low_error = c.tank_level_monitoring_enabled && active ph_tank_low;
    chlorine_tank_low_error = c.tank_level_monitoring_enabled && active chlorine_tank_low;
  }
  update_errors c now s none l =
      let run_sec : ℕ = uptime_sec l.filtration now in
      let under : Bool = ltb c.psi_startup_delay_sec run_sec && flt s.psi c.psi_low_threshold in
      let over : Bool = flt c.psi_high_threshold s.psi in
      record l {
        ph_tank_low_error = s.have_ph_tank_low && s.ph_tank_low_on;
        chlorine_tank_low_error = s.have_chlorine_tank_low && s.chlorine_tank_low_on;
        psi_error = l.psi_error || (l.filtration.on && (s.have_psi && (under || over)));
      }

  -- The release of the dosing controllers.
  unfoldable pub arm_pids : Config F → ℕ → Logic F → Logic F
  unfolding uptime_sec
  arm_pids c now l =
      let run_min : ℕ = uptime_sec l.filtration now / 60 in
      let steady : Bool = l.filtration.on && not c.winter_mode in
      let ph : Bool =
        steady && (l.ph_pid_enabled || (c.ph_auto_mode && leb c.delay_pids_min run_min)) in
      let orp : Bool =
        steady && (l.orp_pid_enabled || (c.orp_auto_mode && leb c.delay_pids_min run_min)) in
      record l { ph_pid_enabled = c.ph_auto_mode && ph; orp_pid_enabled = c.orp_auto_mode && orp }

  -- The window's state, read again where a change of the plan or the mode asked for it; the second
  -- part is `forceFiltrationReconcile`.
  unfoldable pub reconcile_window : World → Plan F → Plan F × Bool
  reconcile_window w p =
      if p.reconcile_pending
      then (
        record p {
          reconcile_pending = false;
          window_active =
              if p.continuous
              then true
              else (elim (slot_active w slot_filtration_window) [ none ↦ false | some on ↦ on ]);
        },
        true,
      )
      else (p, false)

  -- `filtrationFeedbackFault`
  unfoldable pub feedback_fault : Config F → Option (AlarmName → Bool) → Bool
  feedback_fault c none = false
  feedback_fault c (some active) =
      c.filtration_feedback_monitoring_enabled && active filtration_contactor_mismatch
