-- ===== src/Logic/Requests.antt =====
-- The requests that `runControlLoop_` makes of the devices.
use flowio_waveshare_qwiic.Prelude.{ℕ, ◌<◌, ◌≡◌, ◌⊎◌, Bool, true, false, not, ◌&&◌, arith, sub32}
use flowio_waveshare_qwiic.Logic.Types.{DeviceFsm, Config, Logic, Services, HeatAssist}
use flowio_waveshare_qwiic.Logic.Devices.{apply_control, must_send}
use flowio_waveshare_qwiic.Logic.Sensors.{Sensors}
use flowio_waveshare_qwiic.Logic.Demand.{filtration_base, dosing}
use flowio_waveshare_qwiic.Logic.Heating.{
  HeatIn, heat_assist, heating_step, probe_step, pump_step, wait_step, start_probe, stop_threshold,
  start_threshold,
}
use flowio_waveshare_qwiic.Logic.Loop.{heat_in, decide}

module _ (v : Services) where
  open v use {F, floats, fle, flt, finite, World, alarms, write_desired, read_actual}

  heat_assist-psi_error :
      (x : HeatIn F) (h : HeatAssist)
      → x.psi_error ≡ true
      → x.base ≡ false
      → ((heat_assist floats x h).filtration_desired ≡ false)
        × ((heat_assist floats x h).heater_desired
            ≡ not (x.heater_auto && x.auto_mode) && x.heater_on)
  unfolding heat_assist
  heat_assist-psi_error x h e b = ground arith

  -- With a pressure error the pump is asked to stop, in every mode and whatever the heating
  -- assistant wants, and in automatic heating the heater too; by hand the heater's state is kept.
  pub decide-psi_error :
      (c : Config F) (now : ℕ) (fault : Bool) (s : Sensors F) (l : Logic F)
      → l.psi_error ≡ true
      → ((decide v c now fault s l).filtration ≡ false)
        × ((decide v c now fault s l).heater
            ≡ not (c.heater_auto_mode && c.auto_mode) && l.heater.on)
  unfolding decide heat_in filtration_base
  decide-psi_error c now fault s l e =
      let base : filtration_base v c l.plan.window_active s l ≡ false = ground arith in
      heat_assist-psi_error (heat_in v c now (filtration_base v c l.plan.window_active s l) s l)
        l.heat e base

  -- In automatic mode the heater is asked for only with no pressure error, a setpoint that is a
  -- number, and a temperature that is fresh and either below the upper threshold of the hysteresis
  -- or at most its lower one.
  pub decide-heater :
      (c : Config F) (now : ℕ) (fault : Bool) (s : Sensors F) (l : Logic F)
      → c.heater_auto_mode ≡ true
      → c.auto_mode ≡ true
      → (decide v c now fault s l).heater ≡ true
      → (l.psi_error ≡ false)
        × (finite c.heater_setpoint ≡ true)
        × (s.water_temp_fresh ≡ true)
        × ((fle (stop_threshold floats c.heater_setpoint) s.water_temp ≡ false)
            ⊎ ((flt s.water_temp (stop_threshold floats c.heater_setpoint) ≡ true)
                ⊎ (fle s.water_temp (start_threshold floats c.heater_setpoint) ≡ true)))
  unfolding decide heat_in heat_assist heating_step probe_step pump_step wait_step start_probe
  decide-heater c now fault s l ha am e = ground arith

  pub decide-errors :
      (c : Config F) (now : ℕ) (fault : Bool) (s : Sensors F) (l : Logic F)
      → (decide v c now fault s l).logic.psi_error ≡ l.psi_error
  unfolding decide dosing
  decide-errors c now fault s l = ground arith

  -- A request that is sent to a device is not sent again within five seconds, as long as it stays
  -- the same: the second run changes nothing outside, and remembers the time of the first.
  pub apply_control-quiet :
      (slot : ℕ) (desired : Bool) (now later : ℕ) (f : DeviceFsm) (w : World)
      → must_send desired now f ≡ true
      → sub32 later now < 5000
      → ((apply_control v slot desired later
            (apply_control v slot desired now f w).0
            (apply_control v slot desired now f w).1).1
          ≡ (apply_control v slot desired now f w).1)
        × ((apply_control v slot desired later
              (apply_control v slot desired now f w).0
              (apply_control v slot desired now f w).1).0
            ≡ (apply_control v slot desired now f w).0)
  unfolding apply_control must_send
  apply_control-quiet slot desired now later f w e h = ground arith
