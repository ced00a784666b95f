-- ===== src/Logic/ConditionLaws.antt =====
-- The alarm conditions beside the loop's own error flags.
use flowio_waveshare_qwiic.Prelude.{ℕ, ◌≡◌, true, ◌||◌, none, arith}
use flowio_waveshare_qwiic.Alarm.Types.{is_faulty}
use flowio_waveshare_qwiic.Logic.Types.{Config, Logic, Services}
use flowio_waveshare_qwiic.Logic.Sensors.{have, value_or, read_sensors, update_errors}
use flowio_waveshare_qwiic.Logic.Conditions.{
  cond_psi_low, cond_psi_high, cond_ph_tank_low, cond_chlorine_tank_low,
}

module _ (v : Services) where
  open v use {F, World}

  -- Without an alarm service, and with the module enabled, the loop finds an error exactly where the
  -- alarm conditions do on the same readings: the pressure error is latched by either condition, and
  -- the tank errors are the tank conditions.
  pub update_errors-conditions :
      (c : Config F) (now : ℕ) (l : Logic F) (w : World)
      → c.enabled ≡ true
      → ((update_errors v c now (read_sensors v c now w) none l).psi_error
          ≡ l.psi_error
            || (is_faulty (cond_psi_low v c now l w) || is_faulty (cond_psi_high v c l w)))
        × ((update_errors v c now (read_sensors v c now w) none l).ph_tank_low_error
            ≡ is_faulty (cond_ph_tank_low v c w))
        × ((update_errors v c now (read_sensors v c now w) none l).chlorine_tank_low_error
            ≡ is_faulty (cond_chlorine_tank_low v c w))
  unfolding update_errors read_sensors have value_or cond_psi_low cond_psi_high cond_ph_tank_low
      cond_chlorine_tank_low
  update_errors-conditions c now l w e = ground arith
