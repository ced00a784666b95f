-- ===== src/Logic/Pressure/Tests.antt =====
-- The stop of the pump at a pool of 20 degrees whose pump runs, with a log of the requests.
use flowio_waveshare_qwiic.Prelude.{
  ℕ, ◌≡◌, ◌<◌, ◌⊎◌, refl, Bool, true, false, not, ◌&&◌, ◌||◌, some, arith, List, [], ◌∷◌, ◌==◌,
  sub32, if◌then◌else◌,
}
use flowio_waveshare_qwiic.Floats.{thousandths}
use flowio_waveshare_qwiic.Device.Types.{ok}
use flowio_waveshare_qwiic.Logic.Types.{Services, psi_low}
use flowio_waveshare_qwiic.Logic.Sensors.{update_errors, arm_pids}
use flowio_waveshare_qwiic.Logic.Demand.{filtration_base, dosing}
use flowio_waveshare_qwiic.Logic.Heating.{heat_assist}
use flowio_waveshare_qwiic.Logic.Loop.{decide, assess, prepare, run_control_loop, act}
use flowio_waveshare_qwiic.Logic.Pressure.{IsLogged, run_control_loop-psi_error}
use flowio_waveshare_qwiic.Logic.Bench.{config, logic}

-- The pool of the bench with a log of the requests; the pump of slot 0 runs.
abbrev logged : Services
logged = record {
  floats = thousandths;
  World = List (ℕ × Bool);
  read_analog = λ w id. some (if id == 3 then 20000 else 7500, 900000);
  read_digital = λ w id. some false;
  alarms = λ w. some (λ a. elim a [ psi_low ↦ true | _ ↦ false ]);
  read_actual = λ w slot. some (slot == 0);
  write_desired = λ w slot on. (true, (slot, on) ∷ w);
  read_meta = λ w slot. some (ok, 0);
  slot_active = λ w slot. some true;
  set_slot = λ w s. (true, w);
  store_plan = λ w a b d. (true, w);
  part_stored = λ w old new. (old.0, old.1, 0);
}

has_stop : List (ℕ × Bool) → Bool
has_stop [] = false
has_stop ((slot, on) ∷ w) = (slot == 0 && not on) || has_stop w

log-IsLogged : IsLogged logged 0 (λ w. has_stop w ≡ true)
unfolding has_stop
log-IsLogged = record { stop = λ w. refl; kept = λ w k on s. ground (arith, s) }

run_psi : (run_control_loop logged config 900000 logic []).0.psi_error ≡ true
unfolding run_control_loop prepare act decide dosing assess update_errors arm_pids heat_assist
    filtration_base
run_psi = refl

run_control_loop-psi_error_example :
    ((run_control_loop logged config 900000 logic []).0.filtration.last_desired ≡ false)
    × ((has_stop (run_control_loop logged config 900000 logic []).1 ≡ true)
        ⊎ ((true ≡ false)
            × (((run_control_loop logged config 900000 logic []).0.filtration.known
                    && (run_control_loop logged config 900000 logic []).0.filtration.on
                  ≡ false)
                ⊎ (sub32 900000 0 < 5000))))
run_control_loop-psi_error_example =
    run_control_loop-psi_error logged config 900000 (λ w. has_stop w ≡ true) log-IsLogged logic []
      run_psi
