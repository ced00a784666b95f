-- ===== src/Device/Tests.antt =====
-- Instances of the device theorems: a filtration pump and a dosing pump that depends on it.
use flowio_waveshare_qwiic.Prelude.{
  ℕ, ◌≡◌, ◌⊎◌, refl, Bool, true, false, none, some, [], ◌∷◌, ◌==◌, if◌then◌else◌, get_elem?,
  replicate,
}
use flowio_waveshare_qwiic.Floats.{thousandths}
use flowio_waveshare_qwiic.Device.Types.{none_, io_error, Definition, Slot, Env}
use flowio_waveshare_qwiic.Device.Slots.{tick_slot, account, stop_edge, stamp, stale, persist_step}
use flowio_waveshare_qwiic.Device.Control.{
  open_tick, read_state, recovery_step, tank_step, enabled_step, uptime_step, interlock_step,
  follow_step, control, max_uptime_reached, dependencies_satisfied,
}
use flowio_waveshare_qwiic.Device.Module.{Module, recovery_lock_active, tick_at}
use flowio_waveshare_qwiic.Device.Operations.{write_desired, start_refusal, apply_request}
use flowio_waveshare_qwiic.Device.Rounds.{AreOn, IsBelowLimit, tick_at-MayRun}
use flowio_waveshare_qwiic.Device.Service.{Admissible, write_desired-Admissible}

abbrev bench : Env
bench = record {
  floats = thousandths;
  World = ℕ → Bool;
  read_digital = λ w id. some (w id);
  write_digital = λ w id on. (true, λ k. if k == id then on else w k);
  save_metrics = λ i s. true;
}

abbrev pump_def : Definition ℕ
pump_def = record {
  kind = 0;
  enabled = true;
  flow_l_per_hour = 0;
  tank_capacity_ml = 0;
  depends_on_mask = 0;
  max_uptime_day_sec = 0;
}

abbrev pump : Slot ℕ
pump = record {
  used = true;
  def = pump_def;
  io_id = 1;
  desired_on = true;
  actual_on = true;
  block_reason = none_;
  last_tick_ms = 1000;
  running_ms_day = 500;
  running_ms_week = 500;
  running_ms_month = 500;
  running_ms_total = 500;
  injected_ml_day = 0;
  injected_ml_week = 0;
  injected_ml_month = 0;
  injected_ml_total = 0;
  tank_remaining_ml = 0;
  day_key = 0;
  week_key = 0;
  month_key = 0;
  state_ts_ms = 0;
  metrics_ts_ms = 0;
  last_runtime_commit_ms = 0;
  last_persist_ms = 0;
  has_persisted_metrics = false;
  persist_dirty = false;
  persist_immediate = false;
  force_metrics_commit = false;
}

-- Slot 1 depends on slot 0.
abbrev dosing : Slot ℕ
dosing = record pump {
  def = record pump_def { depends_on_mask = 1; max_uptime_day_sec = 60 };
  io_id = 2;
  desired_on = false;
  actual_on = false;
}

abbrev unused : Slot ℕ
unused = record pump { used = false; desired_on = false; actual_on = false }

abbrev running : Module bench
running = record {
  runtime_ready = true;
  lock_requested = false;
  lock_was_active = false;
  lock_deadline_ms = 0;
  reset_day = false;
  reset_week = false;
  reset_month = false;
  reconcile_pending = false;
  keys = none;
  slots = pump ∷ dosing ∷ replicate 6 unused;
  store = none;
  has_activity_log = true;
  log = [];
  world = λ k. k == 1;
}

-- The pump is stopped: slot 1 may not start.
abbrev stopped : Module bench
stopped = record running {
  slots = record pump { desired_on = false; actual_on = false } ∷ dosing ∷ replicate 6 unused;
  world = λ k. false;
}

abbrev locked_up : Module bench
locked_up = record running {
  lock_requested = true;
  lock_deadline_ms = 601000;
  lock_was_active = true;
}

-- Slot 1 asked for while the pump of slot 0 runs.
abbrev asked : Slot ℕ
asked = record dosing { desired_on = true }

abbrev dosing_asked : Module bench
dosing_asked = record running { slots = pump ∷ asked ∷ replicate 6 unused }

abbrev asked_after : Slot ℕ
asked_after =
    (tick_slot bench 1 2000 true false false (dependencies_satisfied 1 dosing_asked.slots) none
      asked dosing_asked.world).slot

asked_runs : asked_after.actual_on ≡ true
unfolding tick_slot open_tick read_state recovery_step tank_step enabled_step uptime_step
    interlock_step follow_step control account stop_edge stamp stale persist_step max_uptime_reached
    dependencies_satisfied
asked_runs = refl

asked_found :
    get_elem? (tick_at bench 2000 true false false 1 dosing_asked).slots 1 ≡ some asked_after
unfolding tick_at
asked_found = refl

tick_at-MayRun_example :
    (asked_after.block_reason ≡ io_error)
    ⊎ ((asked_after.desired_on ≡ true)
        × (true ≡ true)
        × IsBelowLimit asked
        × AreOn 1 1 0 dosing_asked.slots
        × (false ≡ false))
tick_at-MayRun_example =
    tick_at-MayRun bench 2000 true false false 1 dosing_asked asked asked_after refl refl
      asked_found asked_runs

write_desired-Admissible_example : Admissible bench 1 2000 dosing running
unfolding write_desired start_refusal apply_request recovery_lock_active max_uptime_reached
    dependencies_satisfied
write_desired-Admissible_example =
    write_desired-Admissible bench 1 2000 2000 running dosing refl refl
