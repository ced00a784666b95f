-- ===== src/Logic/Follow/Tests.antt =====
-- The filtration window from 09:30 to 09:31 in the scheduler, and the pool logic that follows it.
use flowio_waveshare_qwiic.Prelude.{
  ℕ, Bool, true, false, Option, some, List, [], ◌∷◌, ◌≡◌, refl, replicate,
}
use flowio_waveshare_qwiic.Time.Types.{recurring_clock, Definition, Scheduler, LocalTime}
use flowio_waveshare_qwiic.Time.Table.{
  normalize, set_slot, set_bit, install, normalize_mode, clear_bit, is_system_slot,
}
use flowio_waveshare_qwiic.Time.Clock.{
  is_weekday_enabled, is_recurring_active_now, week_bit_from_tm, minute_of_day,
  is_recurring_trigger_now, prev_week_bit,
}
use flowio_waveshare_qwiic.Time.System.{clear_all_slots, system_event, is_active}
use flowio_waveshare_qwiic.Time.Tick.{
  follow_window, fire_once, visit_recurring, visit, tick_from, push_pending, payload, evaluate,
  tick_scheduler,
}
use flowio_waveshare_qwiic.Time.Runs.{run_ticks}
use flowio_waveshare_qwiic.Time.Reserved.{
  set_it, tick, perform_all, perform_all-IsTable, clear_all-IsTable, clear_all-HasReserved, perform,
}
use flowio_waveshare_qwiic.Logic.Types.{Plan, slot_filtration_window}
use flowio_waveshare_qwiic.Logic.Lifecycle.{Lifecycle}
use flowio_waveshare_qwiic.Logic.Bench.{bench, config, logic}
use flowio_waveshare_qwiic.Logic.Follow.{Owned, Owned-OwnsWindow, on_payloads, window-is_active}

abbrev morning : ℕ → LocalTime
morning m = record { tm_hour = 9; tm_min = m; tm_wday = 1; tm_mday = 5 }

abbrev window : Definition
window = record {
  slot = 4;
  event_id = 0x2102;
  enabled = true;
  has_end = true;
  replay_start_on_boot = true;
  label = replicate 24 0;
  mode = recurring_clock;
  weekday_mask = 127;
  start_hour = 9;
  start_minute = 30;
  end_hour = 9;
  end_minute = 31;
  start_epoch_sec = 0;
  end_epoch_sec = 0;
}

abbrev fresh : Scheduler
fresh =
    (clear_all_slots true (record {
      sched = [];
      sched_initialized = false;
      active_mask_value = 0;
      week_start_monday = true;
    })).0

-- The window is set, and the scheduler runs at 09:29.
abbrev evaluated : Scheduler
evaluated =
    perform_all (set_it true window ∷ tick true true 1700000000 (some (morning 29)) ∷ []) fresh

evaluated-Owned : Owned 0 evaluated.sched
unfolding tick_scheduler evaluate tick_from visit visit_recurring follow_window fire_once
    push_pending payload set_bit perform_all perform set_slot clear_all_slots install normalize
    normalize_mode is_recurring_active_now is_weekday_enabled is_recurring_trigger_now
    week_bit_from_tm minute_of_day prev_week_bit system_event is_system_slot clear_bit
evaluated-Owned = (
  refl,
  (
    refl,
    (
      refl,
      (
        refl,
        (
          refl,
          (
            refl,
            (refl, (refl, (refl, (refl, (refl, (refl, (refl, (refl, (refl, (refl, tt)))))))))),
          ),
        ),
      ),
    ),
  ),
)

evaluated_initialized : evaluated.sched_initialized ≡ true
unfolding perform_all perform tick_scheduler evaluate
evaluated_initialized = refl

evaluated_off : false ≡ is_active slot_filtration_window evaluated
unfolding tick_scheduler evaluate tick_from visit visit_recurring follow_window fire_once
    push_pending payload set_bit perform_all perform set_slot clear_all_slots install normalize
    normalize_mode is_recurring_active_now is_weekday_enabled is_recurring_trigger_now
    week_bit_from_tm minute_of_day prev_week_bit system_event is_system_slot clear_bit is_active
evaluated_off = refl

abbrev one_tick : List (Bool × ℕ × Option LocalTime)
one_tick = (true, 1700000060, some (morning 30)) ∷ []

abbrev idle : Lifecycle ℕ
idle =
    let p : Plan ℕ = logic.plan in
    record {
      logic = record logic { plan = record p { continuous = false; window_active = false } };
      pending_startup_plan = false;
      pending_manual_recalc = false;
      pending_day_reset = false;
    }

window-is_active_example :
    (on_payloads bench config 0
      (run_ticks true one_tick evaluated).1
      idle
      (λ k. false)).0.logic.plan.window_active
    ≡ is_active slot_filtration_window (run_ticks true one_tick evaluated).0
window-is_active_example =
    window-is_active bench config 0 true one_tick evaluated idle (λ k. false)
      (perform_all-IsTable (set_it true window ∷ tick true true 1700000000 (some (morning 29)) ∷ [])
        fresh (clear_all-IsTable true _) (clear_all-HasReserved true _)).0
      evaluated_initialized (Owned-OwnsWindow evaluated evaluated-Owned) refl refl evaluated_off
