-- ===== src/Time/Tests.antt =====
-- Tests of the scheduler, and the theorems at concrete tables.
use flowio_waveshare_qwiic.Prelude.{
  ℕ, Bool, true, false, Option, some, List, [], ◌∷◌, ◌≡◌, ◌≢◌, ◌<◌, ◌||◌, refl, arith, replicate,
}
use flowio_waveshare_qwiic.Floats.{thousandths}
use flowio_waveshare_qwiic.Logic.Window.{
  Window, compute_window, duration_minutes, duration_hours, normalize_minute,
}
use flowio_waveshare_qwiic.Time.Types.{
  recurring_clock, Definition, Runtime, Scheduler, LocalTime, Payload, Edge, start, stop,
}
use flowio_waveshare_qwiic.Time.Clock.{
  is_weekday_enabled, is_recurring_active_now, week_bit_from_tm, minute_of_day,
  is_recurring_trigger_now, prev_week_bit,
}
use flowio_waveshare_qwiic.Time.ClockLaws.{
  covers_today, covers_overnight, after_end, is_recurring_active_now_exact,
}
use flowio_waveshare_qwiic.Time.System.{clear_all_slots, system_event, is_active}
use flowio_waveshare_qwiic.Time.Table.{
  normalize, set_slot, get_slot, set_bit, install, normalize_mode, clear_bit, is_system_slot,
}
use flowio_waveshare_qwiic.Time.Tick.{
  Now, follow_window, visit_recurring, visit, tick_from, push_pending, payload, evaluate,
  tick_scheduler,
}
use flowio_waveshare_qwiic.Time.Listen.{heard}
use flowio_waveshare_qwiic.Time.Runs.{IsTable, run_ticks, run_ticks-heard}
use flowio_waveshare_qwiic.Time.TableLaws.{get-set_slot, set_slot_rollback}
use flowio_waveshare_qwiic.Time.Reserved.{
  HasReserved, set_it, tick, perform_all, perform_all-IsTable, clear_all-IsTable,
  clear_all-HasReserved, perform,
}
use flowio_waveshare_qwiic.Time.Filtration.{
  window_definition, window_request, filtration_never_ends,
}

-- A table with the reserved slots only.
abbrev fresh : Scheduler
fresh =
    (clear_all_slots true (record {
      sched = [];
      sched_initialized = false;
      active_mask_value = 0;
      week_start_monday = true;
    })).0

-- 22:00 to 06:00 on Mondays, in slot 5.
abbrev night : Definition
night = record {
  slot = 5;
  event_id = 77;
  enabled = true;
  has_end = true;
  replay_start_on_boot = true;
  label = replicate 24 0;
  mode = recurring_clock;
  weekday_mask = 1;
  start_hour = 22;
  start_minute = 0;
  end_hour = 6;
  end_minute = 0;
  start_epoch_sec = 0;
  end_epoch_sec = 0;
}

is_recurring_active_now_exact_example : is_recurring_active_now night 1 0 720 ≡ (
    covers_today night (is_weekday_enabled 1 1) 720
    || (covers_overnight night (is_weekday_enabled 1 0) 720
        || after_end night (is_weekday_enabled 1 0) 720))
is_recurring_active_now_exact_example = is_recurring_active_now_exact night 1 0 720 refl refl

-- On Tuesday at noon Monday's window is still on.
night_at_noon : is_recurring_active_now night 1 0 720 ≡ true
unfolding is_recurring_active_now is_weekday_enabled
night_at_noon = refl

-- 09:30 and 09:31 on a Monday.
abbrev morning : ℕ → LocalTime
morning m = record { tm_hour = 9; tm_min = m; tm_wday = 1; tm_mday = 5 }

-- 09:30 to 09:31 every day, in slot 5.
abbrev short : Definition
short = record night { start_hour = 9; start_minute = 30; end_hour = 9; end_minute = 31 }

fresh-IsTable : IsTable fresh
fresh-IsTable = clear_all-IsTable true _

set_runs : (set_slot true short fresh).1 ≡ true
unfolding set_slot normalize normalize_mode clear_all_slots
set_runs = refl

set_slot_rollback_example : set_slot false short fresh ≡ (fresh, false)
set_slot_rollback_example = set_slot_rollback short fresh

get-set_slot_example :
    (get_slot 5 (set_slot true short fresh).0 ≡ normalize short)
    × (is_active 5 (set_slot true short fresh).0 ≡ false)
get-set_slot_example = get-set_slot short fresh 5 fresh-IsTable set_runs

-- The table once the slot is set and the scheduler has run at 09:29.
abbrev running : Scheduler
running = perform_all (set_it true short ∷ tick true true 1700000000 (some (morning 29)) ∷ []) fresh

perform_all-IsTable_example : IsTable running × HasReserved running.sched
perform_all-IsTable_example =
    perform_all-IsTable (set_it true short ∷ tick true true 1700000000 (some (morning 29)) ∷ [])
      fresh fresh-IsTable (clear_all-HasReserved true _)

running_initialized : running.sched_initialized ≡ true
unfolding perform_all perform tick_scheduler evaluate
running_initialized = refl

abbrev two_ticks : List (Bool × ℕ × Option LocalTime)
two_ticks = (true, 1700000060, some (morning 30)) ∷ (true, 1700000120, some (morning 31)) ∷ []

run_ticks-heard_example :
    heard 5 (run_ticks true two_ticks running).1 (is_active 5 running)
    ≡ is_active 5 (run_ticks true two_ticks running).0
run_ticks-heard_example =
    run_ticks-heard true two_ticks running 5 perform_all-IsTable_example.0 running_initialized
      (omega arith)

edges : List Payload → List (ℕ × Edge × ℕ)
edges [] = []
edges (p ∷ ps) = (p.slot, p.edge, p.active_mask) ∷ edges ps

-- Slot 5 starts at 09:30 and stops at 09:31.
ticks_run : edges (run_ticks true two_ticks running).1 ≡ (5, start, 32) ∷ (5, stop, 0) ∷ []
unfolding edges run_ticks tick_scheduler evaluate tick_from visit visit_recurring follow_window
    push_pending payload set_bit perform_all perform set_slot clear_all_slots install normalize
    normalize_mode is_recurring_active_now is_weekday_enabled is_recurring_trigger_now
    week_bit_from_tm minute_of_day prev_week_bit system_event is_system_slot clear_bit
ticks_run = refl

-- The window at 10 degrees.
abbrev winter : Window
winter = record {
  start_minute = 1380;
  stop_minute = 60;
  duration_minutes = 120;
  continuous = false;
}

winter_window : compute_window thousandths 10000 ≡ some winter
unfolding compute_window duration_minutes duration_hours normalize_minute
winter_window = refl

-- The slot of the window, on Tuesday at noon.
abbrev winter_slot : Runtime
winter_slot = record {
  used = true;
  def = window_definition [] (window_request winter);
  active = true;
  last_trigger_minute_key = 0;
}

abbrev noon : Now
noon = record {
  epoch = 1700000000;
  local = record { tm_hour = 12; tm_min = 0; tm_wday = 2; tm_mday = 5 };
  initialized = true;
}

filtration_never_ends_example :
    (60 < 1380)
    × (is_recurring_active_now winter_slot.def
          (week_bit_from_tm noon.local)
          (prev_week_bit (week_bit_from_tm noon.local))
          (minute_of_day noon.local)
        ≡ true)
    × ((visit noon winter_slot).0.active ≡ true)
    × ((visit noon winter_slot).1 ≢ some (stop, 0))
filtration_never_ends_example =
    filtration_never_ends thousandths 10000 winter [] noon winter_slot winter_window refl refl
      (omega arith) refl refl
