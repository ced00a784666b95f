-- ===== src/Time/Filtration.antt =====
-- The filtration window of the pool logic in its slot of the scheduler: the definition that
-- `applyFiltrationWindowSlot_` of PoolLogicScheduler.cpp hands to `setSlot`.
use flowio_waveshare_qwiic.Prelude.{
  ℕ, zero, suc, true, false, some, List, ◌≡◌, ◌≢◌, sym, subst, ap, ◌/◌, ◌%◌, ◌<◌, refl, arith,
}
use flowio_waveshare_qwiic.Floats.{FloatOps}
use flowio_waveshare_qwiic.Logic.Types.{Schedule}
use flowio_waveshare_qwiic.Logic.Window.{Window, compute_window}
use flowio_waveshare_qwiic.Time.Types.{
  Definition, Runtime, LocalTime, recurring_clock, stop, time_weekday_all,
}
use flowio_waveshare_qwiic.Time.Clock.{
  is_weekday_enabled, prev_week_bit, week_bit_from_tm, minute_of_day, is_recurring_active_now,
}
use flowio_waveshare_qwiic.Time.Tick.{Now, visit, visit_recurring, follow_window}
use flowio_waveshare_qwiic.Time.ClockLaws.{overnight_never_ends}

-- The definition for a requested window; event id 0x2102 is POOLLOGIC_EVENT_FILTRATION_WINDOW.
unfoldable pub window_definition : List ℕ → Schedule → Definition
window_definition label q = record {
  slot = q.slot;
  event_id = 0x2102;
  enabled = q.enabled;
  has_end = true;
  replay_start_on_boot = true;
  label = label;
  mode = recurring_clock;
  weekday_mask = time_weekday_all;
  start_hour = q.start_hour;
  start_minute = q.start_minute;
  end_hour = q.end_hour;
  end_minute = q.end_minute;
  start_epoch_sec = 0;
  end_epoch_sec = 0;
}

-- What `applyFiltrationWindowSlot_` asks for, from the minutes of a window.
unfoldable pub window_request : Window → Schedule
window_request w = record {
  slot = 4;
  enabled = true;
  start_hour = w.start_minute / 60;
  start_minute = w.start_minute % 60;
  end_hour = w.stop_minute / 60;
  end_minute = w.stop_minute % 60;
}

-- Every day's bit is in the mask of all days.
all_days : (wb : ℕ) → wb < 7 → is_weekday_enabled time_weekday_all wb ≡ true
unfolding is_weekday_enabled
all_days zero h = refl
all_days (suc zero) h = refl
all_days (suc (suc zero)) h = refl
all_days (suc (suc (suc zero))) h = refl
all_days (suc (suc (suc (suc zero)))) h = refl
all_days (suc (suc (suc (suc (suc zero))))) h = refl
all_days (suc (suc (suc (suc (suc (suc zero)))))) h = refl
all_days (suc (suc (suc (suc (suc (suc (suc k))))))) h = absurd (omega arith)

prev-lt : (wb : ℕ) → wb < 7 → prev_week_bit wb < 7
unfolding prev_week_bit
prev-lt wb h = ground arith

week_bit-lt : (now : LocalTime) → now.tm_wday < 7 → week_bit_from_tm now < 7
unfolding week_bit_from_tm
week_bit-lt now h = ground arith

-- A window that is on is on after the visit of its slot, which posts no Stop.
visit-on :
    (c : Now) (s : Runtime)
    → s.used ≡ true
    → s.def.enabled ≡ true
    → s.def.has_end ≡ true
    → s.def.mode ≡ recurring_clock
    → is_recurring_active_now s.def
        (week_bit_from_tm c.local)
        (prev_week_bit (week_bit_from_tm c.local))
        (minute_of_day c.local)
      ≡ true
    → ((visit c s).0.active ≡ true) × ((visit c s).1 ≢ some (stop, 0))
unfolding visit visit_recurring follow_window
visit-on c s used enabled ends mode on = ground arith

module _ (fl : FloatOps) where
  open fl use {F, flt, of_ℕ}

  cold_window :
      (t : F) (w : Window)
      → compute_window fl t ≡ some w
      → flt t (of_ℕ 12) ≡ true
      → w.continuous ≡ false
      → (w.start_minute ≡ 1380) × (w.stop_minute ≡ 60)
  unfolding compute_window
  cold_window t w h cold part = ground arith

  -- Below 12 degrees a filtration window that is not continuous goes past midnight (it ends at an
  -- earlier minute than it starts). A used slot of the scheduler with the definition that the pool
  -- logic makes of it is on at whatever minute and weekday it is visited, stays active, and posts no
  -- Stop.
  pub filtration_never_ends :
      (t : F) (w : Window) (label : List ℕ) (c : Now) (s : Runtime)
      → compute_window fl t ≡ some w
      → flt t (of_ℕ 12) ≡ true
      → w.continuous ≡ false
      → c.local.tm_wday < 7
      → s.used ≡ true
      → s.def ≡ window_definition label (window_request w)
      → (w.stop_minute < w.start_minute)
        × (is_recurring_active_now s.def
              (week_bit_from_tm c.local)
              (prev_week_bit (week_bit_from_tm c.local))
              (minute_of_day c.local)
            ≡ true)
        × ((visit c s).0.active ≡ true)
        × ((visit c s).1 ≢ some (stop, 0))
  unfolding window_definition window_request
  filtration_never_ends t w label c s h cold part week used at =
      let late = cold_window t w h cold part in
      let wb = week_bit_from_tm c.local in
      let day = week_bit-lt c.local week in
      let on : is_recurring_active_now s.def wb (prev_week_bit wb) (minute_of_day c.local) ≡ true =
        subst (λ d. is_recurring_active_now d wb (prev_week_bit wb) (minute_of_day c.local) ≡ true)
          (sym at)
          (overnight_never_ends (window_definition label (window_request w)) wb (prev_week_bit wb)
            (minute_of_day c.local) refl refl (omega arith) (all_days wb day)
            (all_days (prev_week_bit wb) (prev-lt wb day))) in
      let (active, quiet) =
        visit-on c s used (ap (λ d. d.enabled) at) (ap (λ d. d.has_end) at) (ap (λ d. d.mode) at)
          on in
      (omega arith, on, active, quiet)
