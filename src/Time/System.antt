-- ===== src/Time/System.antt =====
-- The reserved slots and the whole-table operations: `applySystemSlots_`, `clearAllSlots_`,
-- `resetScheduleRuntime_`, `usedCount_`, `activeMask_` and `isActive_`.
use flowio_waveshare_qwiic.Prelude.{
  ℕ, zero, suc, Bool, true, false, List, [], ◌∷◌, ◌++◌, ltb, leb, ◌-◌, if◌then◌else◌, set, bit,
  replicate, length,
}
use flowio_waveshare_qwiic.Time.Types.{
  recurring_clock, Runtime, Scheduler, blank_runtime, time_sched_max_slots, time_weekday_all,
  invalid_minute_key,
}

-- Every slot blank, with its number.
unfoldable pub blank_from : ℕ → ℕ → List Runtime
blank_from i zero = []
blank_from i (suc n) = blank_runtime i ∷ blank_from (suc i) n

-- The recurring event that `applySystemSlots_` puts into a slot.
unfoldable pub system_event : ℕ → ℕ → ℕ → List ℕ → Runtime
system_event slot event_id mask label = record {
  used = true;
  def = record {
    slot = slot;
    event_id = event_id;
    enabled = true;
    has_end = false;
    replay_start_on_boot = false;
    label = label;
    mode = recurring_clock;
    weekday_mask = mask;
    start_hour = 0;
    start_minute = 0;
    end_hour = 0;
    end_minute = 0;
    start_epoch_sec = 0;
    end_epoch_sec = 0;
  };
  active = false;
  last_trigger_minute_key = invalid_minute_key;
}

-- A text in an array of 24 bytes.
unfoldable pub label_of : List ℕ → List ℕ
label_of cs = cs ++ replicate (24 - length cs) 0

-- The labels `sys_day_start`, `sys_week_start` and `sys_month_start`.
abbrev pub sys_day_start : List ℕ
sys_day_start =
    b's' ∷ b'y' ∷ b's' ∷ b'_' ∷ b'd' ∷ b'a' ∷ b'y' ∷ b'_' ∷ b's' ∷ b't' ∷ b'a' ∷ b'r' ∷ b't' ∷ []

abbrev pub sys_week_start : List ℕ
sys_week_start =
    b's' ∷ b'y' ∷ b's' ∷ b'_' ∷ b'w' ∷ b'e' ∷ b'e' ∷ b'k' ∷ b'_' ∷ b's' ∷ b't' ∷ b'a' ∷ b'r' ∷ b't'
    ∷ []

abbrev pub sys_month_start : List ℕ
sys_month_start =
    b's' ∷ b'y' ∷ b's' ∷ b'_' ∷ b'm' ∷ b'o' ∷ b'n' ∷ b't' ∷ b'h' ∷ b'_' ∷ b's' ∷ b't' ∷ b'a' ∷ b'r'
    ∷ b't' ∷ []

-- `applySystemSlots_`; the three labels are texts that `sanitizeLabel_` leaves as they are.
unfoldable pub apply_system_slots : Bool → List Runtime → List Runtime
unfolding system_event label_of
apply_system_slots monday slots =
    if ltb (length slots) 3
    then slots
    else set
        (set (set slots 0 (system_event 0 0xF001 time_weekday_all (label_of sys_day_start))) 1
          (system_event 1 0xF002 (if monday then 1 else 64) (label_of sys_week_start)))
        2 (system_event 2 0xF003 time_weekday_all (label_of sys_month_start))

-- `resetScheduleRuntime_`
unfoldable pub reset_schedule_runtime : Scheduler → Scheduler
unfolding blank_from
reset_schedule_runtime m = record m {
  sched = blank_from 0 time_sched_max_slots;
  sched_initialized = false;
  active_mask_value = 0;
}

-- `clearAllSlots_`
unfoldable pub clear_all_slots : Bool → Scheduler → Scheduler × Bool
unfolding apply_system_slots blank_from
clear_all_slots persist m = (
  record m {
    sched = apply_system_slots m.week_start_monday (blank_from 0 time_sched_max_slots);
    sched_initialized = false;
    active_mask_value = 0;
  },
  persist,
)

-- `usedCount_`
unfoldable pub used_count : List Runtime → ℕ
used_count [] = 0
used_count (s ∷ ss) = let n = used_count ss in if s.used then suc n else n

-- `isActive_`, of the mask that `activeMask_` reads.
unfoldable pub is_active : ℕ → Scheduler → Bool
is_active slot m = if leb time_sched_max_slots slot then false else bit m.active_mask_value slot
