-- ===== src/Time/Clock.antt =====
-- When a recurring slot fires and when it is on: the static helpers of TimeModule.cpp.
use flowio_waveshare_qwiic.Prelude.{
  ℕ, Bool, false, ◌+◌, ◌-◌, ◌*◌, ◌&&◌, not, ◌==◌, ltb, leb, if◌then◌else◌, bit,
}
use flowio_waveshare_qwiic.Time.Types.{
  Definition, Runtime, LocalTime, time_weekday_all, is_recurring,
}

-- `weekBitFromTm_`: Monday is 0.
unfoldable pub week_bit_from_tm : LocalTime → ℕ
week_bit_from_tm t = if t.tm_wday == 0 then 6 else t.tm_wday - 1

-- The bit of the day before, as `tickScheduler_` computes it.
unfoldable pub prev_week_bit : ℕ → ℕ
prev_week_bit week_bit = if week_bit == 0 then 6 else week_bit - 1

-- `minuteOfDay_`
unfoldable pub minute_of_day : LocalTime → ℕ
minute_of_day t = t.tm_hour * 60 + t.tm_min

-- `isWeekdayEnabled_`
unfoldable pub is_weekday_enabled : ℕ → ℕ → Bool
is_weekday_enabled mask week_bit = bit (if mask == 0 then time_weekday_all else mask) week_bit

abbrev pub start_min : Definition → ℕ
start_min d = d.start_hour * 60 + d.start_minute

abbrev pub end_min : Definition → ℕ
end_min d = d.end_hour * 60 + d.end_minute

-- `isRecurringTriggerNow_`
unfoldable pub is_recurring_trigger_now : Definition → ℕ → ℕ → Bool
is_recurring_trigger_now d week_bit minute =
    is_recurring d.mode && (is_weekday_enabled d.weekday_mask week_bit && minute == start_min d)

-- `isRecurringActiveNow_`
unfoldable pub is_recurring_active_now : Definition → ℕ → ℕ → ℕ → Bool
is_recurring_active_now d week_bit prev_bit minute =
    if not (is_recurring d.mode)
    then false
    else if not d.has_end
    then false
    else if start_min d == end_min d
    then false
    else if ltb (start_min d) (end_min d)
    then (if not (is_weekday_enabled d.weekday_mask week_bit)
        then false
        else leb (start_min d) minute && ltb minute (end_min d))
    else if leb (start_min d) minute
    then is_weekday_enabled d.weekday_mask week_bit
    else is_weekday_enabled d.weekday_mask prev_bit

-- `isMonthStartEvent_`
unfoldable pub is_month_start_event : Runtime → LocalTime → Bool
is_month_start_event s t =
    if not (is_recurring s.def.mode)
    then false
    else if s.def.has_end
    then false
    else if not (s.def.slot == 2)
    then false
    else if not (s.def.event_id == 0xF003)
    then false
    else t.tm_mday == 1
