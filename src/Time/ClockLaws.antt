-- ===== src/Time/ClockLaws.antt =====
-- Recurring windows compared with their intent: an occurrence for each enabled day.
use flowio_waveshare_qwiic.Prelude.{ℕ, Bool, true, ◌≡◌, ◌<◌, ◌&&◌, ◌||◌, ltb, leb, arith}
use flowio_waveshare_qwiic.Time.Types.{Definition, is_recurring}
use flowio_waveshare_qwiic.Time.Clock.{
  is_weekday_enabled, start_min, end_min, is_recurring_active_now,
}

-- Today's occurrence runs from the start to the end, or to midnight if the end is on the next day.
abbrev pub covers_today : Definition → Bool → ℕ → Bool
covers_today d today m =
    today && (leb (start_min d) m && (ltb m (end_min d) || ltb (end_min d) (start_min d)))

-- Yesterday's occurrence reaches into today if its end is earlier in the day than its start.
abbrev pub covers_overnight : Definition → Bool → ℕ → Bool
covers_overnight d yesterday m = yesterday && (ltb (end_min d) (start_min d) && ltb m (end_min d))

-- The minutes after the end of an overnight window and before its next start.
abbrev pub after_end : Definition → Bool → ℕ → Bool
after_end d yesterday m =
    yesterday && (ltb (end_min d) (start_min d) && (leb (end_min d) m && ltb m (start_min d)))

-- A recurring window with an end is on exactly while an occurrence of today or of yesterday covers
-- the minute, or, where it goes past midnight and was enabled yesterday, also from its end to its
-- next start.
pub is_recurring_active_now_exact :
    (d : Definition) (week_bit prev_bit m : ℕ)
    → is_recurring d.mode ≡ true
    → d.has_end ≡ true
    → is_recurring_active_now d week_bit prev_bit m ≡ (
        covers_today d (is_weekday_enabled d.weekday_mask week_bit) m
        || (covers_overnight d (is_weekday_enabled d.weekday_mask prev_bit) m
            || after_end d (is_weekday_enabled d.weekday_mask prev_bit) m))
unfolding is_recurring_active_now
is_recurring_active_now_exact d week_bit prev_bit m mode has_end = ground arith

-- A window that ends earlier in the day than it starts, on days that are enabled with the day
-- before, is on at every minute: it never ends.
pub overnight_never_ends :
    (d : Definition) (week_bit prev_bit m : ℕ)
    → is_recurring d.mode ≡ true
    → d.has_end ≡ true
    → end_min d < start_min d
    → is_weekday_enabled d.weekday_mask week_bit ≡ true
    → is_weekday_enabled d.weekday_mask prev_bit ≡ true
    → is_recurring_active_now d week_bit prev_bit m ≡ true
unfolding is_recurring_active_now
overnight_never_ends d week_bit prev_bit m mode has_end late today yesterday = ground arith
