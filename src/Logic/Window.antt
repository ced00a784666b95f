-- ===== src/Logic/Window.antt =====
-- FiltrationWindow.cpp: the daily filtration window from the water temperature.
use flowio_waveshare_qwiic.Prelude.{
  ℕ, suc, ◌+◌, ◌-◌, ◌/◌, ◌%◌, Bool, true, false, not, Option, none, some, ltb, leb, ◌==◌,
  if◌then◌else◌, u16, ℤ, pos, negsuc, sub_ℕ,
}
use flowio_waveshare_qwiic.Floats.{FloatOps}

abbrev pub minutes_per_day : ℕ
minutes_per_day = 1440

abbrev pub winter_start_minute : ℕ
winter_start_minute = 1380

abbrev pub solar_pivot_minute : ℕ
solar_pivot_minute = 900

-- `normalizeMinute_`: C's `%` keeps the sign of the dividend.
unfoldable pub normalize_minute : ℤ → ℕ
normalize_minute (pos n) = u16 (n % minutes_per_day)
normalize_minute (negsuc n) =
    let r = suc n % minutes_per_day in if r == 0 then 0 else u16 (minutes_per_day - r)

-- `FiltrationWindowOutput`
pub record Window : Type 0 where
  pub start_minute : ℕ
  pub stop_minute : ℕ
  pub duration_minutes : ℕ
  pub continuous : Bool

module _ (fl : FloatOps) where
  open fl use {F, flt, fle, fadd, fsub, fmul, fdiv, finite, of_ℕ, lit, round}

  -- `durationHoursForTemperature_`
  unfoldable pub duration_hours : F → F
  duration_hours t =
      if fle t (of_ℕ 12)
      then of_ℕ 2
      else if fle t (of_ℕ 25)
      then fadd (of_ℕ 2)
          (fmul (fsub t (of_ℕ 12)) (fdiv (fsub (lit 125 1) (of_ℕ 2)) (fsub (of_ℕ 25) (of_ℕ 12))))
      else if flt t (of_ℕ 30)
      then fadd (lit 125 1)
          (fmul (fsub t (of_ℕ 25)) (fdiv (fsub (of_ℕ 24) (lit 125 1)) (fsub (of_ℕ 30) (of_ℕ 25))))
      else of_ℕ 24

  -- The minutes, held within 2 hours and a day.
  unfoldable pub duration_minutes : F → ℕ
  unfolding duration_hours
  duration_minutes t =
      let raw = u16 (round (fmul (duration_hours t) (of_ℕ 60))) in
      let low : ℕ = if ltb raw 120 then 120 else raw in
      if ltb minutes_per_day low then minutes_per_day else low

  -- `computeFiltrationWindowDeterministic`; `none` is its `false`.
  unfoldable pub compute_window : F → Option Window
  compute_window t =
      if not (finite t)
      then none
      else (let d = duration_minutes t in
          if leb minutes_per_day d
          then some (record {
            start_minute = 0;
            stop_minute = 0;
            duration_minutes = d;
            continuous = true;
          })
          else if flt t (of_ℕ 12)
          then some (record {
            start_minute = winter_start_minute;
            stop_minute = 60;
            duration_minutes = d;
            continuous = false;
          })
          else (let start = normalize_minute (sub_ℕ solar_pivot_minute (d / 2)) in
              some (record {
                start_minute = start;
                stop_minute = normalize_minute (pos (start + d));
                duration_minutes = d;
                continuous = false;
              })))
