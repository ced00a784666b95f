-- ===== src/Logic/WindowLaws.antt =====
-- Lemmas on the filtration window, for any floats.
use flowio_waveshare_qwiic.Prelude.{◌+◌, ◌/◌, ◌%◌, ◌≤◌, ◌<◌, ◌≡◌, false, some, arith, leb}
use flowio_waveshare_qwiic.Floats.{FloatOps}
use flowio_waveshare_qwiic.Logic.Window.{Window, normalize_minute, duration_minutes, compute_window}

module _ (fl : FloatOps) where
  open fl use {F, flt, of_ℕ, fmul, round}

  duration_bounds : (t : F) → (120 ≤ duration_minutes fl t) × (duration_minutes fl t ≤ 1440)
  unfolding duration_minutes
  duration_bounds t = ground arith

  -- A window that is returned has a duration of 2 to 24 hours and its ends within a day; it is
  -- continuous exactly when the duration is 24 hours.
  pub window_bounds :
      (t : F) (w : Window)
      → compute_window fl t ≡ some w
      → (120 ≤ w.duration_minutes)
        × (w.duration_minutes ≤ 1440)
        × (w.start_minute < 1440)
        × (w.stop_minute < 1440)
        × (w.continuous ≡ leb 1440 w.duration_minutes)
  unfolding compute_window normalize_minute
  window_bounds t w h = ground (arith, duration_bounds t)

  -- From 12 degrees on a window that is not continuous lasts its duration, round midnight if need
  -- be, and its middle is 15:00 (to the half minute that an odd duration leaves over).
  pub window_centred :
      (t : F) (w : Window)
      → compute_window fl t ≡ some w
      → flt t (of_ℕ 12) ≡ false
      → w.continuous ≡ false
      → (w.stop_minute ≡ (w.start_minute + w.duration_minutes) % 1440)
        × (w.start_minute + w.duration_minutes / 2 ≡ 900)
  unfolding compute_window normalize_minute
  window_centred t w h warm part = ground (arith, duration_bounds t)
