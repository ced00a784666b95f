-- ===== src/Logic/PidLaws.antt =====
-- Lemmas on the temporal PID: its loop, its time on and its demand.
use flowio_waveshare_qwiic.Prelude.{
  ℕ, zero, suc, ◌+◌, ◌≤◌, ◌<◌, ◌≡◌, refl, ◌⊎◌, inl, inr, arith, u32, sub32, ltb, leb, Bool-cases,
}
use flowio_waveshare_qwiic.Floats.{FloatOps}
use flowio_waveshare_qwiic.Logic.Types.{PidState}
use flowio_waveshare_qwiic.Logic.Pid.{
  advance_window, Tuning, window_ms, on_time, sample_pid, start_pid, step_pid, reset_pid,
}

-- A whole window later, the time since its start is a window shorter.
sub32-window :
    (window now start : ℕ)
    → 1 ≤ window
    → window ≤ sub32 now start
    → now < 4294967296
    → start < 4294967296
    → sub32 now (u32 (start + window)) + window ≡ sub32 now start
sub32-window window now start one late hn hs = ground arith

u32-lt : (n : ℕ) → u32 n < 4294967296
u32-lt n = omega arith

advance_window-lt :
    (fuel window now start : ℕ)
    → 1 ≤ window
    → now < 4294967296
    → start < 4294967296
    → sub32 now start ≤ fuel
    → sub32 now (advance_window fuel window now start) < window
unfolding advance_window
advance_window-lt zero window now start one hn hs h = omega arith
advance_window-lt (suc fuel) window now start one hn hs h =
    elim (Bool-cases (leb window (sub32 now start))) [
      | inl e ↦
          let late : window ≤ sub32 now start = ground arith in
          let step = sub32-window window now start one late hn hs in
          rw (e, advance_window)
            (advance_window-lt fuel window now (u32 (start + window)) one hn
              (u32-lt (start + window)) (omega arith))
      | inr e ↦ rw (e, advance_window) (ground arith)
    ]

advance_window-u32 :
    (fuel window now start : ℕ)
    → start < 4294967296
    → advance_window fuel window now start < 4294967296
unfolding advance_window
advance_window-u32 zero window now start hs = hs
advance_window-u32 (suc fuel) window now start hs =
    elim (Bool-cases (leb window (sub32 now start))) [
      | inl e ↦
          rw (e, advance_window)
            (advance_window-u32 fuel window now (u32 (start + window)) (u32-lt (start + window)))
      | inr e ↦ rw (e, advance_window) hs
    ]

pub window_ms-pos : {F : Type 0} (g : Tuning F) → 1 ≤ window_ms g
window_ms-pos g = ground arith

-- A time on that fits the controller: none, at least the shortest and at most the window, or the
-- whole window where even this is shorter than the shortest.
unfoldable pub OnTime : {F : Type 0} → Tuning F → ℕ → Type 0
OnTime g n =
    (n ≤ window_ms g)
    × ((n ≡ 0) ⊎ ((g.min_on_ms ≤ n) ⊎ ((n ≡ window_ms g) × (window_ms g < g.min_on_ms))))

-- A state between two steps: its times are 32-bit and its output fits the controller.
unfoldable pub IsPid : {F : Type 0} → Tuning F → PidState F → Type 0
unfolding OnTime
IsPid g st = (st.window_start_ms < 4294967296) × OnTime g st.output_on_ms

module _ (fl : FloatOps) where
  open fl use {F}

  on_time-OnTime : (g : Tuning F) (output : F) → OnTime g (on_time fl g output)
  unfolding on_time OnTime
  on_time-OnTime g output = ground arith

  pub reset_pid-IsPid :
      (g : Tuning F) (now : ℕ) (st : PidState F) → now < 4294967296 → IsPid g (reset_pid fl now st)
  unfolding reset_pid IsPid OnTime
  reset_pid-IsPid g now st hn = ground arith

  start_pid-IsPid :
      (g : Tuning F) (now : ℕ) (st : PidState F)
      → now < 4294967296
      → IsPid g st
      → IsPid g (start_pid fl now st)
  unfolding start_pid reset_pid IsPid OnTime
  start_pid-IsPid g now st hn h = ground arith

  sample_pid-IsPid :
      (g : Tuning F) (input setpoint : F) (now : ℕ) (st : PidState F)
      → IsPid g st
      → IsPid g (sample_pid fl g input setpoint now st)
        × ((sample_pid fl g input setpoint now st).window_start_ms ≡ st.window_start_ms)
  unfolding sample_pid IsPid
  sample_pid-IsPid g input setpoint now st h =
      let (start_ms, fits) = h in ((start_ms, on_time-OnTime g _), refl)

  -- From a 32-bit time and a state whose window starts at one and whose time on fits, a step of the
  -- controller ends (its loop has fuel enough) and leaves such a state, with the present inside the
  -- window. A time on fits where it is none, at least the shortest and at most the window, or the
  -- whole window where the window is shorter than the shortest time. The step demands the pump
  -- exactly in the first part of the window that is as long as the time on.
  pub step_pid-demand :
      (g : Tuning F) (input setpoint : F) (now : ℕ) (st : PidState F)
      → now < 4294967296
      → IsPid g st
      → IsPid g (step_pid fl g input setpoint now st).0
        × (sub32 now (step_pid fl g input setpoint now st).0.window_start_ms < window_ms g)
        × ((step_pid fl g input setpoint now st).0.last_demand_on
            ≡ (step_pid fl g input setpoint now st).1)
        × ((step_pid fl g input setpoint now st).1
            ≡ ltb
                (sub32 now (step_pid fl g input setpoint now st).0.window_start_ms)
                (step_pid fl g input setpoint now st).0.output_on_ms)
  unfolding step_pid IsPid
  step_pid-demand g input setpoint now st hn h =
      let st1 = start_pid fl now st in
      let h1 = start_pid-IsPid g now st hn h in
      let m =
        advance_window (sub32 now st1.window_start_ms) (window_ms g) now st1.window_start_ms in
      let a =
        advance_window-lt (sub32 now st1.window_start_ms) (window_ms g) now st1.window_start_ms
          (window_ms-pos g) hn h1.0 (omega arith) in
      let b =
        advance_window-u32 (sub32 now st1.window_start_ms) (window_ms g) now st1.window_start_ms
          h1.0 in
      let st2 : PidState F = record st1 { window_start_ms = m } in
      let h2 : IsPid g st2 = (b, h1.1) in
      let (h3, same) = sample_pid-IsPid g input setpoint now st2 h2 in ground arith
