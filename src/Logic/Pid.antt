-- ===== src/Logic/Pid.antt =====
-- The temporal PID: a controller whose output is the time that a pump is on in each window.
use flowio_waveshare_qwiic.Prelude.{
  ℕ, zero, suc, ◌+◌, Bool, true, false, not, ◌&&◌, ◌||◌, ltb, leb, differ, if◌then◌else◌, u32,
  sub32,
}
use flowio_waveshare_qwiic.Floats.{FloatOps}
use flowio_waveshare_qwiic.Logic.Types.{PidState}

-- The `while` loop that moves the window's start up to the present, on fuel.
unfoldable pub advance_window : ℕ → ℕ → ℕ → ℕ → ℕ
advance_window zero window now start = start
advance_window (suc fuel) window now start = elim (leb window (sub32 now start)) [
  | true ↦ advance_window fuel window now (u32 (start + window))
  | false ↦ start
]

-- The gains and times of a controller.
pub record Tuning (F : Type 0) : Type 0 where
  pub kp : F
  pub ki : F
  pub kd : F
  pub window_cfg : ℕ
  pub sample_cfg : ℕ
  pub min_on_ms : ℕ
  pub positive_when_input_high : Bool

abbrev pub window_ms : {F : Type 0} → Tuning F → ℕ
window_ms g = if ltb 1000 g.window_cfg then g.window_cfg else 1000

abbrev pub sample_ms : {F : Type 0} → Tuning F → ℕ
sample_ms g = if ltb 100 g.sample_cfg then g.sample_cfg else 100

module _ (fl : FloatOps) where
  open fl use {F, flt, feq, fadd, fsub, fmul, fdiv, finite, of_ℕ, lit, to_ℕ}

  -- `resetTemporalPidState_`
  unfoldable pub reset_pid : ℕ → PidState F → PidState F
  reset_pid now st = record {
    initialized = false;
    sample_valid = false;
    last_demand_on = false;
    window_start_ms = now;
    last_compute_ms = now;
    sample_ts_ms = 0;
    output_on_ms = 0;
    runtime_ts_ms = now;
    sample_input = of_ℕ 0;
    sample_setpoint = of_ℕ 0;
    sample_error = of_ℕ 0;
    integral = of_ℕ 0;
    prev_error = of_ℕ 0;
    last_error = of_ℕ 0;
  }

  -- The reset at a state that is not initialized.
  unfoldable pub start_pid : ℕ → PidState F → PidState F
  unfolding reset_pid
  start_pid now st =
      if st.initialized
      then st
      else (let fresh : PidState F = reset_pid now st in record fresh { initialized = true })

  -- The integral and the output in milliseconds for an error and a time step.
  unfoldable pub pid_output : Tuning F → F → F → PidState F → F × F
  pid_output g dt error st =
      if flt (of_ℕ 0) error && finite error
      then (let integral : F =
            if not (feq g.ki (of_ℕ 0)) && flt (of_ℕ 0) dt
            then fadd st.integral (fmul error dt)
            else of_ℕ 0 in
          let deriv : F = if flt (of_ℕ 0) dt then fdiv (fsub error st.prev_error) dt else of_ℕ 0 in
          let raw : F = fadd (fadd (fmul g.kp error) (fmul g.ki integral)) (fmul g.kd deriv) in
          let low : F = if not (finite raw) || flt raw (of_ℕ 0) then of_ℕ 0 else raw in
          (integral, if flt (of_ℕ (window_ms g)) low then of_ℕ (window_ms g) else low))
      else (of_ℕ 0, of_ℕ 0)

  -- The time on that an output stands for: short ones are dropped, long ones cut to the window.
  unfoldable pub on_time : Tuning F → F → ℕ
  on_time g output =
      let raw : ℕ = to_ℕ (fadd output (lit 5 1)) in
      let kept : ℕ = if ltb raw g.min_on_ms then 0 else raw in
      if ltb (window_ms g) kept then window_ms g else kept

  -- A new sample.
  unfoldable pub sample_pid : Tuning F → F → F → ℕ → PidState F → PidState F
  unfolding pid_output on_time
  sample_pid g input setpoint now st =
      let dt_ms : ℕ = sub32 now st.last_compute_ms in
      let dt : F = if ltb 0 dt_ms then fdiv (of_ℕ dt_ms) (of_ℕ 1000) else of_ℕ 0 in
      let error : F =
        if g.positive_when_input_high then fsub input setpoint else fsub setpoint input in
      let (integral', output) = pid_output g dt error st in
      record st {
        last_compute_ms = now;
        last_error = error;
        integral = integral';
        prev_error = error;
        sample_valid = true;
        sample_input = input;
        sample_setpoint = setpoint;
        sample_error = error;
        sample_ts_ms = now;
        runtime_ts_ms = now;
        output_on_ms = on_time g output;
      }

  -- `stepTemporalPid_`: the new state and the demand.
  unfoldable pub step_pid : Tuning F → F → F → ℕ → PidState F → PidState F × Bool
  unfolding start_pid advance_window sample_pid
  step_pid g input setpoint now st =
      let st1 : PidState F = start_pid now st in
      let st2 : PidState F = record st1 {
        window_start_ms =
            advance_window (sub32 now st1.window_start_ms) (window_ms g) now st1.window_start_ms;
      } in
      let st3 : PidState F =
        if leb (sample_ms g) (sub32 now st2.last_compute_ms)
        then sample_pid g input setpoint now st2
        else st2 in
      let demand : Bool =
        ltb 0 st3.output_on_ms && ltb (sub32 now st3.window_start_ms) st3.output_on_ms in
      (
        if differ demand st3.last_demand_on
            then record st3 { last_demand_on = demand; runtime_ts_ms = now }
            else st3,
        demand,
      )
