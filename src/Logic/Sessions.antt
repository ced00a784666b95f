-- ===== src/Logic/Sessions.antt =====
-- The heating assistant's probes and sessions, over any number of runs.
use flowio_waveshare_qwiic.Prelude.{
  ◌≤◌, ◌<◌, ◌≡◌, ◌⊎◌, true, false, ◌&&◌, List, [], ◌∷◌, arith, ltb, sub16,
}
use flowio_waveshare_qwiic.Floats.{FloatOps}
use flowio_waveshare_qwiic.Logic.Types.{HeatAssist}
use flowio_waveshare_qwiic.Logic.Heating.{
  HeatIn, heat_assist, heating_step, probe_step, pump_step, wait_step, start_probe, reset_session,
}

-- A session is a probe or a heating, never both, and without a probe there is no start time.
unfoldable pub IsSession : HeatAssist → Type 0
IsSession h =
    (h.probing && h.heating_active ≡ false) × ((h.probing ≡ true) ⊎ (h.probe_start_sec ≡ 0))

module _ (fl : FloatOps) where
  open fl use {F, finite}

  heat_assist-IsSession :
      (x : HeatIn F) (h : HeatAssist) → IsSession h → IsSession (heat_assist fl x h).heat
  unfolding IsSession heat_assist heating_step probe_step pump_step wait_step start_probe
      reset_session
  heat_assist-IsSession x h inv = ground arith

  -- The assistant over a sequence of inputs.
  unfoldable pub assist_runs : List (HeatIn F) → HeatAssist → HeatAssist
  assist_runs [] h = h
  assist_runs (x ∷ xs) h = assist_runs xs (heat_assist fl x h).heat

  -- Whatever the inputs are, run after run, a probe and a heating session exclude each other and no
  -- probe leaves its start time behind.
  pub assist_runs-IsSession :
      (xs : List (HeatIn F)) (h : HeatAssist) → IsSession h → IsSession (assist_runs xs h)
  unfolding assist_runs
  assist_runs-IsSession [] h inv = inv
  assist_runs-IsSession (x ∷ xs) h inv =
      assist_runs-IsSession xs (heat_assist fl x h).heat (heat_assist-IsSession x h inv)

  -- A probe in automatic heating with no error: for its 300 seconds the pump is asked for and the
  -- heater is not, and the start time is kept; then it is over, and the heater is asked for exactly
  -- when a heating session begins.
  pub heat_assist-probe :
      (x : HeatIn F) (h : HeatAssist)
      → x.heater_auto ≡ true
      → x.auto_mode ≡ true
      → x.psi_error ≡ false
      → finite x.setpoint ≡ true
      → h.probing ≡ true
      → h.heating_active ≡ false
      → ((heat_assist fl x h).heat.probing ≡ ltb (sub16 x.now_sec h.probe_start_sec) 300)
        × ((heat_assist fl x h).heater_desired ≡ (heat_assist fl x h).heat.heating_active)
        × ((300 ≤ sub16 x.now_sec h.probe_start_sec)
            ⊎ (((heat_assist fl x h).heat.probe_start_sec ≡ h.probe_start_sec)
                × ((heat_assist fl x h).filtration_desired ≡ true)
                × ((heat_assist fl x h).heater_desired ≡ false)))
  unfolding heat_assist probe_step
  heat_assist-probe x h ha am pe fs pr hh = ground arith

  -- A probe that starts at a second less than 300 from now is not over: after the wait, the run at
  -- `start` that begins it and the next run leave it on, the pump asked for and the heater not.
  pub wait_step-probe :
      (x y : HeatIn F) (h : HeatAssist)
      → (wait_step fl x h).heat.probing ≡ true
      → h.probing ≡ false
      → y.heater_auto ≡ true
      → y.auto_mode ≡ true
      → y.psi_error ≡ false
      → finite y.setpoint ≡ true
      → sub16 y.now_sec x.now_sec < 300
      → ((heat_assist fl y (wait_step fl x h).heat).heat.probing ≡ true)
        × ((heat_assist fl y (wait_step fl x h).heat).filtration_desired ≡ true)
        × ((heat_assist fl y (wait_step fl x h).heat).heater_desired ≡ false)
  unfolding heat_assist wait_step start_probe probe_step
  wait_step-probe x y h pr off ha am pe fs near = ground arith
