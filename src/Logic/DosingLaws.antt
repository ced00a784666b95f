-- ===== src/Logic/DosingLaws.antt =====
-- The dosing pumps and their controllers in `runControlLoop_`.
use flowio_waveshare_qwiic.Prelude.{
  ℕ, ◌<◌, ◌≡◌, sym, subst, ◌⊎◌, Bool, true, false, ◌&&◌, arith, ltb, sub32,
}
use flowio_waveshare_qwiic.Logic.Types.{DeviceFsm, PidState, Config, Logic, Services}
use flowio_waveshare_qwiic.Logic.Sensors.{
  Sensors, read_sensors, reconcile_window, feedback_fault, update_errors, arm_pids,
}
use flowio_waveshare_qwiic.Logic.Pid.{Tuning}
use flowio_waveshare_qwiic.Logic.PidLaws.{IsPid, step_pid-demand, reset_pid-IsPid}
use flowio_waveshare_qwiic.Logic.Demand.{
  dosing, dose, ph_allowed, orp_allowed, ph_tuning, orp_tuning, idle_pid,
}
use flowio_waveshare_qwiic.Logic.Loop.{
  decide, prepare, run_control_loop, act, sync_devices, assess, on_filtration_started,
  on_filtration_stopped, reset_pids,
}

module _ (v : Services) where
  open v use {F, floats, fle, flt, finite, World, alarms}

  idle_pid-IsPid :
      (g : Tuning F) (now : ℕ) (st : PidState F)
      → now < 4294967296
      → IsPid g st
      → IsPid g (idle_pid v now st)
  unfolding idle_pid
  idle_pid-IsPid g now st hn h = ground (arith, reset_pid-IsPid floats g now st hn)

  -- One pump, its controller and its request.
  dose-lem :
      (auto allowed : Bool) (g : Tuning F) (input setpoint : F) (now : ℕ) (f : DeviceFsm)
      (st : PidState F)
      → now < 4294967296
      → IsPid g st
      → IsPid g (dose v auto allowed g input setpoint now f st).0
        × (((allowed ≡ true)
              × (auto ≡ true)
              × ((dose v auto allowed g input setpoint now f st).1
                  ≡ ltb
                      (sub32 now (dose v auto allowed g input setpoint now f st).0.window_start_ms)
                      (dose v auto allowed g input setpoint now f st).0.output_on_ms))
            ⊎ ((auto && allowed ≡ false)
                × ((dose v auto allowed g input setpoint now f st).1 ≡ f.on)))
  unfolding dose
  dose-lem auto allowed g input setpoint now f st hn h =
      ground
        (arith, step_pid-demand floats g input setpoint now st hn h, idle_pid-IsPid g now st hn h)

  -- At a 32-bit time, while the filtration is wanted and pH dosing is automatic, a well-formed
  -- controller stays well-formed, and either dosing is allowed and the pump is asked for exactly in the first part of the window that
  -- is as long as the time on, or it is not allowed and the request is the pump's own state.
  pub decide-ph_pump :
      (c : Config F) (now : ℕ) (fault : Bool) (s : Sensors F) (l : Logic F)
      → now < 4294967296
      → IsPid (ph_tuning v c) l.ph_pid
      → c.ph_auto_mode ≡ true
      → (decide v c now fault s l).filtration ≡ true
      → IsPid (ph_tuning v c) (decide v c now fault s l).logic.ph_pid
        × (((ph_allowed v s l ≡ true)
              × ((decide v c now fault s l).ph_pump
                  ≡ ltb
                      (sub32 now (decide v c now fault s l).logic.ph_pid.window_start_ms)
                      (decide v c now fault s l).logic.ph_pid.output_on_ms))
            ⊎ ((ph_allowed v s l ≡ false) × ((decide v c now fault s l).ph_pump ≡ l.ph_pump.on)))
  unfolding decide dosing ph_allowed
  decide-ph_pump c now fault s l hn h auto wanted = ground (
    arith,
    dose-lem c.ph_auto_mode (ph_allowed v s l) (ph_tuning v c) s.ph c.ph_setpoint now l.ph_pump
        l.ph_pid hn h,
  )

  -- Whatever the modes are, a request for an ORP pump that is off means that its dosing is
  -- automatic, the filtration is wanted, the electrolysis is not configured, there is no pressure
  -- error, the tank is not empty, the controller is released, and there is a measurement.
  pub decide-orp_pump :
      (c : Config F) (now : ℕ) (fault : Bool) (s : Sensors F) (l : Logic F)
      → l.orp_pump.on ≡ false
      → (decide v c now fault s l).orp_pump ≡ true
      → (c.orp_auto_mode ≡ true)
        × ((decide v c now fault s l).filtration ≡ true)
        × (c.electrolyse_mode ≡ false)
        × (l.psi_error ≡ false)
        × (l.chlorine_tank_low_error ≡ false)
        × (l.orp_pid_enabled ≡ true)
        × (s.have_orp ≡ true)
  unfolding decide dosing dose orp_allowed
  decide-orp_pump c now fault s l off e = ground arith

  decide-IsPid :
      (c : Config F) (now : ℕ) (fault : Bool) (s : Sensors F) (l : Logic F)
      → now < 4294967296
      → IsPid (ph_tuning v c) l.ph_pid
      → IsPid (orp_tuning v c) l.orp_pid
      → IsPid (ph_tuning v c) (decide v c now fault s l).logic.ph_pid
        × IsPid (orp_tuning v c) (decide v c now fault s l).logic.orp_pid
  unfolding decide dosing
  decide-IsPid c now fault s l hn hp ho =
      let (ph, _) =
        dose-lem c.ph_auto_mode (ph_allowed v s l) (ph_tuning v c) s.ph c.ph_setpoint now l.ph_pump
          l.ph_pid hn hp in
      let (orp, _) =
        dose-lem c.orp_auto_mode (orp_allowed v c s l) (orp_tuning v c) s.orp c.orp_setpoint now
          l.orp_pump l.orp_pid hn ho in
      let iph = idle_pid-IsPid (ph_tuning v c) now l.ph_pid hn hp in
      let iorp = idle_pid-IsPid (orp_tuning v c) now l.orp_pid hn ho in ground arith

  sync_devices-IsPid :
      (c : Config F) (now : ℕ) (l : Logic F) (w : World)
      → now < 4294967296
      → IsPid (ph_tuning v c) l.ph_pid
      → IsPid (orp_tuning v c) l.orp_pid
      → IsPid (ph_tuning v c) (sync_devices v c now l w).0.ph_pid
        × IsPid (orp_tuning v c) (sync_devices v c now l w).0.orp_pid
  unfolding sync_devices on_filtration_started on_filtration_stopped reset_pids
  sync_devices-IsPid c now l w hn hp ho = ground (
    arith,
    reset_pid-IsPid floats (ph_tuning v c) now l.ph_pid hn,
    reset_pid-IsPid floats (orp_tuning v c) now l.orp_pid hn,
  )

  assess-pids :
      (c : Config F) (now : ℕ) (s : Sensors F) (l : Logic F) (w : World)
      → ((assess v c now s l w).0.ph_pid ≡ l.ph_pid)
        × ((assess v c now s l w).0.orp_pid ≡ l.orp_pid)
  unfolding assess update_errors arm_pids
  assess-pids c now s l w = ground arith

  -- At a 32-bit time, a run of the loop keeps both controllers well-formed: their windows start at a
  -- 32-bit time, and each time on is none, at least the shortest and at most the window, or the
  -- whole window where the window is shorter than the shortest time.
  pub run_control_loop-IsPid :
      (c : Config F) (now : ℕ) (l : Logic F) (w : World)
      → now < 4294967296
      → IsPid (ph_tuning v c) l.ph_pid
      → IsPid (orp_tuning v c) l.orp_pid
      → IsPid (ph_tuning v c) (run_control_loop v c now l w).0.ph_pid
        × IsPid (orp_tuning v c) (run_control_loop v c now l w).0.orp_pid
  unfolding run_control_loop prepare act
  run_control_loop-IsPid c now l w hn hp ho =
      let (l1, w1) = sync_devices v c now l w in
      let (hp1, ho1) = sync_devices-IsPid c now l w hn hp ho in
      let s : Sensors F = read_sensors v c now w1 in
      let (l2, w2) = assess v c now s l1 w1 in
      let (ep, eo) = assess-pids c now s l1 w1 in
      let (p, force) = reconcile_window v w2 l2.plan in
      let l3 : Logic F = record l2 { plan = p } in
      decide-IsPid c now (feedback_fault v c (alarms w2)) s l3 hn
        (subst (IsPid (ph_tuning v c)) (sym ep) hp1) (subst (IsPid (orp_tuning v c)) (sym eo) ho1)
