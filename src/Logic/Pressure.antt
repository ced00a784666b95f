-- ===== src/Logic/Pressure.antt =====
-- The stop of the pump at a pressure error: what `runControlLoop_` remembers, and what it sends.
mod Tests
use flowio_waveshare_qwiic.Prelude.{
  ℕ, ◌<◌, ◌≡◌, sym, subst, ap, refl, ◌∙◌, ◌⊎◌, inl, inr, Bool, Bool-cases, Option, none, some, true,
  false, not, ◌&&◌, arith, sub32, if◌then◌else◌,
}
use flowio_waveshare_qwiic.Logic.Types.{DeviceFsm, Config, Logic, Services}
use flowio_waveshare_qwiic.Logic.Devices.{apply_control, must_send, sync_device}
use flowio_waveshare_qwiic.Logic.Sensors.{
  Sensors, read_sensors, reconcile_window, feedback_fault, update_errors, arm_pids,
}
use flowio_waveshare_qwiic.Logic.Demand.{dosing}
use flowio_waveshare_qwiic.Logic.Loop.{
  Requests, decide, prepare, run_control_loop, act, sync_devices, assess, on_filtration_started,
  on_filtration_stopped, reset_pids,
}
use flowio_waveshare_qwiic.Logic.Requests.{decide-psi_error, decide-errors}

module _ (v : Services) where
  open v use {F, World, alarms, write_desired, read_actual}

  apply_control-last_desired :
      (slot : ℕ) (desired : Bool) (now : ℕ) (f : DeviceFsm) (w : World)
      → (apply_control v slot desired now f w).0.last_desired ≡ desired
  unfolding apply_control
  apply_control-last_desired slot desired now f w = ground arith

  decide-filtration :
      (c : Config F) (now : ℕ) (fault : Bool) (s : Sensors F) (l : Logic F)
      → (decide v c now fault s l).logic.filtration ≡ l.filtration
  unfolding decide dosing
  decide-filtration c now fault s l = ground arith

  assess-filtration :
      (c : Config F) (now : ℕ) (s : Sensors F) (l : Logic F) (w : World)
      → (assess v c now s l w).0.filtration ≡ l.filtration
  unfolding assess update_errors arm_pids
  assess-filtration c now s l w = ground arith

  sync_device-last :
      (actual : Option Bool) (now : ℕ) (f : DeviceFsm)
      → ((sync_device actual now f).fsm.last_desired ≡ f.last_desired)
        × ((sync_device actual now f).fsm.last_cmd_ms ≡ f.last_cmd_ms)
  unfolding sync_device
  sync_device-last none now f = (refl, refl)
  sync_device-last (some actual) now f = ground arith

  sync_devices-last :
      (c : Config F) (now : ℕ) (l : Logic F) (w : World)
      → ((sync_devices v c now l w).0.filtration.last_desired ≡ l.filtration.last_desired)
        × ((sync_devices v c now l w).0.filtration.last_cmd_ms ≡ l.filtration.last_cmd_ms)
  unfolding sync_devices on_filtration_started on_filtration_stopped reset_pids
  sync_devices-last c now l w =
      ground (arith, sync_device-last (read_actual w c.filtration_slot) now l.filtration)

  -- The run up to the requests does not touch what was last asked of the pump.
  prepare-last :
      (c : Config F) (now : ℕ) (l : Logic F) (w : World)
      → ((prepare v c now l w).0.logic.filtration.last_desired ≡ l.filtration.last_desired)
        × ((prepare v c now l w).0.logic.filtration.last_cmd_ms ≡ l.filtration.last_cmd_ms)
  unfolding prepare
  prepare-last c now l w =
      let (l1, w1) = sync_devices v c now l w in
      let s : Sensors F = read_sensors v c now w1 in
      let (l2, w2) = assess v c now s l1 w1 in
      let (p, force) = reconcile_window v w2 l2.plan in
      let l3 : Logic F = record l2 { plan = p } in
      let same : (prepare v c now l w).0.logic.filtration ≡ l1.filtration =
        decide-filtration c now (feedback_fault v c (alarms w2)) s l3
        ∙ assess-filtration c now s l1 w1 in
      let (desired, sent) = sync_devices-last c now l w in
      (ap (λ f. f.last_desired) same ∙ desired, ap (λ f. f.last_cmd_ms) same ∙ sent)

  prepare-psi_error :
      (c : Config F) (now : ℕ) (l : Logic F) (w : World)
      → (prepare v c now l w).0.logic.psi_error ≡ true
      → (prepare v c now l w).0.filtration ≡ false
  unfolding prepare
  prepare-psi_error c now l w e =
      let (l1, w1) = sync_devices v c now l w in
      let s : Sensors F = read_sensors v c now w1 in
      let (l2, w2) = assess v c now s l1 w1 in
      let (p, force) = reconcile_window v w2 l2.plan in
      let l3 : Logic F = record l2 { plan = p } in
      let fault = feedback_fault v c (alarms w2) in
      (decide-psi_error v c now fault s l3 (sym (decide-errors v c now fault s l3) ∙ e)).0

  -- A property of the world that a stop request for the pump brings about and that every request
  -- keeps, such as that such a request is in a log of them.
  pub record IsLogged (slot : ℕ) (Sent : World → Type 0) : Type 0 where
    pub stop : (w : World) → Sent (write_desired w slot false).1
    pub kept : (w : World) (k : ℕ) (on : Bool) → Sent w → Sent (write_desired w k on).1

  module _ (c : Config F) (now : ℕ) (Sent : World → Type 0)
      (g : IsLogged c.filtration_slot Sent) where
    apply_control-Sent :
        (slot : ℕ) (desired : Bool) (f : DeviceFsm) (w : World)
        → Sent w
        → Sent (apply_control v slot desired now f w).1
    unfolding apply_control
    apply_control-Sent slot desired f w s = elim (Bool-cases (must_send desired now f)) [
      | inl go ↦ rw (go) (g.kept w slot desired s)
      | inr stay ↦ rw (stay) s
    ]

    -- A stop request is sent, or nothing has to be.
    apply_control-stop :
        (f : DeviceFsm) (w : World)
        → Sent (apply_control v c.filtration_slot false now f w).1 ⊎ (must_send false now f ≡ false)
    unfolding apply_control
    apply_control-stop f w = elim (Bool-cases (must_send false now f)) [
      | inl go ↦ inl (rw (go) (g.stop w))
      | inr stay ↦ inr stay
    ]

    -- A forced request is always sent.
    forced-must_send :
        (force desired : Bool) (f : DeviceFsm)
        → must_send false now
            (if force then record f { last_desired = not desired; last_cmd_ms = 0 } else f)
          ≡ false
        → desired ≡ false
        → (force ≡ false) × (must_send false now f ≡ false)
    unfolding must_send
    forced-must_send force desired f quiet off = ground arith

    -- The first request is the pump's; the others keep that it was sent.
    act-stop :
        (force : Bool) (r : Requests v) (w : World)
        → r.filtration ≡ false
        → Sent (act v c now force r w).1
          ⊎ ((force ≡ false) × (must_send false now r.logic.filtration ≡ false))
    unfolding act
    act-stop force r w off =
        let l : Logic F = r.logic in
        let f : DeviceFsm = l.filtration in
        let f1 : DeviceFsm =
          if force then record f { last_desired = not r.filtration; last_cmd_ms = 0 } else f in
        let pump = apply_control v c.filtration_slot r.filtration now f1 w in
        let ph = apply_control v c.ph_pump_slot r.ph_pump now l.ph_pump pump.1 in
        let orp = apply_control v c.orp_pump_slot r.orp_pump now l.orp_pump ph.1 in
        let robot = apply_control v c.robot_slot r.robot now l.robot orp.1 in
        let swg = apply_control v c.swg_slot r.swg now l.swg robot.1 in
        let heater = apply_control v c.heater_slot r.heater now l.heater swg.1 in
        let asked =
          subst
            (λ b.
              Sent (apply_control v c.filtration_slot b now f1 w).1
              ⊎ (must_send false now f1 ≡ false))
            (sym off) (apply_control-stop f1 w) in
        elim asked [
          | inl sent ↦ inl (
              apply_control-Sent c.filling_slot r.filling l.filling heater.1 (
                apply_control-Sent c.heater_slot r.heater l.heater swg.1 (
                  apply_control-Sent c.swg_slot r.swg l.swg robot.1 (
                    apply_control-Sent c.robot_slot r.robot l.robot orp.1 (
                      apply_control-Sent c.orp_pump_slot r.orp_pump l.orp_pump ph.1
                        (apply_control-Sent c.ph_pump_slot r.ph_pump l.ph_pump pump.1 sent))))))
          | inr quiet ↦ inr (forced-must_send force r.filtration f quiet off)
        ]

    -- What the requests leave of the pump's state machine.
    act-pump :
        (force : Bool) (r : Requests v) (w : World)
        → ((act v c now force r w).0.filtration.last_desired ≡ r.filtration)
          × ((act v c now force r w).0.filtration.known ≡ r.logic.filtration.known)
          × ((act v c now force r w).0.filtration.on ≡ r.logic.filtration.on)
    unfolding act apply_control
    act-pump force r w = ground arith

    act-psi_error :
        (force : Bool) (r : Requests v) (w : World)
        → (act v c now force r w).0.psi_error ≡ r.logic.psi_error
    unfolding act
    act-psi_error force r w = refl

    -- When a stop need not be sent.
    stop_not_due :
        (f : DeviceFsm)
        → must_send false now f ≡ false
        → (f.last_desired ≡ false) × ((f.known && f.on ≡ false) ⊎ (sub32 now f.last_cmd_ms < 5000))
    unfolding must_send
    stop_not_due f quiet = ground arith

    -- A run of the loop that ends with a pressure error leaves the pump's request at stop, and either
    -- a stop request was sent in this run, or none was due: the request was stop before, and the pump
    -- is not known to be on or the last request was sent less than five seconds before. That a stop
    -- request was sent is any property of the world that sending one brings about and that further
    -- requests keep.
    pub run_control_loop-psi_error :
        (l : Logic F) (w : World)
        → (run_control_loop v c now l w).0.psi_error ≡ true
        → ((run_control_loop v c now l w).0.filtration.last_desired ≡ false)
          × (Sent (run_control_loop v c now l w).1
              ⊎ ((l.filtration.last_desired ≡ false)
                  × (((run_control_loop v c now l w).0.filtration.known
                          && (run_control_loop v c now l w).0.filtration.on
                        ≡ false)
                      ⊎ (sub32 now l.filtration.last_cmd_ms < 5000))))
    unfolding run_control_loop
    run_control_loop-psi_error l w e =
        let (r, force, w1) = prepare v c now l w in
        let off = prepare-psi_error c now l w (sym (act-psi_error force r w1) ∙ e) in
        let pump = act-pump force r w1 in
        (
          pump.0 ∙ off,
          elim (act-stop force r w1 off) [
            | inl sent ↦ inl sent
            | inr (plain, quiet) ↦ inr (
                let (before, idle) = stop_not_due r.logic.filtration quiet in
                let (desired, sent) = prepare-last c now l w in
                (
                  sym desired ∙ before,
                  elim idle [
                    | inl free ↦ inl (rw (pump.1, pump.2) free)
                    | inr recent ↦ inr (subst (λ (t : ℕ). sub32 now t < 5000) sent recent)
                  ],
                ))
          ],
        )
