-- ===== src/Device/Safety.antt =====
-- What one round of the loop of `tickDevices_` may leave of a slot.
use flowio_waveshare_qwiic.Prelude.{
  ℕ, ◌≡◌, ◌⊎◌, inl, inr, refl, Bool, true, false, ◌&&◌, Option, arith, Bool-cases, ◌∙◌,
}
use flowio_waveshare_qwiic.Device.Types.{io_error, Slot, RuntimeData, Env}
use flowio_waveshare_qwiic.Device.Slots.{account, stop_edge, stamp, stale, persist_step, tick_slot}
use flowio_waveshare_qwiic.Device.Control.{
  Tick, open_tick, read_state, recovery_step, tank_step, enabled_step, uptime_step, interlock_step,
  follow_step, control, max_uptime_reached,
}

module _ (e : Env) where
  open e use {F, World}

  -- A part of the body keeps the definition and the running time, and makes no request.
  record Quiet (t u : Tick e) : Type 0 where
    def : u.slot.def ≡ t.slot.def
    day : u.slot.running_ms_day ≡ t.slot.running_ms_day
    asked : u.slot.desired_on ≡ true → t.slot.desired_on ≡ true

  Quiet-trans : (t u v : Tick e) → Quiet t u → Quiet u v → Quiet t v
  Quiet-trans t u v h k = record {
    def = ground arith;
    day = ground arith;
    asked = λ d. h.asked (k.asked d);
  }

  read_state-Quiet : (t : Tick e) → Quiet t (read_state e t)
  unfolding read_state
  read_state-Quiet t = ground arith

  recovery-Quiet : (locked : Bool) (t : Tick e) → Quiet t (recovery_step e locked t)
  unfolding recovery_step
  recovery-Quiet true t = ground arith
  recovery-Quiet false t = ground arith

  tank-Quiet : (t : Tick e) → Quiet t (tank_step e t)
  unfolding tank_step
  tank-Quiet t = ground arith

  enabled-Quiet : (t : Tick e) → Quiet t (enabled_step e t)
  unfolding enabled_step
  enabled-Quiet t = ground arith

  uptime-Quiet : (t : Tick e) → Quiet t (uptime_step e t)
  unfolding uptime_step
  uptime-Quiet t = ground arith

  interlock-Quiet : (deps : Bool) (t : Tick e) → Quiet t (interlock_step e deps t)
  unfolding interlock_step
  interlock-Quiet deps t = ground arith

  follow-Quiet : (deps : Bool) (t : Tick e) → Quiet t (follow_step e deps t)
  unfolding follow_step
  follow-Quiet deps t = ground arith

  -- What each part rules out of a request that is left.
  recovery_rules :
      (locked : Bool) (t : Tick e)
      → (recovery_step e locked t).slot.desired_on ≡ true
      → locked ≡ false
  unfolding recovery_step
  recovery_rules true t h = ground arith
  recovery_rules false t h = refl

  enabled_rules :
      (t : Tick e)
      → (enabled_step e t).slot.desired_on ≡ true
      → (enabled_step e t).slot.def.enabled ≡ true
  unfolding enabled_step
  enabled_rules t h = ground arith

  uptime_rules :
      (t : Tick e)
      → (uptime_step e t).slot.desired_on ≡ true
      → (t.slot.def.enabled && max_uptime_reached t.slot) ≡ false
  unfolding uptime_step
  uptime_rules t h = ground arith

  interlock_rules :
      (deps : Bool) (t : Tick e)
      → (interlock_step e deps t).slot.desired_on ≡ true
      → (interlock_step e deps t).slot.actual_on ≡ true
      → deps ≡ true
  unfolding interlock_step
  interlock_rules deps t h k = ground arith

  follow_rules :
      (deps : Bool) (t : Tick e)
      → (follow_step e deps t).slot.actual_on ≡ true
      → ((follow_step e deps t).slot.block_reason ≡ io_error)
        ⊎ (((follow_step e deps t).slot.desired_on ≡ true)
            × (t.slot.desired_on ≡ true)
            × ((deps ≡ true) ⊎ (t.slot.actual_on ≡ true)))
  unfolding follow_step
  follow_rules deps t h = ground arith

  -- Nothing but a failed write leaves the output on, unless it may be on.
  abbrev pub MayRun : Bool → Bool → Slot F → Slot F → Type 0
  MayRun locked deps before s =
      (s.block_reason ≡ io_error)
      ⊎ ((s.desired_on ≡ true)
          × (before.def.enabled ≡ true)
          × (max_uptime_reached before ≡ false)
          × (deps ≡ true)
          × (locked ≡ false))

  -- A request that the control leaves was made before it, and not under the recovery lock.
  control_asked :
      (locked deps : Bool) (t : Tick e)
      → (control e locked deps t).slot.desired_on ≡ true
      → locked ≡ false
  unfolding control
  control_asked locked deps t h =
      let t1 = recovery_step e locked (read_state e t) in
      let t2 = tank_step e t1 in
      let t3 = enabled_step e t2 in
      let t4 = uptime_step e t3 in
      let t5 = interlock_step e deps t4 in
      let asked4 = (interlock-Quiet deps t4).asked ((follow-Quiet deps t5).asked h) in
      recovery_rules locked (read_state e t)
        ((tank-Quiet t1).asked ((enabled-Quiet t2).asked ((uptime-Quiet t3).asked asked4)))

  pub control-day :
      (locked deps : Bool) (t : Tick e)
      → (control e locked deps t).slot.running_ms_day ≡ t.slot.running_ms_day
  unfolding control
  control-day locked deps t =
      let t1 = recovery_step e locked (read_state e t) in
      let t2 = tank_step e t1 in
      let t3 = enabled_step e t2 in
      let t4 = uptime_step e t3 in
      let t5 = interlock_step e deps t4 in
      (follow-Quiet deps t5).day
      ∙ ((interlock-Quiet deps t4).day
          ∙ ((uptime-Quiet t3).day
              ∙ ((enabled-Quiet t2).day
                  ∙ ((tank-Quiet t1).day
                      ∙ ((recovery-Quiet locked (read_state e t)).day
                          ∙ (read_state-Quiet t).day)))))

  reached_of_Quiet :
      (t u : Tick e) → Quiet t u → max_uptime_reached u.slot ≡ max_uptime_reached t.slot
  unfolding max_uptime_reached
  reached_of_Quiet t u h = rw (h.def, h.day)

  control-MayRun :
      (locked deps : Bool) (t : Tick e)
      → (control e locked deps t).slot.actual_on ≡ true
      → MayRun locked deps t.slot (control e locked deps t).slot
  unfolding control
  control-MayRun locked deps t on = elim (follow_rules deps t5 on) [
    | inl bad ↦ inl bad
    | inr (asked, asked5, why) ↦
        let asked4 : t4.slot.desired_on ≡ true = q5.asked asked5 in
        let asked3 : t3.slot.desired_on ≡ true = (uptime-Quiet t3).asked asked4 in
        let asked1 : t1.slot.desired_on ≡ true =
          (tank-Quiet t1).asked ((enabled-Quiet t2).asked asked3) in
        let to3 =
          Quiet-trans t t1 t3
            (Quiet-trans t (read_state e t) t1 (read_state-Quiet t)
              (recovery-Quiet locked (read_state e t)))
            (Quiet-trans t1 t2 t3 (tank-Quiet t1) (enabled-Quiet t2)) in
        let allowed : t3.slot.def.enabled ≡ true = enabled_rules t2 asked3 in
        let fresh : (t3.slot.def.enabled && max_uptime_reached t3.slot) ≡ false =
          uptime_rules t3 asked4 in
        let same : max_uptime_reached t3.slot ≡ max_uptime_reached t.slot =
          reached_of_Quiet t t3 to3 in
        inr (
          asked,
          ground (arith, allowed, to3.def),
          ground (arith, allowed, fresh, same),
          elim why [ inl d ↦ d | inr on5 ↦ interlock_rules deps t4 asked5 on5 ],
          recovery_rules locked (read_state e t) asked1,
        )
  ]
    where
      t1 : Tick e
      t1 = recovery_step e locked (read_state e t)

      t2 : Tick e
      t2 = tank_step e t1

      t3 : Tick e
      t3 = enabled_step e t2

      t4 : Tick e
      t4 = uptime_step e t3

      t5 : Tick e
      t5 = interlock_step e deps t4

      q5 : Quiet t4 t5
      q5 = interlock-Quiet deps t4

  -- The parts after the control keep what it decided.
  record Settled (s t : Slot F) : Type 0 where
    pub def : t.def ≡ s.def
    pub desired : t.desired_on ≡ s.desired_on
    pub actual : t.actual_on ≡ s.actual_on
    pub reason : t.block_reason ≡ s.block_reason

  account-Settled : (now delta : ℕ) (t : Tick e) → Settled t.slot (account e now delta t).slot
  unfolding account
  account-Settled now delta t = ground arith

  stop_edge-Settled : (was : Bool) (t : Tick e) → Settled t.slot (stop_edge e was t).slot
  unfolding stop_edge
  stop_edge-Settled was t = ground arith

  stamp-Settled : (now : ℕ) (old : Bool) (t : Tick e) → Settled t.slot (stamp e now old t).slot
  unfolding stamp
  stamp-Settled now old t = ground arith

  persist-Settled :
      (i now : ℕ) (allow : Bool) (s : Slot F) → Settled s (persist_step e i now allow s)
  unfolding persist_step
  persist-Settled i now allow s = ground arith

  module _ (i now : ℕ) (allow pending locked deps : Bool) (store : Option (RuntimeData F))
      (s : Slot F) (w : World) where
    tick_slot-Settled :
        Settled
          (control e locked deps (open_tick e now pending s w).0).slot
          (tick_slot e i now allow pending locked deps store s w).slot
    unfolding tick_slot
    tick_slot-Settled =
        let t0 = open_tick e now pending s w in
        let t1 = control e locked deps t0.0 in
        let t2 = account e now t0.1 t1 in
        let t3 = stop_edge e s.actual_on t2 in
        let t4 = stamp e now (stale e i store t3.slot) t3 in
        ground (
          arith,
          account-Settled now t0.1 t1,
          stop_edge-Settled s.actual_on t2,
          stamp-Settled now (stale e i store t3.slot) t3,
          persist-Settled i now allow t4.slot,
        )

    -- After one round of `tickDevices_` the output of a slot is off, or its last write failed (the
    -- block reason says so), or the device is asked for, is enabled, was below its daily limit before
    -- the round, `deps` is true, and no physical recovery is in progress.
    pub tick_slot-MayRun :
        (tick_slot e i now allow pending locked deps store s w).slot.actual_on ≡ true
        → MayRun locked deps s (tick_slot e i now allow pending locked deps store s w).slot
    unfolding open_tick max_uptime_reached
    tick_slot-MayRun on =
        let kept = tick_slot-Settled in
        ground (
          arith,
          kept,
          control-MayRun locked deps (open_tick e now pending s w).0 (ground (arith, kept)),
        )

    -- Under the lock no request is left.
    pub tick_slot_locked :
        locked ≡ true
        → (tick_slot e i now allow pending locked deps store s w).slot.desired_on ≡ false
    tick_slot_locked l =
        let kept = tick_slot-Settled in
        let t0 = (open_tick e now pending s w).0 in
        elim (Bool-cases (control e locked deps t0).slot.desired_on) [
          | inl d ↦
              let off : locked ≡ false = control_asked locked deps t0 d in
              absurd (ground (arith, l, off))
          | inr d ↦ kept.desired ∙ d
        ]

    pub tick_slot_stopped :
        locked ≡ true
        → ((tick_slot e i now allow pending locked deps store s w).slot.actual_on ≡ false)
          ⊎ ((tick_slot e i now allow pending locked deps store s w).slot.block_reason ≡ io_error)
    tick_slot_stopped l =
        elim (Bool-cases (tick_slot e i now allow pending locked deps store s w).slot.actual_on) [
          | inr off ↦ inl off
          | inl on ↦ elim (tick_slot-MayRun on) [
            | inl bad ↦ inr bad
            | inr (_, _, _, _, free) ↦ absurd (ground (arith, l, free))
          ]
        ]
