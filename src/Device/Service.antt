-- ===== src/Device/Service.antt =====
-- The requests of the device service and their refusals.
use flowio_waveshare_qwiic.Prelude.{
  ℕ, ◌+◌, ◌≡◌, ◌≢◌, refl, ◌∙◌, Bool, true, false, Option, some, arith, get_elem?, u64, sub32, ltb,
  if◌then◌else◌, ◌==◌, ◌&&◌,
}
use flowio_waveshare_qwiic.Device.Types.{Status, ok, err_io, Slot, RuntimeData, Env}
use flowio_waveshare_qwiic.Device.Slots.{stale, account, stop_edge, stamp, persist_step, tick_slot}
use flowio_waveshare_qwiic.Device.Control.{
  Tick, open_tick, control, max_uptime_reached, dependencies_satisfied,
}
use flowio_waveshare_qwiic.Device.Module.{Module, recovery_lock_active}
use flowio_waveshare_qwiic.Device.Operations.{
  start_refusal, refuse, apply_request, write_desired, log_one,
}
use flowio_waveshare_qwiic.Device.Safety.{control-day}

module _ (e : Env) where
  open e use {F, World}

  -- A start that is answered `ok`: the slot is used, the module ready, and nothing forbids it.
  pub record Admissible (i now : ℕ) (s : Slot F) (m : Module e) : Type 0 where
    pub used : s.used ≡ true
    pub ready : m.runtime_ready ≡ true
    pub unlocked : recovery_lock_active e now m ≡ false
    pub enabled : s.def.enabled ≡ true
    pub below_limit : max_uptime_reached s ≡ false
    pub deps : dependencies_satisfied i m.slots ≡ true

  -- A start request that succeeds was admissible: no recovery lock, the device enabled, below its
  -- daily limit, and every dependency on.
  pub write_desired-Admissible :
      (i now later : ℕ) (m : Module e) (s : Slot F)
      → get_elem? m.slots i ≡ some s
      → (write_desired e i true now later m).1 ≡ ok
      → Admissible i now s m
  unfolding write_desired start_refusal refuse
  write_desired-Admissible i now later m s g h = ground arith

  -- A request that is refused for any reason but a failed write writes no output and leaves the
  -- published data as they were.
  pub write_desired-refused :
      (i now later : ℕ) (on : Bool) (m : Module e) (st : Status)
      → (write_desired e i on now later m).1 ≡ st
      → st ≢ ok
      → st ≢ err_io
      → ((write_desired e i on now later m).0.world ≡ m.world)
        × ((write_desired e i on now later m).0.store ≡ m.store)
  unfolding write_desired start_refusal refuse apply_request log_one
  write_desired-refused i now later on m st h n k = ground arith

  -- The parts after the accounting keep the running time.
  record Recorded (s t : Slot F) : Type 0 where
    day : t.running_ms_day ≡ s.running_ms_day
    actual : t.actual_on ≡ s.actual_on

  stop_edge-Recorded : (was : Bool) (t : Tick e) → Recorded t.slot (stop_edge e was t).slot
  unfolding stop_edge
  stop_edge-Recorded was t = ground arith

  stamp-Recorded : (now : ℕ) (old : Bool) (t : Tick e) → Recorded t.slot (stamp e now old t).slot
  unfolding stamp
  stamp-Recorded now old t = ground arith

  persist-Recorded :
      (i now : ℕ) (allow : Bool) (s : Slot F) → Recorded s (persist_step e i now allow s)
  unfolding persist_step
  persist-Recorded i now allow s = ground arith

  day-account :
      (now delta : ℕ) (t : Tick e)
      → ((account e now delta t).slot.running_ms_day ≡ (
          if t.slot.actual_on && ltb 0 delta
          then u64 (t.slot.running_ms_day + delta)
          else t.slot.running_ms_day))
        × ((account e now delta t).slot.actual_on ≡ t.slot.actual_on)
  unfolding account
  day-account now delta t = ground arith

  day-open_tick :
      (now : ℕ) (pending : Bool) (s : Slot F) (w : World)
      → ((open_tick e now pending s w).0.slot.running_ms_day ≡ s.running_ms_day)
        × ((open_tick e now pending s w).1
            ≡ sub32 now (if s.last_tick_ms == 0 then now else s.last_tick_ms))
  unfolding open_tick
  day-open_tick now pending s w = (refl, refl)

  -- One round adds to a device's daily running time exactly the time since its last round (none in
  -- the first) if it leaves the output on, and nothing if it leaves it off.
  pub tick_slot-running :
      (i now : ℕ) (allow pending locked deps : Bool) (store : Option (RuntimeData F)) (s : Slot F)
      (w : World)
      → let t = (tick_slot e i now allow pending locked deps store s w).slot in
        let delta = sub32 now (if s.last_tick_ms == 0 then now else s.last_tick_ms) in
        t.running_ms_day
        ≡ (if t.actual_on && ltb 0 delta then u64 (s.running_ms_day + delta) else s.running_ms_day)
  unfolding tick_slot
  tick_slot-running i now allow pending locked deps store s w =
      let t0 = open_tick e now pending s w in
      let t1 = control e locked deps t0.0 in
      let t2 = account e now t0.1 t1 in
      let t3 = stop_edge e s.actual_on t2 in
      let t4 = stamp e now (stale e i store t3.slot) t3 in
      let first = day-open_tick now pending s w in
      let r2 = day-account now t0.1 t1 in
      let r3 = stop_edge-Recorded s.actual_on t2 in
      let r4 = stamp-Recorded now (stale e i store t3.slot) t3 in
      let r5 = persist-Recorded i now allow t4.slot in
      let same : (persist_step e i now allow t4.slot).actual_on ≡ t1.slot.actual_on =
        r5.actual ∙ (r4.actual ∙ (r3.actual ∙ r2.1)) in
      let day1 : t1.slot.running_ms_day ≡ s.running_ms_day =
        control-day e locked deps t0.0 ∙ first.0 in
      rw (same, r5.day, r4.day, r3.day, r2.0, first.1, day1)
