-- ===== src/Device/Operations.antt =====
-- The operations of the device service: start and stop, refill, reset of the running time.
use flowio_waveshare_qwiic.Prelude.{
  ℕ, Bool, true, false, not, ◌&&◌, ◌||◌, Option, none, some, [], ◌∷◌, ◌++◌, if◌then◌else◌,
  get_elem?, set,
}
use flowio_waveshare_qwiic.Device.Types.{
  BlockReason, none_, disabled, interlock, io_error, max_uptime, is_interlock, is_max_uptime,
  Status, ok, unknown_slot, not_ready, err_disabled, err_interlock, err_io, err_max_uptime,
  PeriodKeys, Slot, device_started, device_stopped, interlock_triggered, Activity, Env,
}
use flowio_waveshare_qwiic.Device.Control.{dependencies_satisfied, max_uptime_reached}
use flowio_waveshare_qwiic.Device.Module.{Module, recovery_lock_active, mark, tick_devices}

module _ (e : Env) where
  open e use {F, flt, of_ℕ, World, write_digital}

  -- `svcWriteDesiredImpl_`: the guards of a start, in order, with the block reason that each sets.
  unfoldable pub start_refusal : ℕ → ℕ → Slot F → Module e → Option (BlockReason × Status)
  start_refusal now i s m =
      if recovery_lock_active e now m
      then some (disabled, err_disabled)
      else if not s.def.enabled
      then some (disabled, err_disabled)
      else if max_uptime_reached s
      then some (max_uptime, err_max_uptime)
      else if not (dependencies_satisfied i m.slots)
      then some (interlock, err_interlock)
      else none

  unfoldable pub log_one : Activity → Module e → Module e
  log_one a m = if m.has_activity_log then record m { log = m.log ++ (a ∷ []) } else m

  -- What a refusal leaves: the lock also takes the request back, and a new safety block is logged.
  unfoldable pub refuse : ℕ → ℕ → Slot F → BlockReason → Status → Module e → Module e × Status
  unfolding log_one
  refuse now i s reason st m =
      let s1 : Slot F = record s {
        desired_on = if recovery_lock_active e now m then false else s.desired_on;
        block_reason = reason;
      } in
      let m1 : Module e = record m { slots = set m.slots i s1 } in
      let logged : Bool =
        (is_max_uptime reason && not (is_max_uptime s.block_reason))
        || (is_interlock reason && not (is_interlock s.block_reason)) in
      (
        if logged
            then log_one
                (record { slot = i; code = interlock_triggered; state = false; safety = true }) m1
            else m1,
        st,
      )

  -- What follows the guards: the output is written at once, and a tick without persistence ends it.
  unfoldable pub apply_request : Bool → ℕ → ℕ → Slot F → Module e → Module e × Status
  unfolding log_one
  apply_request on now i s m =
      let s1 : Slot F = record s {
        desired_on = on;
        block_reason = if not on && not (max_uptime_reached s) then none_ else s.block_reason;
      } in
      if (if on then s.actual_on else not s.actual_on)
      then (tick_devices e now false (record m { slots = set m.slots i s1 }), ok)
      else (let (done, w) = write_digital m.world s.io_id on in
          if done
          then (let m1 : Module e = record m {
            slots = set m.slots i (record s1 { actual_on = on; block_reason = none_ });
            world = w;
          } in
              (
                tick_devices e now false (
                    log_one
                      (record {
                        slot = i;
                        code = if on then device_started else device_stopped;
                        state = on;
                        safety = false;
                      })
                      m1),
                ok,
              ))
          else (
            tick_devices e now false (record m {
              slots = set m.slots i (record s1 { block_reason = io_error });
              world = w;
            }),
            err_io,
          ))

  -- `svcWriteDesiredImpl_`: `now` is its first reading of the clock, `later` that of its tick.
  unfoldable pub write_desired : ℕ → Bool → ℕ → ℕ → Module e → Module e × Status
  write_desired i on now later m = elim (get_elem? m.slots i) [
    | none ↦ (m, unknown_slot)
    | some s ↦
        if not s.used
        then (m, unknown_slot)
        else if not m.runtime_ready
        then (m, not_ready)
        else (let refusal = if on then start_refusal now i s m else none in
            elim refusal [
              | some (reason, st) ↦ refuse now i s reason st m
              | none ↦ apply_request on later i s m
            ])
  ]

  -- `svcRefillTankImpl_`
  unfoldable pub refill_tank : ℕ → F → ℕ → Module e → Module e × Status
  unfolding mark
  refill_tank i ml now m = elim (get_elem? m.slots i) [
    | none ↦ (m, unknown_slot)
    | some s ↦
        if not s.used
        then (m, unknown_slot)
        else (let low : F = if flt ml (of_ℕ 0) then of_ℕ 0 else ml in
            let held : F =
              if flt (of_ℕ 0) s.def.tank_capacity_ml && flt s.def.tank_capacity_ml low
              then s.def.tank_capacity_ml
              else low in
            let m1 : Module e = record m {
              slots = set m.slots i (mark e (record s { tank_remaining_ml = held }));
            } in
            (if m.runtime_ready then tick_devices e now false m1 else m1, ok))
  ]

  -- `resetUptimeSlot_`
  unfoldable pub reset_uptime : Option PeriodKeys → Slot F → Slot F
  unfolding mark
  reset_uptime keys s =
      let zeroed : Slot F = record s {
        running_ms_day = 0;
        running_ms_week = 0;
        running_ms_month = 0;
        injected_ml_day = of_ℕ 0;
        injected_ml_week = of_ℕ 0;
        injected_ml_month = of_ℕ 0;
        day_key = elim keys [ none ↦ s.day_key | some k ↦ k.day ];
        week_key = elim keys [ none ↦ s.week_key | some k ↦ k.week ];
        month_key = elim keys [ none ↦ s.month_key | some k ↦ k.month ];
        block_reason = if is_max_uptime s.block_reason then none_ else s.block_reason;
      } in
      mark e zeroed

  unfoldable pub reset_uptime_slot : ℕ → Module e → Module e × Bool
  reset_uptime_slot i m = elim (get_elem? m.slots i) [
    | none ↦ (m, false)
    | some s ↦
        if s.used
        then (record m { slots = set m.slots i (reset_uptime m.keys s) }, true)
        else (m, false)
  ]
