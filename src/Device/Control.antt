-- ===== src/Device/Control.antt =====
-- The body of the loop of `tickDevices_` up to the last switch of the output, in the order of the
-- source: one function for each part, over a slot, the outputs and the flags that the body keeps.
use flowio_waveshare_qwiic.Prelude.{
  ℕ, suc, ◌*◌, Bool, true, false, not, ◌&&◌, ◌||◌, none, some, List, [], ◌∷◌, leb, ◌==◌, differ,
  if◌then◌else◌, sub32, bit, get_elem?,
}
use flowio_waveshare_qwiic.Device.Types.{
  BlockReason, none_, disabled, interlock, io_error, max_uptime, is_disabled, is_io_error,
  is_max_uptime, Slot, Env,
}

module _ {F : Type 0} where
  -- `maxUptimeReached_`
  unfoldable pub max_uptime_reached : Slot F → Bool
  max_uptime_reached s =
      not (s.def.max_uptime_day_sec == 0) && leb (s.def.max_uptime_day_sec * 1000) s.running_ms_day

  -- The loop of `dependenciesSatisfied_` from slot `i` on, for the slot `self` with mask `mask`.
  unfoldable pub all_on : ℕ → ℕ → ℕ → List (Slot F) → Bool
  all_on mask self i [] = true
  all_on mask self i (d ∷ ds) =
      (not (bit mask i) || ((i == self) || (d.used && d.actual_on))) && all_on mask self (suc i) ds

  -- `dependenciesSatisfied_`
  unfoldable pub dependencies_satisfied : ℕ → List (Slot F) → Bool
  unfolding all_on
  dependencies_satisfied i slots = elim (get_elem? slots i) [
    | none ↦ false
    | some s ↦ s.used && ((s.def.depends_on_mask == 0) || all_on s.def.depends_on_mask i 0 slots)
  ]

module _ (e : Env) where
  open e use {
    F, flt, fle, feq, fadd, fsub, fmul, fdiv, of_ℕ, World, read_digital, write_digital,
    save_metrics,
  }

  -- What the loop body holds: the slot, the outputs, `stateChanged` and `metricsChanged`.
  pub record Tick : Type 0 where
    pub slot : Slot F
    pub world : World
    pub state_changed : Bool
    pub metrics_changed : Bool

  -- A write of the slot's output, with what success and failure leave in the slot.
  unfoldable pub drive : Bool → BlockReason → Tick → Tick
  drive on reason t =
      let (done, w) = write_digital t.world t.slot.io_id on in
      let s : Slot F = t.slot in
      if done
      then record t {
        slot = record s { actual_on = on; block_reason = reason };
        world = w;
        state_changed = true;
      }
      else record t { slot = record s { block_reason = io_error }; world = w; state_changed = true }

  -- Lines up to the read of the output; the second part is `deltaMs`.
  unfoldable pub open_tick : ℕ → Bool → Slot F → World → Tick × ℕ
  open_tick now pending s w =
      let last : ℕ = if s.last_tick_ms == 0 then now else s.last_tick_ms in
      (
        record {
          slot = record s { force_metrics_commit = false; last_tick_ms = now };
          world = w;
          state_changed = false;
          metrics_changed = pending || s.force_metrics_commit;
        },
        sub32 now last,
      )

  -- `readIoState_` and its use.
  unfoldable pub read_state : Tick → Tick
  read_state t = elim (read_digital t.world t.slot.io_id) [
    | none ↦ t
    | some on ↦
        let s : Slot F = t.slot in
        record t {
          slot = record s { actual_on = on };
          state_changed = t.state_changed || differ s.actual_on on;
        }
  ]

  -- `if (recoveryLocked) …`
  unfoldable pub recovery_step : Bool → Tick → Tick
  unfolding drive
  recovery_step false t = t
  recovery_step true t =
      let s : Slot F = t.slot in
      let t1 : Tick =
        if s.desired_on
        then record t { slot = record s { desired_on = false }; state_changed = true }
        else t in
      let s1 : Slot F = t1.slot in
      if s1.actual_on
      then drive false disabled t1
      else if is_io_error s1.block_reason || is_disabled s1.block_reason
      then t1
      else record t1 { slot = record s1 { block_reason = disabled }; state_changed = true }

  -- The tank's remaining volume, held within its capacity.
  unfoldable pub tank_step : Tick → Tick
  tank_step t =
      let s : Slot F = t.slot in
      if fle s.def.tank_capacity_ml (of_ℕ 0)
      then (if feq s.tank_remaining_ml (of_ℕ 0)
          then t
          else record t { slot = record s { tank_remaining_ml = of_ℕ 0 }; metrics_changed = true })
      else if flt s.def.tank_capacity_ml s.tank_remaining_ml
      then record t {
        slot = record s { tank_remaining_ml = s.def.tank_capacity_ml };
        metrics_changed = true;
      }
      else t

  -- `if (!s.def.enabled && s.desiredOn) …`
  unfoldable pub enabled_step : Tick → Tick
  enabled_step t =
      let s : Slot F = t.slot in
      if not s.def.enabled && s.desired_on
      then record t {
        slot = record s { desired_on = false; block_reason = disabled };
        state_changed = true;
      }
      else t

  -- The daily limit.
  unfoldable pub uptime_step : Tick → Tick
  unfolding drive
  uptime_step t =
      let s : Slot F = t.slot in
      if s.def.enabled && max_uptime_reached s
      then (let t1 : Tick =
            if s.desired_on
            then record t { slot = record s { desired_on = false }; state_changed = true }
            else t in
          let s1 : Slot F = t1.slot in
          if s1.actual_on
          then drive false max_uptime t1
          else if is_io_error s1.block_reason || is_max_uptime s1.block_reason
          then t1
          else record t1 { slot = record s1 { block_reason = max_uptime }; state_changed = true })
      else if is_max_uptime s.block_reason
      then record t { slot = record s { block_reason = none_ }; state_changed = true }
      else t

  -- The interlock; `deps` is `dependenciesSatisfied_`, which does not read the slot's own state.
  unfoldable pub interlock_step : Bool → Tick → Tick
  unfolding drive
  interlock_step deps t =
      let s : Slot F = t.slot in
      if s.actual_on && not deps
      then drive false interlock (record t { slot = record s { desired_on = false } })
      else t

  -- The output follows the request.
  unfoldable pub follow_step : Bool → Tick → Tick
  unfolding drive
  follow_step deps t =
      let s : Slot F = t.slot in
      if s.desired_on && not s.actual_on
      then (if deps then drive true none_ t else record t {
        slot = record s { desired_on = false; block_reason = interlock };
        state_changed = true;
      })
      else if not s.desired_on && s.actual_on
      then drive false (if max_uptime_reached s then max_uptime else none_) t
      else t

  -- All of the body that may switch the output.
  unfoldable pub control : Bool → Bool → Tick → Tick
  control locked deps t = follow_step deps (
      interlock_step deps
        (uptime_step (enabled_step (tank_step (recovery_step locked (read_state t))))))
