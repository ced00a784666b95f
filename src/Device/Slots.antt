-- ===== src/Device/Slots.antt =====
-- The rest of the body of the loop of `tickDevices_`: accounting, publishing, storing, and the whole.
use flowio_waveshare_qwiic.Prelude.{
  ℕ, ◌+◌, ◌/◌, Bool, true, false, not, ◌&&◌, ◌||◌, Option, none, some, List, [], ◌∷◌, ◌++◌, ltb,
  leb, ◌!=◌, differ, if◌then◌else◌, u64, sub32, get_elem?, set,
}
use flowio_waveshare_qwiic.Device.Types.{
  BlockReason, is_interlock, reason_code, Slot, StateEntry, MetricsEntry, RuntimeData,
  device_started, device_stopped, interlock_triggered, Activity, Env,
}
use flowio_waveshare_qwiic.Device.Control.{Tick, open_tick, control}

-- `toSeconds_`
unfoldable pub to_seconds : ℕ → ℕ
to_seconds ms = if ltb 4294967295 (ms / 1000) then 4294967295 else ms / 1000

-- `RUNTIME_PERSIST_INTERVAL_MS`
abbrev pub runtime_persist_interval_ms : ℕ
runtime_persist_interval_ms = 60000

module _ (e : Env) where
  open e use {
    F, flt, fle, feq, fadd, fsub, fmul, fdiv, of_ℕ, World, read_digital, write_digital,
    save_metrics,
  }

  -- The tank after an injection of `v`.
  unfoldable pub draw : F → Slot F → F
  draw v s =
      if flt (of_ℕ 0) s.def.tank_capacity_ml
      then (let left = fsub s.tank_remaining_ml v in if flt left (of_ℕ 0) then of_ℕ 0 else left)
      else s.tank_remaining_ml

  -- Running time and injected volume of an output that is on.
  unfoldable pub account : ℕ → ℕ → Tick e → Tick e
  unfolding draw
  account now delta t =
      let s : Slot F = t.slot in
      if s.actual_on && ltb 0 delta
      then (let ran : Slot F = record s {
        running_ms_day = u64 (s.running_ms_day + delta);
        running_ms_week = u64 (s.running_ms_week + delta);
        running_ms_month = u64 (s.running_ms_month + delta);
        running_ms_total = u64 (s.running_ms_total + delta);
      } in
          let v : F = fmul (fdiv s.def.flow_l_per_hour (of_ℕ 3600)) (of_ℕ delta) in
          let dosed : Slot F =
            if flt (of_ℕ 0) v
            then record ran {
              injected_ml_day = fadd s.injected_ml_day v;
              injected_ml_week = fadd s.injected_ml_week v;
              injected_ml_month = fadd s.injected_ml_month v;
              injected_ml_total = fadd s.injected_ml_total v;
              tank_remaining_ml = draw v s;
            }
            else ran in
          record t {
            slot = dosed;
            metrics_changed = t.metrics_changed || leb 1000 (sub32 now s.last_runtime_commit_ms);
          })
      else t

  -- The stop of an output asks for its metrics to be stored.
  unfoldable pub stop_edge : Bool → Tick e → Tick e
  stop_edge was_on t =
      let s : Slot F = t.slot in
      if was_on && not s.actual_on
      then record t { slot = record s { persist_dirty = true; persist_immediate = true } }
      else t

  -- `emitDeviceActivity_`, twice at the end of the body.
  unfoldable pub activities : ℕ → Bool → BlockReason → Slot F → List Activity
  activities i was_on before s =
      (if differ was_on s.actual_on
        then (record {
          slot = i;
          code = if s.actual_on then device_started else device_stopped;
          state = s.actual_on;
          safety = is_interlock s.block_reason;
        }
            ∷ [])
        else [])
      ++ (if not (is_interlock before) && is_interlock s.block_reason
          then (record { slot = i; code = interlock_triggered; state = false; safety = true } ∷ [])
          else [])

  -- Whether the published entry of the slot differs from its state.
  unfoldable pub differs_from : StateEntry → Slot F → Bool
  differs_from p s =
      not p.valid
      || (differ p.enabled s.def.enabled
          || (differ p.desired_on s.desired_on
              || (differ p.actual_on s.actual_on
                  || ((p.kind != s.def.kind) || (p.block_reason != reason_code s.block_reason)))))

  unfoldable pub stale : ℕ → Option (RuntimeData F) → Slot F → Bool
  unfolding differs_from
  stale i none s = false
  stale i (some d) s = elim (get_elem? d.state i) [ none ↦ true | some p ↦ differs_from p s ]

  -- The time stamps.
  unfoldable pub stamp : ℕ → Bool → Tick e → Tick e
  stamp now stale t =
      let s : Slot F = t.slot in
      let changed : Bool = t.state_changed || stale in
      let s1 : Slot F = if changed then record s { state_ts_ms = now } else s in
      record t {
        slot =
            if t.metrics_changed
            then record s1 {
              metrics_ts_ms = now;
              last_runtime_commit_ms = now;
              persist_dirty = true;
            }
            else s1;
        state_changed = changed;
      }

  unfoldable pub state_entry : Slot F → StateEntry
  state_entry s = record {
    valid = true;
    enabled = s.def.enabled;
    desired_on = s.desired_on;
    actual_on = s.actual_on;
    kind = s.def.kind;
    block_reason = reason_code s.block_reason;
    ts_ms = s.state_ts_ms;
  }

  unfoldable pub metrics_entry : Slot F → MetricsEntry F
  unfolding to_seconds
  metrics_entry s = record {
    valid = true;
    running_sec_day = to_seconds s.running_ms_day;
    running_sec_week = to_seconds s.running_ms_week;
    running_sec_month = to_seconds s.running_ms_month;
    running_sec_total = to_seconds s.running_ms_total;
    injected_ml_day = s.injected_ml_day;
    injected_ml_week = s.injected_ml_week;
    injected_ml_month = s.injected_ml_month;
    injected_ml_total = s.injected_ml_total;
    tank_remaining_ml = s.tank_remaining_ml;
    ts_ms = s.metrics_ts_ms;
  }

  -- The entries written to the data store.
  unfoldable pub publish : ℕ → Tick e → Option (RuntimeData F) → Option (RuntimeData F)
  unfolding state_entry metrics_entry
  publish i t none = none
  publish i t (some d) = some (record {
    state = set d.state i (state_entry t.slot);
    metrics = if t.metrics_changed then set d.metrics i (metrics_entry t.slot) else d.metrics;
  })

  -- The metrics are stored at once, with the output off, or once a minute; then `persistMetrics_`.
  unfoldable pub persist_step : ℕ → ℕ → Bool → Slot F → Slot F
  persist_step i now allow s =
      let due : Bool =
        s.persist_dirty
        && (s.persist_immediate
            || (not s.actual_on
                || leb runtime_persist_interval_ms (sub32 now s.last_persist_ms))) in
      if allow && (due && save_metrics i s)
      then record s {
        last_persist_ms = now;
        persist_dirty = false;
        persist_immediate = false;
        has_persisted_metrics = true;
      }
      else s

  -- What one round of the loop hands on.
  pub record Round : Type 0 where
    pub slot : Slot F
    pub world : World
    pub store : Option (RuntimeData F)
    pub log : List Activity

  -- The whole body for slot `i`.
  unfoldable pub tick_slot :
      ℕ → ℕ → Bool → Bool → Bool → Bool → Option (RuntimeData F) → Slot F → World → Round
  tick_slot i now allow pending locked deps store s w =
      let (t0, delta) = open_tick e now pending s w in
      let t1 : Tick e = stop_edge s.actual_on (account now delta (control e locked deps t0)) in
      let t2 : Tick e = stamp now (stale i store t1.slot) t1 in
      record {
        slot = persist_step i now allow t2.slot;
        world = t2.world;
        store = publish i t2 store;
        log = activities i s.actual_on s.block_reason t1.slot;
      }
