-- ===== src/Device/Module.antt =====
-- The module: `tickDevices_`, its loop and the counters of a period.
use flowio_waveshare_qwiic.Prelude.{
  ℕ, zero, suc, ◌+◌, Bool, true, false, ◌&&◌, ◌||◌, Option, none, some, List, [], ◌∷◌, ◌++◌, map,
  ltb, ◌==◌, ◌!=◌, if◌then◌else◌, u32, sub32, get_elem?, set,
}
use flowio_waveshare_qwiic.Device.Types.{
  none_, is_disabled, PeriodKeys, Slot, RuntimeData, Activity, Env, pool_device_max,
}
use flowio_waveshare_qwiic.Device.Slots.{Round, tick_slot}
use flowio_waveshare_qwiic.Device.Control.{dependencies_satisfied}

-- `FLOW_PHYSICAL_RECOVERY_WINDOW_MS`
abbrev pub recovery_window_ms : ℕ
recovery_window_ms = 600000

module _ (e : Env) where
  open e use {F, flt, of_ℕ, World, write_digital}

  -- `PoolDeviceModule`. The three bits of `resetPendingMask_` are Booleans; `keys` is what
  -- `currentPeriodKeys_` would answer (`none` while the clock is not set).
  pub record Module : Type 0 where
    pub runtime_ready : Bool
    pub lock_requested : Bool
    pub lock_was_active : Bool
    pub lock_deadline_ms : ℕ
    pub reset_day : Bool
    pub reset_week : Bool
    pub reset_month : Bool
    pub reconcile_pending : Bool
    pub keys : Option PeriodKeys
    pub slots : List (Slot F)
    pub store : Option (RuntimeData F)
    pub has_activity_log : Bool
    pub log : List Activity
    pub world : World

  -- `setPhysicalRecoveryLock`
  unfoldable pub set_recovery_lock : Bool → ℕ → Module → Module
  set_recovery_lock on now m = record m {
    lock_requested = on;
    lock_deadline_ms = if on then u32 (now + recovery_window_ms) else 0;
  }

  -- `physicalRecoveryLockActive_`; the test is on the signed reading of the difference.
  unfoldable pub recovery_lock_active : ℕ → Module → Bool
  recovery_lock_active now m =
      m.lock_requested
      && ((m.lock_deadline_ms != 0)
          && (ltb 0 (sub32 m.lock_deadline_ms now)
              && ltb (sub32 m.lock_deadline_ms now) 2147483648))

  -- `activeCount_`
  unfoldable pub active_count : List (Slot F) → ℕ
  active_count [] = 0
  active_count (s ∷ ss) = let n = active_count ss in if s.used then suc n else n

  -- The three flags that ask for a commit and an immediate store.
  unfoldable pub mark : Slot F → Slot F
  mark s = record s { force_metrics_commit = true; persist_dirty = true; persist_immediate = true }

  -- One slot under `resetDailyCounters_`, `resetWeeklyCounters_`, `resetMonthlyCounters_`.
  unfoldable pub reset_daily : Option PeriodKeys → Slot F → Slot F
  unfolding mark
  reset_daily none s =
      if s.used then mark (record s { running_ms_day = 0; injected_ml_day = of_ℕ 0 }) else s
  reset_daily (some k) s =
      if s.used
      then mark (record s { running_ms_day = 0; injected_ml_day = of_ℕ 0; day_key = k.day })
      else s

  unfoldable pub reset_weekly : Option PeriodKeys → Slot F → Slot F
  unfolding mark
  reset_weekly none s =
      if s.used then mark (record s { running_ms_week = 0; injected_ml_week = of_ℕ 0 }) else s
  reset_weekly (some k) s =
      if s.used
      then mark (record s { running_ms_week = 0; injected_ml_week = of_ℕ 0; week_key = k.week })
      else s

  unfoldable pub reset_monthly : Option PeriodKeys → Slot F → Slot F
  unfolding mark
  reset_monthly none s =
      if s.used then mark (record s { running_ms_month = 0; injected_ml_month = of_ℕ 0 }) else s
  reset_monthly (some k) s =
      if s.used
      then mark (record s { running_ms_month = 0; injected_ml_month = of_ℕ 0; month_key = k.month })
      else s

  -- One slot of `reconcilePeriodCountersFromClock_`: a key of 0 is only set, another period's
  -- counter starts again.
  unfoldable pub reconcile_day : ℕ → Slot F → Slot F
  unfolding mark
  reconcile_day k s =
      if s.day_key == 0
      then mark (record s { day_key = k })
      else if s.day_key != k
      then mark (record s { running_ms_day = 0; injected_ml_day = of_ℕ 0; day_key = k })
      else s

  unfoldable pub reconcile_week : ℕ → Slot F → Slot F
  unfolding mark
  reconcile_week k s =
      if s.week_key == 0
      then mark (record s { week_key = k })
      else if s.week_key != k
      then mark (record s { running_ms_week = 0; injected_ml_week = of_ℕ 0; week_key = k })
      else s

  unfoldable pub reconcile_month : ℕ → Slot F → Slot F
  unfolding mark
  reconcile_month k s =
      if s.month_key == 0
      then mark (record s { month_key = k })
      else if s.month_key != k
      then mark (record s { running_ms_month = 0; injected_ml_month = of_ℕ 0; month_key = k })
      else s

  unfoldable pub reconcile : PeriodKeys → Slot F → Slot F
  unfolding reconcile_day reconcile_week reconcile_month
  reconcile k s =
      if s.used then reconcile_month k.month (reconcile_week k.week (reconcile_day k.day s)) else s

  -- The pending resets at the head of `tickDevices_`.
  unfoldable pub run_pending : Module → Module
  run_pending m =
      let s1 = if m.reset_day then map (reset_daily m.keys) m.slots else m.slots in
      let s2 = if m.reset_week then map (reset_weekly m.keys) s1 else s1 in
      let s3 = if m.reset_month then map (reset_monthly m.keys) s2 else s2 in
      record m { reset_day = false; reset_week = false; reset_month = false; slots = s3 }

  -- `reconcilePeriodCountersFromClock_`, asked for again while the clock is not set.
  unfoldable pub run_reconcile : Bool → Option PeriodKeys → Module → Module
  run_reconcile false keys m = m
  run_reconcile true none m = m
  run_reconcile true (some k) m = record m {
    reconcile_pending = false;
    slots = map (reconcile k) m.slots;
  }

  unfoldable pub run_resets : Module → Module
  unfolding run_pending run_reconcile
  run_resets m = run_reconcile m.reconcile_pending m.keys (run_pending m)

  -- A slot when the recovery lock is released.
  unfoldable pub unlock_slot : ℕ → Slot F → Slot F
  unlock_slot now s =
      if s.used && (s.def.enabled && is_disabled s.block_reason)
      then record s { block_reason = none_; state_ts_ms = now }
      else s

  unfoldable pub note_lock : ℕ → Bool → Module → Module
  note_lock now locked m =
      if locked
      then record m { lock_was_active = true }
      else if m.lock_was_active
      then record m { lock_was_active = false; slots = map (unlock_slot now) m.slots }
      else record m { lock_was_active = false }

  -- One round of the loop.
  unfoldable pub tick_at : ℕ → Bool → Bool → Bool → ℕ → Module → Module
  tick_at now allow pending locked i m = elim (get_elem? m.slots i) [
    | none ↦ m
    | some s ↦
        if s.used
        then (let r : Round e =
              tick_slot e i now allow pending locked (dependencies_satisfied i m.slots) m.store s
                m.world in
            record m {
              slots = set m.slots i r.slot;
              world = r.world;
              store = r.store;
              log = if m.has_activity_log then m.log ++ r.log else m.log;
            })
        else m
  ]

  unfoldable pub tick_from : ℕ → Bool → Bool → Bool → ℕ → ℕ → Module → Module
  tick_from now allow pending locked zero i m = m
  tick_from now allow pending locked (suc n) i m =
      tick_from now allow pending locked n (suc i) (tick_at now allow pending locked i m)

  -- `tickDevices_`
  unfoldable pub tick_devices : ℕ → Bool → Module → Module
  tick_devices now allow m =
      let pending : Bool = m.reset_day || (m.reset_week || m.reset_month) in
      let m1 : Module = run_resets m in
      let locked : Bool = recovery_lock_active now m1 in
      tick_from now allow pending locked pool_device_max 0 (note_lock now locked m1)
