-- ===== src/Time/Tick.antt =====
-- One round of the scheduler: `tickScheduler_`, without the accelerated test clock.
use flowio_waveshare_qwiic.Prelude.{
  ℕ, Bool, true, false, Option, none, some, List, [], ◌∷◌, ◌++◌, map, ◌&&◌, not, ◌==◌, ◌!=◌, ltb,
  leb, ◌/◌, suc, if◌then◌else◌, length, u32,
}
use flowio_waveshare_qwiic.Time.Types.{
  Mode, recurring_clock, one_shot_epoch, Runtime, Scheduler, LocalTime, Edge, trigger, start, stop,
  Pending, Payload,
}
use flowio_waveshare_qwiic.Time.Clock.{
  week_bit_from_tm, prev_week_bit, minute_of_day, is_recurring_trigger_now, is_recurring_active_now,
  is_month_start_event,
}
use flowio_waveshare_qwiic.Time.Table.{set_bit}

-- What a tick reads of the clock, and whether the table has been evaluated before.
pub record Now : Type 0 where
  pub epoch : ℕ
  pub local : LocalTime
  pub initialized : Bool

abbrev pub minute_key : Now → ℕ
minute_key c = u32 (c.epoch / 60)

-- The edge that a slot posts, with its replay flag.
abbrev pub Post : Type 0
Post = Option (Edge × ℕ)

-- The part of the loop's body that windows of both modes share.
unfoldable pub follow_window : Bool → Bool → Runtime → Runtime × Post
follow_window initialized active_now s = (
  record s { active = active_now },
  if not initialized
      then (if active_now && s.def.replay_start_on_boot then some (start, 1) else none)
      else if not s.active && active_now
      then some (start, 0)
      else if s.active && not active_now
      then some (stop, 0)
      else none,
)

-- A trigger, unless the slot has fired in this minute.
unfoldable pub fire_once : Now → Runtime → Runtime × Post
fire_once c s =
    if s.last_trigger_minute_key != minute_key c
    then (
      record s { last_trigger_minute_key = minute_key c },
      some (trigger, if c.initialized then 0 else 1),
    )
    else (s, none)

-- An enabled slot of mode OneShotEpoch.
unfoldable pub visit_one_shot : Now → Runtime → Runtime × Post × Bool
unfolding follow_window fire_once
visit_one_shot c s =
    if not s.def.has_end
    then (if leb s.def.start_epoch_sec c.epoch
        then (let (t, p) = fire_once c s in (record t { used = false; active = false }, p, false))
        else (s, none, false))
    else (let active_now = leb s.def.start_epoch_sec c.epoch && ltb c.epoch s.def.end_epoch_sec in
        let (t, p) = follow_window c.initialized active_now s in
        (
          if not t.active && leb s.def.end_epoch_sec c.epoch then record t { used = false } else t,
          p,
          t.active,
        ))

-- An enabled slot of mode RecurringClock.
unfoldable pub visit_recurring : Now → Runtime → Runtime × Post × Bool
unfolding follow_window fire_once
visit_recurring c s =
    let week_bit = week_bit_from_tm c.local in
    let minute = minute_of_day c.local in
    if not s.def.has_end
    then (if is_recurring_trigger_now s.def week_bit minute
        then (if s.def.slot == 2 && not (is_month_start_event s c.local)
            then (s, none, false)
            else (let (t, p) = fire_once c s in (record t { active = false }, p, false)))
        else (record s { active = false }, none, false))
    else (let active_now = is_recurring_active_now s.def week_bit (prev_week_bit week_bit) minute in
        let (t, p) = follow_window c.initialized active_now s in (t, p, t.active))

abbrev visit_mode : Mode → Now → Runtime → Runtime × Post × Bool
visit_mode one_shot_epoch c s = visit_one_shot c s
visit_mode recurring_clock c s = visit_recurring c s

-- The loop's body: the slot afterwards, what it posts, and its bit of the new mask.
unfoldable pub visit : Now → Runtime → Runtime × Post × Bool
visit c s =
    if not s.used
    then (s, none, false)
    else if not s.def.enabled
    then (if s.active
        then (record s { active = false }, some (stop, 0), false)
        else (s, none, false))
    else visit_mode s.def.mode c s

-- `pushPending`, with room for two events a slot.
unfoldable pub push_pending : ℕ → ℕ → ℕ → Post → List Pending → List Pending
push_pending epoch i event_id none ps = ps
push_pending epoch i event_id (some (e, r)) ps =
    if leb 32 (length ps)
    then ps
    else ps
      ++ (record { slot = i; edge = e; replayed = r; event_id = event_id; epoch_sec = epoch } ∷ [])

-- The loop, with the events pending and the new mask so far.
unfoldable pub tick_from :
    Now → ℕ → List Runtime → List Pending → ℕ → List Runtime × List Pending × ℕ
unfolding push_pending
tick_from c i [] ps mask = ([], ps, mask)
tick_from c i (s ∷ ss) ps mask =
    let (s', p, on) = visit c s in
    let (ss', ps', mask') =
      tick_from c (suc i) ss (push_pending c.epoch i s.def.event_id p ps)
        (if on then set_bit mask i else mask) in
    (s' ∷ ss', ps', mask')

unfoldable pub payload : ℕ → Pending → Payload
payload mask p = record {
  slot = p.slot;
  edge = p.edge;
  replayed = p.replayed;
  event_id = p.event_id;
  epoch_sec = p.epoch_sec;
  active_mask = mask;
}

-- The table evaluated and the events that are posted.
unfoldable pub evaluate : Now → Scheduler → Scheduler × List Payload
evaluate c m =
    let (slots', ps, mask) = tick_from c 0 m.sched [] 0 in
    (
      record m { sched = slots'; active_mask_value = mask; sched_initialized = true },
      map (payload mask) ps,
    )

-- `tickScheduler_`: `now` is `nowEpoch_()`, `local` is what `localtime_r` makes of it.
unfoldable pub tick_scheduler :
    Bool → Bool → ℕ → Option LocalTime → Scheduler → Scheduler × List Payload
tick_scheduler has_bus synced now local m =
    if not has_bus
    then (m, [])
    else if not synced
    then (m, [])
    else if ltb now 1609459200
    then (m, [])
    else elim local [
      | none ↦ (m, [])
      | some t ↦ evaluate (record { epoch = now; local = t; initialized = m.sched_initialized }) m
    ]
