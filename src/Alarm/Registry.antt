-- ===== src/Alarm/Registry.antt =====
-- Registration, reset and the queries: every operation of the alarm service but evaluation.
use flowio_waveshare_qwiic.Prelude.{
  ℕ, zero, suc, Bool, true, false, Option, none, some, List, [], ◌∷◌, ◌++◌, ◌==◌, ltb, ◌&&◌, ◌||◌,
  if◌then◌else◌, set, get_elem?,
}
use flowio_waveshare_qwiic.Alarm.Types.{
  is_healthy, EventId, alarm_cleared, alarm_reset, Registration, Slot, blank_slot, Alarms,
}

-- `s.used` and `s.id == id`, the test of `findSlotById_`.
abbrev pub claims : ℕ → Slot → Bool
claims id s = s.used && (s.id == id)

unfoldable pub find_slot_by_id : ℕ → List Slot → Option ℕ
find_slot_by_id id [] = none
find_slot_by_id id (s ∷ ss) =
    if claims id s
    then some 0
    else (elim (find_slot_by_id id ss) [ none ↦ none | some i ↦ some (suc i) ])

unfoldable pub find_free_slot : List Slot → Option ℕ
find_free_slot [] = none
find_free_slot (s ∷ ss) =
    if s.used then (elim (find_free_slot ss) [ none ↦ none | some i ↦ some (suc i) ]) else some 0

-- `emitAlarmEvent_`
unfoldable pub emit_alarm_event : EventId → ℕ → Alarms → Alarms
emit_alarm_event e id m = if m.has_bus then record m { posted = m.posted ++ ((e, id) ∷ []) } else m

unfoldable pub is_empty : List ℕ → Bool
is_empty [] = true
is_empty (c ∷ cs) = false

unfoldable pub new_slot : Registration → ℕ → ℕ → Slot
new_slot def fn ctx = record blank_slot {
  used = true;
  id = def.id;
  def = def;
  cond_fn = fn;
  cond_ctx = ctx;
}

unfoldable pub place : Registration → ℕ → ℕ → List Slot → List Slot × Bool
unfolding new_slot
place def fn ctx slots = elim (find_slot_by_id def.id slots) [
  | some i ↦ (slots, false)
  | none ↦ elim (find_free_slot slots) [
    | none ↦ (slots, false)
    | some i ↦ (set slots i (new_slot def fn ctx), true)
  ]
]

-- `registerAlarm_`
unfoldable pub register_alarm : Registration → ℕ → ℕ → Alarms → Alarms × Bool
unfolding is_empty place
register_alarm def fn ctx m =
    if fn == 0 || (def.id == 0 || (is_empty def.code || is_empty def.title))
    then (m, false)
    else (let (slots', done) = place def fn ctx m.slots in (record m { slots = slots' }, done))

-- The test of `reset_` and `isResettable_`.
abbrev pub resettable : Slot → Bool
resettable s = s.active && (s.def.latched && is_healthy s.last_cond)

abbrev pub reset_slot : ℕ → Slot → Slot
reset_slot now s = record s {
  active = false;
  off_since_ms = 0;
  last_change_ms = now;
  last_notify_ms = now;
}

-- The critical section of `reset_`.
unfoldable pub reset_slots : ℕ → ℕ → List Slot → List Slot × Bool
unfolding find_slot_by_id
reset_slots id now slots = elim (find_slot_by_id id slots) [
  | none ↦ (slots, false)
  | some i ↦ elim (get_elem? slots i) [
    | none ↦ (slots, false)
    | some s ↦ if resettable s then (set slots i (reset_slot now s), true) else (slots, false)
  ]
]

-- `reset_`, with the reading of `millis()` as an argument.
unfoldable pub reset : ℕ → ℕ → Alarms → Alarms × Bool
reset id now m =
    let (slots', done) = reset_slots id now m.slots in
    let m' : Alarms = record m { slots = slots' } in
    (
      if done then emit_alarm_event alarm_cleared id (emit_alarm_event alarm_reset id m') else m',
      done,
    )

-- The ids that `resetAll_` collects under the lock.
unfoldable pub pending : List Slot → List ℕ
pending [] = []
pending (s ∷ ss) = if s.used && resettable s then s.id ∷ pending ss else pending ss

-- The loop of `resetAll_`; `millis k` is the reading of the k-th call.
unfoldable pub reset_each : (ℕ → ℕ) → ℕ → List ℕ → Alarms → Alarms × ℕ
reset_each millis k [] m = (m, 0)
reset_each millis k (id ∷ ids) m =
    let (m1, done) = reset id (millis k) m in
    let (m2, n) = reset_each millis (suc k) ids m1 in (m2, if done then suc n else n)

-- `resetAll_`
unfoldable pub reset_all : (ℕ → ℕ) → Alarms → Alarms × ℕ
reset_all millis m = reset_each millis 0 (pending m.slots) m

-- `isActive_`
unfoldable pub is_active : ℕ → Alarms → Bool
is_active id m = elim (find_slot_by_id id m.slots) [
  | none ↦ false
  | some i ↦ elim (get_elem? m.slots i) [ none ↦ false | some s ↦ s.active ]
]

-- `isResettable_`
unfoldable pub is_resettable : ℕ → Alarms → Bool
is_resettable id m = elim (find_slot_by_id id m.slots) [
  | none ↦ false
  | some i ↦ elim (get_elem? m.slots i) [ none ↦ false | some s ↦ resettable s ]
]

-- `activeCount_`
unfoldable pub active_count : List Slot → ℕ
active_count [] = 0
active_count (s ∷ ss) = let n = active_count ss in if s.used && s.active then suc n else n

-- `highestSeverity_`, its loop with the highest so far.
unfoldable pub highest_from : ℕ → List Slot → ℕ
highest_from highest [] = highest
highest_from highest (s ∷ ss) =
    highest_from
      (if s.used && (s.active && ltb highest s.def.severity) then s.def.severity else highest) ss

unfoldable pub highest_severity : List Slot → ℕ
unfolding highest_from
highest_severity slots = highest_from 0 slots

-- `listIds_`: the ids of the used slots, at most `max` of them.
unfoldable pub list_ids : ℕ → List Slot → List ℕ
list_ids zero ss = []
list_ids (suc max) [] = []
list_ids (suc max) (s ∷ ss) = if s.used then s.id ∷ list_ids max ss else list_ids (suc max) ss
