-- ===== src/Alarm/Engine.antt =====
-- Evaluation: the body of the alarm task, `evaluateOnce_`.
use flowio_waveshare_qwiic.Prelude.{
  ℕ, zero, suc, Bool, true, false, Option, none, some, List, [], ◌∷◌, ◌==◌, ◌!=◌, ltb, leb, ◌&&◌,
  not, if◌then◌else◌, set, get_elem?, sub32,
}
use flowio_waveshare_qwiic.Alarm.Types.{
  CondState, healthy, faulty, unknown, same_cond, is_faulty, EventId, alarm_raised, alarm_cleared,
  alarm_condition_changed, Slot, Alarms, max_alarms,
}
use flowio_waveshare_qwiic.Alarm.Registry.{find_slot_by_id, emit_alarm_event}

-- `delayReached_`: a start time of 0 stands for a timer that does not run.
unfoldable pub delay_reached : ℕ → ℕ → ℕ → Bool
delay_reached since delay now =
    if delay == 0 then true else if since == 0 then false else leb delay (sub32 now since)

-- What one evaluation found.
pub record Outcome : Type 0 where
  pub raised : Bool
  pub cleared : Bool
  pub changed : Bool

-- The update of a slot under the lock, by the condition's new value.
unfoldable pub advance_to : CondState → ℕ → Slot → Slot × Bool × Bool
unfolding delay_reached
advance_to faulty now s =
    if s.active
    then (record s { last_cond = faulty; off_since_ms = 0; on_since_ms = 0 }, false, false)
    else (let since : ℕ = if s.on_since_ms == 0 then now else s.on_since_ms in
        if delay_reached since s.def.on_delay_ms now
        then (
          record s {
            last_cond = faulty;
            off_since_ms = 0;
            on_since_ms = 0;
            active = true;
            active_since_ms = now;
            last_change_ms = now;
          },
          true,
          false,
        )
        else (record s { last_cond = faulty; off_since_ms = 0; on_since_ms = since }, false, false))
advance_to healthy now s =
    if s.active && not s.def.latched
    then (let since : ℕ = if s.off_since_ms == 0 then now else s.off_since_ms in
        if delay_reached since s.def.off_delay_ms now
        then (
          record s {
            last_cond = healthy;
            on_since_ms = 0;
            off_since_ms = 0;
            active = false;
            last_change_ms = now;
          },
          false,
          true,
        )
        else (
          record s { last_cond = healthy; on_since_ms = 0; off_since_ms = since },
          false,
          false,
        ))
    else (record s { last_cond = healthy; on_since_ms = 0; off_since_ms = 0 }, false, false)
advance_to unknown now s =
    (record s { last_cond = unknown; on_since_ms = 0; off_since_ms = 0 }, false, false)

-- `changed` is `postCondTrue || postCondFalse`.
unfoldable pub advance : CondState → ℕ → Slot → Slot × Outcome
unfolding advance_to
advance cond now s =
    let (s', up, down) = advance_to cond now s in
    (
      s',
      record {
        raised = up;
        cleared = down;
        changed = not (same_cond s.last_cond cond) && not (same_cond cond unknown);
      },
    )

-- `noteAlarmNotified_`
unfoldable pub note_alarm_notified : ℕ → ℕ → List Slot → List Slot
note_alarm_notified id now slots = elim (find_slot_by_id id slots) [
  | none ↦ slots
  | some i ↦ elim (get_elem? slots i) [
    | none ↦ slots
    | some s ↦ set slots i (record s { last_notify_ms = now })
  ]
]

-- The test of `takeDueAlarmReminderIds_`.
unfoldable pub reminder_due : ℕ → Slot → Bool
reminder_due now s =
    s.used
    && (s.active
        && (is_faulty s.last_cond
            && (ltb 0 s.def.min_repeat_ms
                && ((s.last_notify_ms != 0)
                    && delay_reached s.last_notify_ms s.def.min_repeat_ms now))))

-- `takeDueAlarmReminderIds_`, with room for `max` ids.
unfoldable pub take_due : ℕ → ℕ → List Slot → List Slot × List ℕ
take_due now zero ss = (ss, [])
take_due now (suc max) [] = ([], [])
take_due now (suc max) (s ∷ ss) =
    if reminder_due now s
    then (let (ss', ids) = take_due now max ss in
        (record s { last_notify_ms = now } ∷ ss', s.id ∷ ids))
    else (let (ss', ids) = take_due now (suc max) ss in (s ∷ ss', ids))

unfoldable pub emit_each : EventId → List ℕ → Alarms → Alarms
emit_each e [] m = m
emit_each e (id ∷ ids) m = emit_each e ids (emit_alarm_event e id m)

-- Notification and event after the lock is released.
unfoldable pub announce : ℕ → ℕ → Outcome → Alarms → Alarms
announce id now o m =
    let noted : Alarms = record m { slots = note_alarm_notified id now m.slots } in
    if o.raised
    then emit_alarm_event alarm_raised id noted
    else if o.cleared
    then emit_alarm_event alarm_cleared id noted
    else if o.changed
    then emit_alarm_event alarm_condition_changed id noted
    else m

-- What the first critical section copies out of a slot: id, callback, context.
unfoldable pub sample : ℕ → List Slot → Option (ℕ × ℕ × ℕ)
sample i slots = elim (get_elem? slots i) [
  | none ↦ none
  | some s ↦ if s.used && (s.cond_fn != 0) then some (s.id, s.cond_fn, s.cond_ctx) else none
]

-- The second critical section: the slot is updated only if it still is the one that was sampled.
unfoldable pub commit : ℕ → ℕ × ℕ × ℕ → CondState → ℕ → List Slot → List Slot × Outcome
unfolding advance
commit i (id, fn, ctx) cond now slots =
    let unchanged : List Slot × Outcome =
      (slots, record { raised = false; cleared = false; changed = false }) in
    elim (get_elem? slots i) [
      | none ↦ unchanged
      | some s ↦
          if s.used && ((s.id == id) && ((s.cond_fn == fn) && (s.cond_ctx == ctx)))
          then (let (s', o) = advance cond now s in (set slots i s', o))
          else unchanged
    ]

-- One round of the loop. `eval fn ctx now` is the call of the condition callback.
unfoldable pub evaluate_slot : (ℕ → ℕ → ℕ → CondState) → ℕ → ℕ → Alarms → Alarms
evaluate_slot eval now i m = elim (sample i m.slots) [
  | none ↦ m
  | some (id, fn, ctx) ↦
      let (slots', o) = commit i (id, fn, ctx) (eval fn ctx now) now m.slots in
      announce id now o (record m { slots = slots' })
]

unfoldable pub evaluate_from : (ℕ → ℕ → ℕ → CondState) → ℕ → ℕ → ℕ → Alarms → Alarms
evaluate_from eval now zero i m = m
evaluate_from eval now (suc rounds) i m =
    evaluate_from eval now rounds (suc i) (evaluate_slot eval now i m)

-- `evaluateOnce_`
unfoldable pub evaluate_once : (ℕ → ℕ → ℕ → CondState) → ℕ → Alarms → Alarms
evaluate_once eval now m =
    let (slots', due) = take_due now max_alarms m.slots in
    evaluate_from eval now max_alarms 0
      (emit_each alarm_condition_changed due (record m { slots = slots' }))
