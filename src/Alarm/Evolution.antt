-- ===== src/Alarm/Evolution.antt =====
-- What an evaluation may do to a slot: the fields that it may change.
use flowio_waveshare_qwiic.Prelude.{
  ℕ, zero, suc, ◌≡◌, refl, subst, inl, inr, true, List, [], ◌∷◌, get_elem?, arith, All2, All2-refl,
  All2-set, All2-trans, Bool-cases, Option-cases, ◌==◌, ◌&&◌,
}
use flowio_waveshare_qwiic.Alarm.Types.{
  CondState, healthy, faulty, unknown, EventId, alarm_condition_changed, Slot, Alarms, max_alarms,
}
use flowio_waveshare_qwiic.Alarm.Registry.{emit_alarm_event}
use flowio_waveshare_qwiic.Alarm.Keys.{IsTable, IsTable-keep, SameKey, find-cases}
use flowio_waveshare_qwiic.Alarm.Engine.{
  Outcome, advance, note_alarm_notified, reminder_due, take_due, emit_each, announce, sample,
  commit, evaluate_slot, evaluate_from, evaluate_once,
}

-- The registration of a slot is kept, and an alarm that is latched and active stays active.
pub record Evolves (s t : Slot) : Type 0 where
  pub used : t.used ≡ s.used
  pub id : t.id ≡ s.id
  pub def : t.def ≡ s.def
  pub cond_fn : t.cond_fn ≡ s.cond_fn
  pub cond_ctx : t.cond_ctx ≡ s.cond_ctx
  pub held : s.def.latched ≡ true → s.active ≡ true → t.active ≡ true

Evolves-refl : (s : Slot) → Evolves s s
Evolves-refl s = ground arith

Evolves-trans : (s t u : Slot) → Evolves s t → Evolves t u → Evolves s u
Evolves-trans s t u h k = record {
  used = ground arith;
  id = ground arith;
  def = ground arith;
  cond_fn = ground arith;
  cond_ctx = ground arith;
  held = λ l a. k.held (rw h.def l) (h.held l a);
}

abbrev Evolve : List Slot → List Slot → Type 0
Evolve = All2 Evolves

Evolve-refl : (ss : List Slot) → Evolve ss ss
Evolve-refl ss = All2-refl Evolves Evolves-refl ss

Evolve-trans : (ss ts us : List Slot) → Evolve ss ts → Evolve ts us → Evolve ss us
Evolve-trans ss ts us = All2-trans Evolves Evolves-trans ss ts us

advance-Evolves : (cond : CondState) (now : ℕ) (s : Slot) → Evolves s (advance cond now s).0
unfolding advance
advance-Evolves healthy now s = ground arith
advance-Evolves faulty now s = ground arith
advance-Evolves unknown now s = ground arith

commit-Evolve :
    (i id fn ctx now : ℕ) (cond : CondState) (ss : List Slot)
    → Evolve ss (commit i (id, fn, ctx) cond now ss).0
unfolding commit
commit-Evolve i id fn ctx now cond ss = elim (Option-cases (get_elem? ss i)) [
  | inl e ↦ rw (e, commit) (Evolve-refl ss)
  | inr (s, e) ↦
      elim (Bool-cases (s.used && ((s.id == id) && ((s.cond_fn == fn) && (s.cond_ctx == ctx))))) [
        | inl h ↦
            rw (e, h, commit)
              (All2-set Evolves Evolves-refl ss i s (advance cond now s).0 e
                (advance-Evolves cond now s))
        | inr h ↦ rw (e, h, commit) (Evolve-refl ss)
      ]
]

note-Evolve : (id now : ℕ) (ss : List Slot) → Evolve ss (note_alarm_notified id now ss)
unfolding note_alarm_notified
note-Evolve id now ss = elim (find-cases id ss) [
  | inl (e, _) ↦ rw (e, note_alarm_notified) (Evolve-refl ss)
  | inr (i, s, e, g, _) ↦
      rw (e, g, note_alarm_notified)
        (All2-set Evolves Evolves-refl ss i s (record s { last_notify_ms = now }) g (ground arith))
]

take_due-Evolve : (now max : ℕ) (ss : List Slot) → Evolve ss (take_due now max ss).0
unfolding take_due
take_due-Evolve now zero ss = Evolve-refl ss
take_due-Evolve now (suc max) [] = tt
take_due-Evolve now (suc max) (s ∷ ss) = elim (Bool-cases (reminder_due now s)) [
  | inl h ↦ rw h (ground arith, take_due-Evolve now max ss)
  | inr h ↦ rw h (Evolves-refl s, take_due-Evolve now (suc max) ss)
]

slots-emit : (e : EventId) (id : ℕ) (m : Alarms) → (emit_alarm_event e id m).slots ≡ m.slots
unfolding emit_alarm_event
slots-emit e id m = ground arith

slots-emit_each : (e : EventId) (ids : List ℕ) (m : Alarms) → (emit_each e ids m).slots ≡ m.slots
unfolding emit_each
slots-emit_each e [] m = refl
slots-emit_each e (id ∷ ids) m =
    rw (slots-emit_each e ids (emit_alarm_event e id m)) (slots-emit e id m)

announce-Evolve :
    (id now : ℕ) (o : Outcome) (m : Alarms) → Evolve m.slots (announce id now o m).slots
unfolding announce emit_alarm_event
announce-Evolve id now o m = ground (arith, note-Evolve id now m.slots, Evolve-refl m.slots)

evaluate_slot-Evolve :
    (eval : ℕ → ℕ → ℕ → CondState) (now i : ℕ) (m : Alarms)
    → Evolve m.slots (evaluate_slot eval now i m).slots
unfolding evaluate_slot
evaluate_slot-Evolve eval now i m = elim (Option-cases (sample i m.slots)) [
  | inl e ↦ rw (e, evaluate_slot) (Evolve-refl m.slots)
  | inr ((id, fn, ctx), e) ↦
      let r = commit i (id, fn, ctx) (eval fn ctx now) now m.slots in
      rw (e, evaluate_slot)
        (Evolve-trans m.slots r.0 _ (commit-Evolve i id fn ctx now (eval fn ctx now) m.slots)
          (announce-Evolve id now r.1 (record m { slots = r.0 })))
]

evaluate_from-Evolve :
    (eval : ℕ → ℕ → ℕ → CondState) (now n i : ℕ) (m : Alarms)
    → Evolve m.slots (evaluate_from eval now n i m).slots
unfolding evaluate_from
evaluate_from-Evolve eval now zero i m = Evolve-refl m.slots
evaluate_from-Evolve eval now (suc n) i m =
    Evolve-trans m.slots (evaluate_slot eval now i m).slots _ (evaluate_slot-Evolve eval now i m)
      (evaluate_from-Evolve eval now n (suc i) (evaluate_slot eval now i m))

pub evaluate_once-Evolve :
    (eval : ℕ → ℕ → ℕ → CondState) (now : ℕ) (m : Alarms)
    → All2 Evolves m.slots (evaluate_once eval now m).slots
unfolding evaluate_once
evaluate_once-Evolve eval now m =
    let r = take_due now max_alarms m.slots in
    let start : Alarms = record m { slots = r.0 } in
    let emitted : Alarms = emit_each alarm_condition_changed r.1 start in
    Evolve-trans m.slots r.0 _ (take_due-Evolve now max_alarms m.slots) (
      subst (λ ss. Evolve ss (evaluate_from eval now max_alarms 0 emitted).slots)
        (slots-emit_each alarm_condition_changed r.1 start)
        (evaluate_from-Evolve eval now max_alarms 0 emitted))

Evolves-SameKey : (ss ts : List Slot) → Evolve ss ts → All2 SameKey ss ts
Evolves-SameKey [] [] h = tt
Evolves-SameKey [] (t ∷ ts) h = absurd h
Evolves-SameKey (s ∷ ss) [] h = absurd h
Evolves-SameKey (s ∷ ss) (t ∷ ts) h =
    (record { used = h.0.used; id = h.0.id }, Evolves-SameKey ss ts h.1)

-- An evaluation keeps the table well formed.
pub evaluate_once-IsTable :
    (eval : ℕ → ℕ → ℕ → CondState) (now : ℕ) (m : Alarms)
    → IsTable m.slots
    → IsTable (evaluate_once eval now m).slots
evaluate_once-IsTable eval now m v =
    IsTable-keep (Evolves-SameKey m.slots _ (evaluate_once-Evolve eval now m)) v
