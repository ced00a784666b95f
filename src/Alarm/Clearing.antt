-- ===== src/Alarm/Clearing.antt =====
-- `resetAll_` and `reset_`: what is active after them.
use flowio_waveshare_qwiic.Prelude.{
  ℕ, suc, ◌≡◌, refl, ap, sym, subst, ◌∙◌, inl, inr, Bool, true, false, not, ◌&&◌, ◌||◌, ◌==◌, List,
  [], ◌∷◌, map, arith, ◌++◌, All, All2, Bool-cases, if◌then◌else◌,
}
use flowio_waveshare_qwiic.Alarm.Types.{alarm_cleared, alarm_reset, Slot, Alarms}
use flowio_waveshare_qwiic.Alarm.Registry.{
  claims, find_slot_by_id, resettable, reset_slot, reset_slots, reset, pending, reset_each,
  reset_all, emit_alarm_event, is_resettable,
}
use flowio_waveshare_qwiic.Alarm.Keys.{
  Unclaimed, Distinct, Distinct-keep, SameKey, IsTable, find-cases,
}

-- What a reset of `id` makes of each slot.
abbrev pub clear_claimed : ℕ → ℕ → Slot → Slot
clear_claimed id now s = if claims id s && resettable s then reset_slot now s else s

map-Unclaimed : (id now : ℕ) (ss : List Slot) → Unclaimed id ss → map (clear_claimed id now) ss ≡ ss
map-Unclaimed id now [] u = refl
map-Unclaimed id now (s ∷ ss) u = ground (arith, map-Unclaimed id now ss u.1)

claimed_once :
    (id : ℕ) (s : Slot) (ss : List Slot) → claims id s ≡ true → Distinct (s ∷ ss) → Unclaimed id ss
claimed_once id s ss h d = let same : s.id ≡ id = ground arith in rw same at (d.0 (ground arith))

-- On distinct ids `reset_` clears exactly the slots that it claims.
reset_slots-map :
    (id now : ℕ) (ss : List Slot)
    → Distinct ss
    → (reset_slots id now ss).0 ≡ map (clear_claimed id now) ss
unfolding reset_slots find_slot_by_id
reset_slots-map id now [] d = refl
reset_slots-map id now (s ∷ ss) d = elim (Bool-cases (claims id s)) [
  | inl h ↦
      let others : map (clear_claimed id now) ss ≡ ss =
        map-Unclaimed id now ss (claimed_once id s ss h d) in
      ground (arith, others)
  | inr h ↦ ground (arith, reset_slots-map id now ss d.1)
]

-- The alarm stays on through resets of the ids in `ids`.
survives : List ℕ → Slot → Bool
survives [] s = s.active
survives (id ∷ ids) s = survives ids s && not (claims id s && resettable s)

slots-reset : (id now : ℕ) (m : Alarms) → (reset id now m).0.slots ≡ (reset_slots id now m.slots).0
unfolding reset emit_alarm_event
slots-reset id now m = ground arith

SameKey-clear : (id now : ℕ) (ss : List Slot) → All2 SameKey ss (map (clear_claimed id now) ss)
SameKey-clear id now [] = tt
SameKey-clear id now (s ∷ ss) = (ground arith, SameKey-clear id now ss)

-- A reset keeps the ids distinct.
reset-Distinct : (id now : ℕ) (m : Alarms) → Distinct m.slots → Distinct (reset id now m).0.slots
reset-Distinct id now m d =
    rw (slots-reset id now m, reset_slots-map id now m.slots d)
      (Distinct-keep m.slots _ (SameKey-clear id now m.slots) d)

survives-clear :
    (id now : ℕ) (ids : List ℕ) (s : Slot)
    → survives ids (clear_claimed id now s) ≡ survives (id ∷ ids) s
unfolding survives
survives-clear id now [] s = ground arith
survives-clear id now (j ∷ ids) s = ground (arith, survives-clear id now ids s)

map-survives :
    (id now : ℕ) (ids : List ℕ) (ss : List Slot)
    → map (survives ids) (map (clear_claimed id now) ss) ≡ map (survives (id ∷ ids)) ss
map-survives id now ids [] = refl
map-survives id now ids (s ∷ ss) = rw (survives-clear id now ids s, map-survives id now ids ss)

abbrev pub actives : List Slot → List Bool
actives = map (λ s. s.active)

actives-reset_each :
    (millis : ℕ → ℕ) (k : ℕ) (ids : List ℕ) (m : Alarms)
    → Distinct m.slots
    → actives (reset_each millis k ids m).0.slots ≡ map (survives ids) m.slots
unfolding reset_each survives
actives-reset_each millis k [] m d = refl
actives-reset_each millis k (id ∷ ids) m d =
    let now : ℕ = millis k in
    let first = reset id now m in
    actives-reset_each millis (suc k) ids first.0 (reset-Distinct id now m d)
    ∙ (ap (map (survives ids)) (slots-reset id now m ∙ reset_slots-map id now m.slots d)
        ∙ map-survives id now ids m.slots)

elem : ℕ → List ℕ → Bool
elem a [] = false
elem a (b ∷ bs) = a == b || elem a bs

survives-elem :
    (ids : List ℕ) (s : Slot)
    → survives ids s ≡ (s.active && not (s.used && (resettable s && elem s.id ids)))
unfolding survives elem
survives-elem [] s = ground arith
survives-elem (j ∷ ids) s = ground (arith, survives-elem ids s)

-- What `resetAll_` is to leave on.
abbrev pub stays_on : Slot → Bool
stays_on s = s.active && not (s.used && resettable s)

abbrev Covers : List ℕ → List Slot → Type 0
Covers ids = All (λ s. (s.used && resettable s) ≡ true → elem s.id ids ≡ true)

Covers-more : (id : ℕ) (ids : List ℕ) (ss : List Slot) → Covers ids ss → Covers (id ∷ ids) ss
unfolding elem
Covers-more id ids [] c = tt
Covers-more id ids (s ∷ ss) c = (λ h. ground (arith, c.0 h), Covers-more id ids ss c.1)

pending-cons :
    (s : Slot) (ss : List Slot)
    → pending (s ∷ ss) ≡ (if s.used && resettable s then s.id ∷ pending ss else pending ss)
unfolding pending
pending-cons s ss = refl

pending-Covers : (ss : List Slot) → Covers (pending ss) ss
unfolding elem
pending-Covers [] = tt
pending-Covers (s ∷ ss) = elim (Bool-cases (s.used && resettable s)) [
  | inl h ↦
      let e : pending (s ∷ ss) ≡ s.id ∷ pending ss = rw (pending-cons s ss, h) in
      subst (λ ids. Covers ids (s ∷ ss)) (sym e)
        (λ _. ground arith, Covers-more s.id (pending ss) ss (pending-Covers ss))
  | inr h ↦
      let e : pending (s ∷ ss) ≡ pending ss = rw (pending-cons s ss, h) in
      subst (λ ids. Covers ids (s ∷ ss)) (sym e) (λ e. cc, pending-Covers ss)
]

map-stays_on :
    (ids : List ℕ) (ss : List Slot) → Covers ids ss → map (survives ids) ss ≡ map stays_on ss
map-stays_on ids [] c = refl
map-stays_on ids (s ∷ ss) c =
    let here : survives ids s ≡ stays_on s = ground (arith, survives-elem ids s, c.0) in
    rw (here, map-stays_on ids ss c.1)

-- `resetAll_` turns off each alarm that is latched and whose condition is false, and leaves every
-- other one as it is, on a table with distinct ids.
actives-reset_all :
    (millis : ℕ → ℕ) (m : Alarms)
    → IsTable m.slots
    → actives (reset_all millis m).0.slots ≡ map stays_on m.slots
unfolding reset_all
actives-reset_all millis m v =
    actives-reset_each millis 0 (pending m.slots) m v.distinct
    ∙ map-stays_on (pending m.slots) m.slots (pending-Covers m.slots)

reset_answer :
    (id now : ℕ) (m : Alarms)
    → ((reset id now m).1 ≡ is_resettable id m)
      × ((reset id now m).0.posted ≡ (
          if is_resettable id m && m.has_bus
          then (m.posted ++ ((alarm_reset, id) ∷ [])) ++ ((alarm_cleared, id) ∷ [])
          else m.posted))
unfolding reset reset_slots emit_alarm_event is_resettable
reset_answer id now m = elim (find-cases id m.slots) [
  | inl (e, u) ↦ ground (arith, e)
  | inr (i, s, e, g, c) ↦ ground (arith, e, g)
]

-- `reset_` on a table with distinct ids: it succeeds exactly when `isResettable_` says so, it
-- clears the slot of the id if that is resettable and no other slot, and it posts AlarmReset and
-- then AlarmCleared exactly when it succeeds and there is a bus.
pub reset_exact :
    (id now : ℕ) (m : Alarms)
    → IsTable m.slots
    → ((reset id now m).1 ≡ is_resettable id m)
      × ((reset id now m).0.slots ≡ map (clear_claimed id now) m.slots)
      × ((reset id now m).0.posted ≡ (
          if is_resettable id m && m.has_bus
          then (m.posted ++ ((alarm_reset, id) ∷ [])) ++ ((alarm_cleared, id) ∷ [])
          else m.posted))
reset_exact id now m v =
    let answer = reset_answer id now m in
    (answer.0, slots-reset id now m ∙ reset_slots-map id now m.slots v.distinct, answer.1)
