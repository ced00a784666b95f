-- ===== src/Alarm/Keys.antt =====
-- The table of alarms and its keys, under registration and evaluation.
use flowio_waveshare_qwiic.Prelude.{
  ℕ, zero, suc, ◌≡◌, refl, ◌≢◌, ◌⊎◌, inl, inr, true, false, none, some, List, [], ◌∷◌, set,
  get_elem?, length, length-set, arith, All, All2, All2-length, Bool-cases, Option-cases,
}
use flowio_waveshare_qwiic.Alarm.Types.{Registration, Slot, Alarms, max_alarms}
use flowio_waveshare_qwiic.Alarm.Registry.{
  claims, find_slot_by_id, find_free_slot, place, new_slot, register_alarm,
}

-- No slot of the list is used for `id`.
abbrev pub Unclaimed : ℕ → List Slot → Type 0
Unclaimed id = All (λ s. claims id s ≡ false)

-- Used slots have distinct ids.
abbrev pub Distinct : List Slot → Type 0
Distinct [] = Unit {0}
Distinct (s ∷ ss) = (s.used ≡ true → Unclaimed s.id ss) × Distinct ss

abbrev pub Named : List Slot → Type 0
Named = All (λ s. s.used ≡ true → s.id ≢ 0)

-- The table is well formed: its size is fixed, its ids are distinct and not `None`.
pub record IsTable (ss : List Slot) : Type 0 where
  pub size : length ss ≡ max_alarms
  pub distinct : Distinct ss
  pub named : Named ss

-- Where the search for an id ends.
pub find-cases :
    (id : ℕ) (ss : List Slot)
    → ((find_slot_by_id id ss ≡ none) × Unclaimed id ss)
      ⊎ ((i : ℕ) × (s : Slot) × (find_slot_by_id id ss ≡ some i)
          × (get_elem? ss i ≡ some s)
          × (claims id s ≡ true))
unfolding find_slot_by_id
find-cases id [] = inl (refl, tt)
find-cases id (s ∷ ss) = elim (Bool-cases (claims id s)) [
  | inl h ↦ inr (0, s, rw h, refl, h)
  | inr h ↦ elim (find-cases id ss) [
    | inl (e, u) ↦ inl (rw (h, e), (h, u))
    | inr (i, t, e, g, c) ↦ inr (suc i, t, rw (h, e), g, c)
  ]
]

-- The fields of a slot by which the table is searched.
pub record SameKey (s t : Slot) : Type 0 where
  pub used : t.used ≡ s.used
  pub id : t.id ≡ s.id

Unclaimed-keep :
    (id : ℕ) (ss ts : List Slot) → All2 SameKey ss ts → Unclaimed id ss → Unclaimed id ts
Unclaimed-keep id [] [] h u = tt
Unclaimed-keep id [] (t ∷ ts) h u = absurd h
Unclaimed-keep id (s ∷ ss) [] h u = absurd h
Unclaimed-keep id (s ∷ ss) (t ∷ ts) h u = (ground arith, Unclaimed-keep id ss ts h.1 u.1)

pub Distinct-keep : (ss ts : List Slot) → All2 SameKey ss ts → Distinct ss → Distinct ts
Distinct-keep [] [] h d = tt
Distinct-keep [] (t ∷ ts) h d = absurd h
Distinct-keep (s ∷ ss) [] h d = absurd h
Distinct-keep (s ∷ ss) (t ∷ ts) h d = (
  λ u. rw h.0.id (Unclaimed-keep s.id ss ts h.1 (d.0 (rw (← h.0.used) u))),
  Distinct-keep ss ts h.1 d.1,
)

Named-keep : (ss ts : List Slot) → All2 SameKey ss ts → Named ss → Named ts
Named-keep [] [] h d = tt
Named-keep [] (t ∷ ts) h d = absurd h
Named-keep (s ∷ ss) [] h d = absurd h
Named-keep (s ∷ ss) (t ∷ ts) h d =
    (λ u. rw h.0.id (d.0 (rw (← h.0.used) u)), Named-keep ss ts h.1 d.1)

-- A change that keeps the keys keeps the table well formed.
pub IsTable-keep : {ss ts : List Slot} → All2 SameKey ss ts → IsTable ss → IsTable ts
IsTable-keep {ss} {ts} h v = record {
  size = omega (arith, All2-length SameKey ss ts h, v.size);
  distinct = Distinct-keep ss ts h v.distinct;
  named = Named-keep ss ts h v.named;
}

-- A new key in a free slot.
module _ (t : Slot) where
  Unclaimed-set :
      (id i : ℕ) (ss : List Slot)
      → Unclaimed id ss
      → claims id t ≡ false
      → Unclaimed id (set ss i t)
  Unclaimed-set id i [] u h = tt
  Unclaimed-set id zero (s ∷ ss) u h = (h, u.1)
  Unclaimed-set id (suc i) (s ∷ ss) u h = (u.0, Unclaimed-set id i ss u.1 h)

  Distinct-set : (i : ℕ) (ss : List Slot) → Distinct ss → Unclaimed t.id ss → Distinct (set ss i t)
  Distinct-set i [] d u = tt
  Distinct-set zero (s ∷ ss) d u = (λ _. u.1, d.1)
  Distinct-set (suc i) (s ∷ ss) d u =
      (λ h. Unclaimed-set s.id i ss (d.0 h) (ground (arith, h, u.0)), Distinct-set i ss d.1 u.1)

  Named-set : (i : ℕ) (ss : List Slot) → Named ss → t.id ≢ 0 → Named (set ss i t)
  Named-set i [] d h = tt
  Named-set zero (s ∷ ss) d h = (λ _. h, d.1)
  Named-set (suc i) (s ∷ ss) d h = (d.0, Named-set i ss d.1 h)

place-IsTable :
    (def : Registration) (fn ctx : ℕ) (ss : List Slot)
    → def.id ≢ 0
    → IsTable ss
    → IsTable (place def fn ctx ss).0
unfolding place
place-IsTable def fn ctx ss h v = elim (find-cases def.id ss) [
  | inr (i, s, e, g, c) ↦ rw (e, place) v
  | inl (e, u) ↦ elim (Option-cases (find_free_slot ss)) [
    | inl f ↦ rw (e, f, place) v
    | inr (i, f) ↦
        rw (e, f, place)
          (record {
            size = omega (arith, length-set ss i (new_slot def fn ctx), v.size);
            distinct = Distinct-set (new_slot def fn ctx) i ss v.distinct u;
            named = Named-set (new_slot def fn ctx) i ss v.named h;
          })
  ]
]

-- Registration keeps the table well formed, whatever the definition.
pub register_alarm-IsTable :
    (def : Registration) (fn ctx : ℕ) (m : Alarms)
    → IsTable m.slots
    → IsTable (register_alarm def fn ctx m).0.slots
unfolding register_alarm
register_alarm-IsTable def fn ctx m v = ground (arith, place-IsTable def fn ctx m.slots)
