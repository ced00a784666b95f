-- ===== src/Mqtt/Producers.antt =====
-- The table of producers: `registerProducer` and `findProducer_`.
use flowio_waveshare_qwiic.Prelude.{
  ℕ, Bool, true, false, Option, none, some, List, [], ◌∷◌, ◌++◌, ◌||◌, ◌==◌, ltb, not,
  if◌then◌else◌, length,
}

-- A producer by its id; `can_build` says that it has a `buildMessage`, and `owner` tells it apart.
pub record Producer : Type 0 where
  pub id : ℕ
  pub owner : ℕ
  pub can_build : Bool

-- The producer in the place of the one with its id; `none` where there is none.
unfoldable pub replace_producer : Producer → List Producer → Option (List Producer)
replace_producer p [] = none
replace_producer p (x ∷ xs) =
    let rest = replace_producer p xs in
    if x.id == p.id then some (p ∷ xs) else elim rest [ none ↦ none | some ys ↦ some (x ∷ ys) ]

-- `registerProducer`, with room for `max` producers; `none` is the null pointer.
unfoldable pub register_producer : ℕ → Option Producer → List Producer → List Producer × Bool
register_producer max none xs = (xs, false)
register_producer max (some p) xs =
    if p.id == 0 || not p.can_build then (xs, false) else elim (replace_producer p xs) [
      | some ys ↦ (ys, true)
      | none ↦ if ltb (length xs) max then (xs ++ (p ∷ []), true) else (xs, false)
    ]

-- `findProducer_`
unfoldable pub find_producer : ℕ → List Producer → Option Producer
find_producer id [] = none
find_producer id (x ∷ xs) = let rest = find_producer id xs in if x.id == id then some x else rest
