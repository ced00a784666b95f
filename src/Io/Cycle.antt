-- ===== src/Io/Cycle.antt =====
-- The summary of a cycle: `ensureLastCycleState_`, `beginIoCycle_` and `markIoCycleChanged_`.
use flowio_waveshare_qwiic.Prelude.{
  ℕ, Bool, true, false, none, some, List, [], ◌∷◌, ◌++◌, ◌==◌, ◌+◌, leb, length, if◌then◌else◌, u32,
}
use flowio_waveshare_qwiic.Io.Types.{Io, io_id_invalid, io_max_changed_ids}

unfoldable pub ensure_last_cycle_state : {F : Type 0} → Io F → Io F
ensure_last_cycle_state io = elim io.cycle [
  | none ↦
      if io.cycle_memory
      then record io { cycle = some (record { seq = 0; ts_ms = 0; changed = [] }) }
      else io
  | some c ↦ io
]

unfoldable pub begin_io_cycle : {F : Type 0} → ℕ → Io F → Io F
begin_io_cycle {F} now io =
    let ready : Io F = ensure_last_cycle_state io in
    elim ready.cycle [
      | none ↦ ready
      | some c ↦ record ready {
        cycle = some (record { seq = u32 (c.seq + 1); ts_ms = now; changed = [] });
      }
    ]

-- The loop over the ids that are marked already.
unfoldable pub is_marked : ℕ → List ℕ → Bool
is_marked id [] = false
is_marked id (x ∷ xs) = if x == id then true else is_marked id xs

unfoldable pub add_changed : ℕ → List ℕ → List ℕ
add_changed id ids =
    if is_marked id ids
    then ids
    else if leb io_max_changed_ids (length ids)
    then ids
    else ids ++ (id ∷ [])

unfoldable pub mark_io_cycle_changed : {F : Type 0} → ℕ → Io F → Io F
mark_io_cycle_changed {F} id io =
    if id == io_id_invalid
    then io
    else (let ready : Io F = ensure_last_cycle_state io in
        elim ready.cycle [
          | none ↦ ready
          | some c ↦ record ready { cycle = some (record c { changed = add_changed id c.changed }) }
        ])
