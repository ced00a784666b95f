-- ===== src/Io/Edges.antt =====
-- What a callback hears of an input that is a state.
use mathlib.Core.List.{append_assoc, append-nil}
use flowio_waveshare_qwiic.Prelude.{
  ℕ, Bool, true, false, not, differ, Option, none, some, List, [], ◌∷◌, ◌++◌, ◌≡◌, ◌==◌, ◌||◌,
  if◌then◌else◌, get_elem?, refl, sym, ap, subst, ◌∙◌, ◌⊎◌, inl, inr, arith, Bool-cases,
  get_elem?-lt, get_elem?-set_self,
}
use flowio_waveshare_qwiic.Io.Types.{
  Value, boolean, number, int32, Endpoint, no_endpoint, sensor, actuator, Slot, Effect, stored,
  called, Env, Io,
}
use flowio_waveshare_qwiic.Io.Cycle.{ensure_last_cycle_state, mark_io_cycle_changed}
use flowio_waveshare_qwiic.Io.Inputs.{put_slot, store_value, call_back, process_state}
use flowio_waveshare_qwiic.Io.Pulses.{mark-slots}

-- The value that a reader of the endpoint gets.
abbrev pub shown : {F : Type 0} → Endpoint F → Option Bool
shown (sensor r) = elim r.value [
  | boolean b ↦ if r.valid then some b else none
  | int32 z ↦ none
  | number x ↦ none
]
shown (actuator r) = none
shown no_endpoint = none

abbrev pub known : Bool → Bool → Option Bool
known valid on = if valid then some on else none

-- The values that differ from the reading before them; an input that cannot be read has none.
unfoldable pub edges : Option Bool → List (ℕ × Option Bool) → List Bool
edges before [] = []
edges before ((t, none) ∷ rs) = edges none rs
edges none ((t, some on) ∷ rs) = on ∷ edges (some on) rs
edges (some b) ((t, some on) ∷ rs) =
    let rest = edges (some on) rs in if differ b on then on ∷ rest else rest

-- The last reading.
unfoldable pub latest : Option Bool → List (ℕ × Option Bool) → Option Bool
latest before [] = before
latest before ((t, r) ∷ rs) = latest r rs

-- The calls for the input `id`.
unfoldable pub calls_of : {F : Type 0} → ℕ → List (Effect F) → List Bool
calls_of id [] = []
calls_of id (stored i v t ∷ es) = calls_of id es
calls_of id (called i on ∷ es) = let rest = calls_of id es in if i == id then on ∷ rest else rest

calls_of-append :
    {F : Type 0} (id : ℕ) (es fs : List (Effect F))
    → calls_of id (es ++ fs) ≡ calls_of id es ++ calls_of id fs
unfolding calls_of
calls_of-append id [] fs = refl
calls_of-append id (stored i v t ∷ es) fs = calls_of-append id es fs
calls_of-append id (called i on ∷ es) fs = elim (Bool-cases (i == id)) [
  | inl mine ↦ ground (arith, mine, calls_of-append id es fs)
  | inr other ↦ ground (arith, other, calls_of-append id es fs)
]

mark-effects :
    {F : Type 0} (id : ℕ) (io : Io F) → (mark_io_cycle_changed id io).effects ≡ io.effects
unfolding mark_io_cycle_changed ensure_last_cycle_state
mark-effects id io = ground arith

-- The slot and its endpoint agree with the last reading.
pub record Tracks {F : Type 0} (reading : Option Bool) (s : Slot F) : Type 0 where
  pub known_value : known s.last_valid s.last_value ≡ reading
  pub shown_value : shown s.endpoint ≡ reading

module _ (E : Env) where
  open E use {F}

  -- The readings of an input, each with its time, one after the other.
  unfoldable pub sample : ℕ → List (ℕ × Option Bool) → Io F → Io F
  sample i [] io = io
  sample i ((t, r) ∷ rs) io = elim (get_elem? io.slots i) [
    | none ↦ io
    | some s ↦ sample i rs (process_state E i t s r io).0
  ]

  -- One reading: the slot after it, and the call if there is an edge.
  record Sampled (i : ℕ) (id : ℕ) (r : Option Bool) (new : List Bool) (a b : Io F) : Type 0 where
    slot : Slot F
    there : get_elem? b.slots i ≡ some slot
    tracks : Tracks r slot
    same_id : slot.io_id ≡ id
    listens : slot.has_callback ≡ true
    calls : calls_of id b.effects ≡ calls_of id a.effects ++ new

  same-Sampled :
      (i : ℕ) (r : Option Bool) (s : Slot F) (io : Io F)
      → get_elem? io.slots i ≡ some s
      → s.has_callback ≡ true
      → Tracks r s
      → Sampled i s.io_id r [] io io
  same-Sampled i r s io e h k = record {
    slot = s;
    there = e;
    tracks = k;
    same_id = refl;
    listens = h;
    calls = sym (append-nil (calls_of s.io_id io.effects));
  }

  put-Sampled :
      (i t : ℕ) (s : Slot F) (io : Io F)
      → get_elem? io.slots i ≡ some s
      → s.has_callback ≡ true
      → (process_state E i t s none io).1 ≡ false
      → Tracks none s ⊎ (s.last_valid ≡ true)
      → Sampled i s.io_id none [] io (process_state E i t s none io).0
  unfolding process_state put_slot
  put-Sampled i t s io e h _ (inl k) =
      let same : (process_state E i t s none io).0 ≡ io = ground (arith, k.known_value) in
      subst (Sampled i s.io_id none [] io) (sym same) (same-Sampled i none s io e h k)
  put-Sampled i t s io e h _ (inr valid) =
      let s1 : Slot F = record s {
        endpoint = sensor (record { value = boolean false; valid = false; timestamp_ms = t });
        last_valid = false;
      } in
      let b : Io F = put_slot E i s1 io in
      let changed : (process_state E i t s none io).0 ≡ b = ground (arith, valid) in
      subst (Sampled i s.io_id none [] io) (sym changed) (record {
        slot = s1;
        there = get_elem?-set_self io.slots i s1 (get_elem?-lt io.slots i s e);
        tracks = record { known_value = refl; shown_value = refl };
        same_id = refl;
        listens = h;
        calls = sym (append-nil (calls_of s.io_id io.effects));
      })

  unreadable-Sampled :
      (i t : ℕ) (before : Option Bool) (s : Slot F) (io : Io F)
      → get_elem? io.slots i ≡ some s
      → s.has_callback ≡ true
      → Tracks before s
      → Sampled i s.io_id none [] io (process_state E i t s none io).0
  unfolding process_state
  unreadable-Sampled i t none s io e h k = put-Sampled i t s io e h (ground arith) (inl k)
  unreadable-Sampled i t (some b) s io e h k =
      put-Sampled i t s io e h (ground arith) (inr (ground (arith, k.known_value)))

  store-effects :
      (id : ℕ) (rt : Option ℕ) (v : Value F) (now : ℕ) (io : Io F)
      → calls_of id (store_value E rt v now io).effects ≡ calls_of id io.effects
  unfolding store_value calls_of
  store-effects id none v now io = ground arith
  store-effects id (some r) v now io = ground (
    arith,
    calls_of-append id io.effects (stored r v now ∷ []),
    append-nil (calls_of id io.effects),
  )

  store-slots :
      (rt : Option ℕ) (v : Value F) (now : ℕ) (io : Io F)
      → (store_value E rt v now io).slots ≡ io.slots
  unfolding store_value
  store-slots rt v now io = ground arith

  edge-Sampled :
      (i t : ℕ) (on : Bool) (s : Slot F) (io : Io F)
      → get_elem? io.slots i ≡ some s
      → s.has_callback ≡ true
      → (not s.last_valid || differ s.last_value on) ≡ true
      → Sampled i s.io_id (some on) (on ∷ []) io (process_state E i t s (some on) io).0
  unfolding process_state put_slot call_back calls_of
  edge-Sampled i t on s io e h d =
      let s1 : Slot F = record s {
        endpoint = sensor (record { value = boolean on; valid = true; timestamp_ms = t });
        last_value = on;
        last_valid = true;
      } in
      let b : Io F = put_slot E i s1 io in
      let c : Io F = store_value E s.rt_idx (boolean on) t b in
      let m : Io F = mark_io_cycle_changed s.io_id c in
      let after : (process_state E i t s (some on) io).0
          ≡ record m { effects = m.effects ++ (called s.io_id on ∷ []) } =
        ground (arith, h, d) in
      subst (Sampled i s.io_id (some on) (on ∷ []) io) (sym after) (record {
        slot = s1;
        there =
            ap (λ l. get_elem? l i) (mark-slots s.io_id c)
            ∙ (ap (λ l. get_elem? l i) (store-slots s.rt_idx (boolean on) t b)
                ∙ get_elem?-set_self io.slots i s1 (get_elem?-lt io.slots i s e));
        tracks = record { known_value = refl; shown_value = refl };
        same_id = refl;
        listens = h;
        calls =
            calls_of-append s.io_id m.effects (called s.io_id on ∷ [])
            ∙ ground (
              arith,
              ap (calls_of s.io_id) (mark-effects s.io_id c),
              store-effects s.io_id s.rt_idx (boolean on) t b,
            );
      })

  level-Sampled :
      (i t : ℕ) (on : Bool) (s : Slot F) (io : Io F)
      → get_elem? io.slots i ≡ some s
      → s.has_callback ≡ true
      → Tracks (some on) s
      → Sampled i s.io_id (some on) [] io (process_state E i t s (some on) io).0
  unfolding process_state
  level-Sampled i t on s io e h k =
      let same : (process_state E i t s (some on) io).0 ≡ io = ground (arith, k.known_value) in
      subst (Sampled i s.io_id (some on) [] io) (sym same) (same-Sampled i (some on) s io e h k)

  process_state-Sampled :
      (i t : ℕ) (before r : Option Bool) (s : Slot F) (io : Io F)
      → get_elem? io.slots i ≡ some s
      → s.has_callback ≡ true
      → Tracks before s
      → Sampled i s.io_id r (edges before ((t, r) ∷ [])) io (process_state E i t s r io).0
  unfolding edges
  process_state-Sampled i t before none s io e h k = unreadable-Sampled i t before s io e h k
  process_state-Sampled i t none (some on) s io e h k =
      edge-Sampled i t on s io e h (ground (arith, k.known_value))
  process_state-Sampled i t (some true) (some true) s io e h k = level-Sampled i t true s io e h k
  process_state-Sampled i t (some false) (some false) s io e h k =
      level-Sampled i t false s io e h k
  process_state-Sampled i t (some true) (some false) s io e h k =
      edge-Sampled i t false s io e h (ground (arith, k.known_value))
  process_state-Sampled i t (some false) (some true) s io e h k =
      edge-Sampled i t true s io e h (ground (arith, k.known_value))

  edges-cons :
      (t : ℕ) (before r : Option Bool) (rs : List (ℕ × Option Bool))
      → edges before ((t, r) ∷ rs) ≡ edges before ((t, r) ∷ []) ++ edges r rs
  unfolding edges
  edges-cons t before none rs = refl
  edges-cons t none (some on) rs = refl
  edges-cons t (some true) (some true) rs = refl
  edges-cons t (some true) (some false) rs = refl
  edges-cons t (some false) (some true) rs = refl
  edges-cons t (some false) (some false) rs = refl

  -- An input that is a state and has a callback, at any readings, of which some may fail: the callback
  -- hears the values that differ from the reading before, or follow one that failed, in their order
  -- and no others, and the endpoint shows the last reading, or none if that failed.
  pub sample-edges :
      (i : ℕ) (before : Option Bool) (rs : List (ℕ × Option Bool)) (s : Slot F) (io : Io F)
      → get_elem? io.slots i ≡ some s
      → s.has_callback ≡ true
      → Tracks before s
      → (calls_of s.io_id (sample i rs io).effects ≡ calls_of s.io_id io.effects ++ edges before rs)
        × ((s1 : Slot F) × (get_elem? (sample i rs io).slots i ≡ some s1)
            × (shown s1.endpoint ≡ latest before rs))
  unfolding sample latest edges
  sample-edges i before [] s io e h k =
      (sym (append-nil (calls_of s.io_id io.effects)), (s, e, k.shown_value))
  sample-edges i before ((t, r) ∷ rs) s io e h k =
      let one = process_state-Sampled i t before r s io e h k in
      let b = (process_state E i t s r io).0 in
      let (heard, last) = sample-edges i r rs one.slot b one.there one.listens one.tracks in
      let after : sample i ((t, r) ∷ rs) io ≡ sample i rs b = ground (arith, e) in
      let cons = edges-cons t before r rs in
      (
        ap (λ (a : Io F). calls_of s.io_id a.effects) after
            ∙ (subst
                  (λ (d : ℕ).
                    calls_of d (sample i rs b).effects ≡ calls_of d b.effects ++ edges r rs)
                  one.same_id heard
                ∙ (ap (λ l. l ++ edges r rs) one.calls
                    ∙ (append_assoc (calls_of s.io_id io.effects) (edges before ((t, r) ∷ []))
                          (edges r rs)
                        ∙ ap (λ l. calls_of s.io_id io.effects ++ l) (sym cons)))),
        (last.0, ap (λ (a : Io F). get_elem? a.slots i) after ∙ last.1, last.2),
      )
