-- ===== src/Io/Table.antt =====
-- The table of digital slots and the ids that the service exposes.
use flowio_waveshare_qwiic.Prelude.{
  ℕ, zero, suc, Bool, true, false, Option, none, some, List, [], ◌∷◌, ◌==◌, ◌!=◌, ◌+◌, ◌-◌, ◌&&◌,
  ltb, leb, get_elem?, set, if◌then◌else◌,
}
use flowio_waveshare_qwiic.Io.Types.{
  Kind, input, output, same_kind, io_id_invalid, io_id_di_base, io_id_ai_base, Capacity, Slot,
  AnalogSlot, Io,
}

module _ {F : Type 0} where
  -- `used`, of the kind and with the logical index.
  unfoldable pub is_logical : Kind → ℕ → Slot F → Bool
  is_logical kind logical s = s.used && (same_kind s.kind kind && s.logical_idx == logical)

  unfoldable pub digital_logical_used : Kind → ℕ → List (Slot F) → Bool
  digital_logical_used kind logical [] = false
  digital_logical_used kind logical (s ∷ ss) =
      if is_logical kind logical s then true else digital_logical_used kind logical ss

  -- The loops of `findDigitalSlotByLogical_` and `findDigitalSlotByIoId_` from the slot `i` on.
  unfoldable pub find_by_logical : Kind → ℕ → ℕ → List (Slot F) → Option ℕ
  find_by_logical kind logical i [] = none
  find_by_logical kind logical i (s ∷ ss) =
      if is_logical kind logical s then some i else find_by_logical kind logical (suc i) ss

  unfoldable pub find_by_io_id : ℕ → ℕ → List (Slot F) → Option ℕ
  find_by_io_id id i [] = none
  find_by_io_id id i (s ∷ ss) =
      if s.used && s.io_id == id then some i else find_by_io_id id (suc i) ss

  unfoldable pub find_digital_slot_by_io_id : ℕ → List (Slot F) → Option ℕ
  find_digital_slot_by_io_id id ss = find_by_io_id id 0 ss

  -- The loop that takes the first free slot; `none` where there is no free one.
  unfoldable pub take_free : (Slot F → Slot F) → List (Slot F) → Option (List (Slot F))
  take_free fill [] = none
  take_free fill (s ∷ ss) =
      let rest = take_free fill ss in
      if s.used then elim rest [ none ↦ none | some ts ↦ some (s ∷ ts) ] else some (fill s ∷ ss)

  -- The kind of slot, the first id and the number of ids of a definition. The slot's remaining
  -- members are those of the definition and of its configuration (`fill`).
  unfoldable pub define_digital :
      Kind → ℕ → ℕ → Bool → Bool → ℕ → (Slot F → Slot F) → Io F → Io F × Bool
  define_digital kind base size named port_valid id fill io =
      if named && (port_valid && (id != io_id_invalid && (leb base id && ltb id (base + size))))
      then if digital_logical_used kind (id - base) io.slots
        then (io, false)
        else elim (take_free
            (λ s. record (fill s) { used = true; io_id = id; kind = kind; logical_idx = id - base })
            io.slots) [ none ↦ (io, false) | some ss ↦ (record io { slots = ss }, true) ]
      else (io, false)

  -- `defineDigitalInput`, with the fields of the definition that the model keeps.
  unfoldable pub define_digital_input :
      Capacity → Bool → Bool → ℕ → Bool → Bool → Io F → Io F × Bool
  define_digital_input board named port_valid id counter_mode has_callback io =
      define_digital input io_id_di_base board.max_digital_inputs named port_valid id
        (λ s. record s { counter_mode = counter_mode; has_callback = has_callback }) io

  unfoldable pub define_digital_output : Capacity → Bool → Bool → ℕ → Bool → ℕ → Io F → Io F × Bool
  define_digital_output board named port_valid id momentary pulse_ms io =
      define_digital output 0 board.max_digital_outputs named port_valid id
        (λ s. record s { momentary = momentary; pulse_ms = pulse_ms }) io

  unfoldable pub define_analog_input : Capacity → Bool → ℕ → Io F → Io F × Bool
  define_analog_input board named id io =
      if named
        && (id != io_id_invalid
            && (leb io_id_ai_base id && ltb id (io_id_ai_base + board.max_analog_endpoints)))
      then elim (get_elem? io.analog (id - io_id_ai_base)) [
        | none ↦ (io, false)
        | some a ↦ if a.used then (io, false) else (
          record io {
            analog = set io.analog (id - io_id_ai_base) (record a { used = true; io_id = id });
          },
          true,
        )
      ]
      else (io, false)

  -- The loops of `ioCount_` over `n` logical indices from `logical` on, and over the analog slots.
  unfoldable pub count_logical : Kind → ℕ → ℕ → List (Slot F) → ℕ
  count_logical kind logical zero ss = 0
  count_logical kind logical (suc n) ss =
      elim (find_by_logical kind logical 0 ss) [ none ↦ 0 | some i ↦ 1 ]
      + count_logical kind (suc logical) n ss

  unfoldable pub count_analog : List (AnalogSlot F) → ℕ
  count_analog [] = 0
  count_analog (a ∷ as_) = (if a.used then 1 else 0) + count_analog as_

  unfoldable pub io_count : Capacity → Io F → ℕ
  io_count board io =
      count_logical output 0 board.max_digital_outputs io.slots
      + count_logical input 0 board.max_digital_inputs io.slots
      + count_analog io.analog

  -- The loops of `ioIdAt_`, with the number of ids seen so far: an id, or the number seen after the
  -- loop.
  unfoldable pub seek_logical : Kind → ℕ → ℕ → ℕ → ℕ → List (Slot F) → Option ℕ × ℕ
  seek_logical kind index logical zero seen ss = (none, seen)
  seek_logical kind index logical (suc n) seen ss = elim (find_by_logical kind logical 0 ss) [
    | none ↦ seek_logical kind index (suc logical) n seen ss
    | some i ↦
        if seen == index
        then (elim (get_elem? ss i) [ none ↦ none | some s ↦ some s.io_id ], seen)
        else seek_logical kind index (suc logical) n (suc seen) ss
  ]

  unfoldable pub seek_analog : ℕ → ℕ → List (AnalogSlot F) → Option ℕ
  seek_analog index seen [] = none
  seek_analog index seen (a ∷ as_) =
      if a.used
      then if seen == index then some a.io_id else seek_analog index (suc seen) as_
      else seek_analog index seen as_

  -- `ioIdAt_`; `none` is `IO_ERR_UNKNOWN_ID`.
  unfoldable pub io_id_at : Capacity → ℕ → Io F → Option ℕ
  io_id_at board index io =
      let (first, seen) = seek_logical output index 0 board.max_digital_outputs 0 io.slots in
      elim first [
        | some id ↦ some id
        | none ↦
            let (second, seen2) =
              seek_logical input index 0 board.max_digital_inputs seen io.slots in
            elim second [ some id ↦ some id | none ↦ seek_analog index seen2 io.analog ]
      ]
