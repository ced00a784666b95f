-- ===== src/Io/Enumeration.antt =====
-- `ioCount_` and `ioIdAt_` on a table of definitions.
use flowio_waveshare_qwiic.Prelude.{
  ℕ, zero, suc, true, none, some, List, [], ◌∷◌, ◌++◌, ◌≡◌, ◌≤◌, ◌<◌, ◌+◌, ◌-◌, ◌==◌, length,
  get_elem?, refl, ap, subst, ◌∙◌, inl, inr, arith, Bool-cases, length-append, get_elem?-some, ltb,
}
use flowio_waveshare_qwiic.Io.Types.{
  Kind, input, output, io_id_di_base, io_id_ai_base, Capacity, Slot, AnalogSlot, Io,
}
use flowio_waveshare_qwiic.Io.Table.{count_analog, io_count, seek_analog, io_id_at}
use flowio_waveshare_qwiic.Io.Ids.{
  logical_ids, analog_ids, exposed, count-length, seek-hit, seek-miss,
}

pub get_elem?-append_left :
    (xs ys : List ℕ) (k : ℕ) → k < length xs → get_elem? (xs ++ ys) k ≡ get_elem? xs k
get_elem?-append_left [] ys k h = elim h [ ]
get_elem?-append_left (x ∷ xs) ys zero h = refl
get_elem?-append_left (x ∷ xs) ys (suc k) h = get_elem?-append_left xs ys k (omega arith)

pub get_elem?-append_right :
    (xs ys : List ℕ) (k : ℕ) → length xs ≤ k → get_elem? (xs ++ ys) k ≡ get_elem? ys (k - length xs)
get_elem?-append_right [] ys k h = ap (get_elem? ys) (omega arith)
get_elem?-append_right (x ∷ xs) ys zero h = absurd (omega arith)
get_elem?-append_right (x ∷ xs) ys (suc k) h =
    get_elem?-append_right xs ys k (omega arith) ∙ ap (get_elem? ys) (omega arith)

pub get_elem?-none : (xs : List ℕ) (k : ℕ) → length xs ≤ k → get_elem? xs k ≡ none
get_elem?-none [] k h = refl
get_elem?-none (x ∷ xs) zero h = absurd (omega arith)
get_elem?-none (x ∷ xs) (suc k) h = get_elem?-none xs k (omega arith)

abbrev pub base : Kind → ℕ
base input = io_id_di_base
base output = 0

abbrev pub size : Kind → Capacity → ℕ
size input board = board.max_digital_inputs
size output board = board.max_digital_outputs

-- The ids of the three ranges are apart and below the invalid id, as the boards' profiles have it.
pub record Fits (board : Capacity) : Type 0 where
  pub outputs : board.max_digital_outputs ≤ 64
  pub inputs : board.max_digital_inputs ≤ 128
  pub analogs : board.max_analog_endpoints ≤ 256

module _ {F : Type 0} where
  -- Every used slot has the id of its kind and index, no two used slots share both, and every used
  -- analog slot has the id of its place.
  pub record IsTable (board : Capacity) (io : Io F) : Type 0 where
    pub placed :
        (k : ℕ) (s : Slot F)
        → get_elem? io.slots k ≡ some s
        → s.used ≡ true
        → (s.io_id ≡ base s.kind + s.logical_idx) × (s.logical_idx < size s.kind board)
    pub single :
        (j k : ℕ) (s t : Slot F)
        → get_elem? io.slots j ≡ some s
        → get_elem? io.slots k ≡ some t
        → s.used ≡ true
        → t.used ≡ true
        → s.io_id ≡ t.io_id
        → j ≡ k
    pub analog_size : length io.analog ≡ board.max_analog_endpoints
    pub analog_placed :
        (k : ℕ) (a : AnalogSlot F)
        → get_elem? io.analog k ≡ some a
        → a.used ≡ true
        → a.io_id ≡ io_id_ai_base + k

  seek_analog-get :
      (index seen : ℕ) (as_ : List (AnalogSlot F))
      → seen ≤ index
      → seek_analog index seen as_ ≡ get_elem? (analog_ids as_) (index - seen)
  unfolding seek_analog analog_ids
  seek_analog-get index seen [] h = refl
  seek_analog-get index seen (a ∷ as_) h = elim (Bool-cases a.used) [
    | inr unused ↦ ground (arith, unused, seek_analog-get index seen as_ h)
    | inl used ↦ elim (Bool-cases (seen == index)) [
      | inl here ↦
          let e =
            ap (get_elem? (a.io_id ∷ analog_ids as_)) {x = index - seen} {y = 0} (ground arith) in
          ground (arith, used, here, e)
      | inr later ↦
          let e =
            ap (get_elem? (a.io_id ∷ analog_ids as_)) {x = index - seen}
              {y = suc (index - suc seen)} (ground arith) in
          ground (arith, used, later, e, seek_analog-get index (suc seen) as_ (ground arith))
    ]
  ]

  count_analog-length : (as_ : List (AnalogSlot F)) → count_analog as_ ≡ length (analog_ids as_)
  unfolding count_analog analog_ids
  count_analog-length [] = refl
  count_analog-length (a ∷ as_) = ground (arith, count_analog-length as_)

  pub io_count-length :
      (board : Capacity) (io : Io F) → io_count board io ≡ length (exposed board io)
  unfolding io_count exposed
  io_count-length board io =
      let outs = logical_ids output 0 board.max_digital_outputs io.slots in
      let ins = logical_ids input 0 board.max_digital_inputs io.slots in
      omega (
        arith,
        length-append outs (ins ++ analog_ids io.analog),
        length-append ins (analog_ids io.analog),
        count-length output 0 board.max_digital_outputs io.slots,
        count-length input 0 board.max_digital_inputs io.slots,
        count_analog-length io.analog,
      )

  -- `ioIdAt_` reads the list of exposed ids.
  pub io_id_at-get :
      (board : Capacity) (index : ℕ) (io : Io F)
      → io_id_at board index io ≡ get_elem? (exposed board io) index
  unfolding io_id_at exposed
  io_id_at-get board index io =
      let outs = logical_ids output 0 board.max_digital_outputs io.slots in
      let ins = logical_ids input 0 board.max_digital_inputs io.slots in
      let ais = analog_ids io.analog in
      let n = length outs in
      elim (Bool-cases (ltb index (length outs))) [
        | inl first ↦
            let (id, e) = get_elem?-some outs index (ground arith) in
            let same =
              subst (λ (d : ℕ). get_elem? outs d ≡ some id) {y = index - 0} (omega arith) e in
            ground (
              arith,
              seek-hit output index 0 board.max_digital_outputs 0 io.slots id (omega arith) same,
              get_elem?-append_left outs (ins ++ ais) index (ground arith),
              e,
            )
        | inr past ↦
            let missed =
              seek-miss output index 0 board.max_digital_outputs 0 io.slots (ground arith) in
            let right = get_elem?-append_right outs (ins ++ ais) index (ground arith) in
            elim (Bool-cases (ltb (index - length outs) (length ins))) [
              | inl second ↦
                  let (id, e) = get_elem?-some ins (index - length outs) (ground arith) in
                  let hit =
                    seek-hit input index 0 board.max_digital_inputs (0 + length outs) io.slots id
                      (ground arith)
                      (subst (λ (d : ℕ). get_elem? ins d ≡ some id) {y = index - (0 + length outs)}
                        (omega arith) e) in
                  ground (
                    arith,
                    missed,
                    hit,
                    right,
                    get_elem?-append_left ins ais (index - length outs) (ground arith),
                    e,
                  )
              | inr third ↦
                  let missed2 =
                    seek-miss input index 0 board.max_digital_inputs (0 + length outs) io.slots
                      (ground arith) in
                  ground (
                    arith,
                    missed,
                    missed2,
                    right,
                    get_elem?-append_right ins ais (index - length outs) (ground arith),
                    seek_analog-get index (0 + length outs + length ins) io.analog (ground arith),
                    ap (get_elem? ais) {x = index - length outs - length ins}
                        {y = index - (0 + length outs + length ins)} (omega arith),
                  )
            ]
      ]
