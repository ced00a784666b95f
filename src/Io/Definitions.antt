-- ===== src/Io/Definitions.antt =====
-- Definitions in any order.
use mathlib.Core.Option.{some-injective}
use flowio_waveshare_qwiic.Prelude.{
  ℕ, Bool, true, List, [], ◌∷◌, ◌≡◌, ◌+◌, ◌-◌, ◌==◌, ◌!=◌, ◌&&◌, get_elem?, set, sym, ap, subst,
  ◌∙◌, inl, inr, arith, Bool-cases, Option-cases, length-set, get_elem?-set_self, get_elem?-set_ne,
  get_elem?-lt, ltb, leb,
}
use flowio_waveshare_qwiic.Io.Types.{
  input, output, io_id_invalid, io_id_ai_base, Capacity, AnalogSlot, Io,
}
use flowio_waveshare_qwiic.Io.Table.{
  define_digital_input, define_digital_output, define_analog_input,
}
use flowio_waveshare_qwiic.Io.Enumeration.{Fits, IsTable}
use flowio_waveshare_qwiic.Io.Registration.{define_digital-IsTable}

-- A definition, by what decides whether it is accepted.
pub data Definition : Type 0 where
  define_input : Bool → Bool → ℕ → Bool → Bool → Definition
  define_output : Bool → Bool → ℕ → Bool → ℕ → Definition
  define_analog : Bool → ℕ → Definition

module _ {F : Type 0} where
  unfoldable pub define : Capacity → Definition → Io F → Io F × Bool
  define board (define_input named port id counter callback) io =
      define_digital_input board named port id counter callback io
  define board (define_output named port id momentary ms) io =
      define_digital_output board named port id momentary ms io
  define board (define_analog named id) io = define_analog_input board named id io

  unfoldable pub define_all : Capacity → List Definition → Io F → Io F
  define_all board [] io = io
  define_all board (d ∷ ds) io = define_all board ds (define board d io).0

  analog-IsTable :
      (board : Capacity) (named : Bool) (id : ℕ) (io : Io F)
      → IsTable board io
      → IsTable board (define_analog_input board named id io).0
  unfolding define_analog_input
  analog-IsTable board named id io v =
      let accepted =
        named
        && (id != io_id_invalid
            && (leb io_id_ai_base id && ltb id (io_id_ai_base + board.max_analog_endpoints))) in
      let place = id - io_id_ai_base in
      elim (Bool-cases accepted) [
        | inr refused ↦ subst (IsTable board) (ground (arith, refused)) v
        | inl good ↦ elim (Option-cases (get_elem? io.analog place)) [
          | inl missing ↦ subst (IsTable board) (ground (arith, good, missing)) v
          | inr (a, found) ↦ elim (Bool-cases a.used) [
            | inl used ↦ subst (IsTable board) (ground (arith, good, found, used)) v
            | inr free ↦
                let b : AnalogSlot F = record a { used = true; io_id = id } in
                subst (IsTable board) {x = record io { analog = set io.analog place b }}
                  (ground (arith, good, found, free))
                  (record {
                    placed = v.placed;
                    single = v.single;
                    analog_size = length-set io.analog place b ∙ v.analog_size;
                    analog_placed = λ k c e used. elim (Bool-cases (place == k)) [
                      | inl here ↦
                          let at_k : place ≡ k = ground arith in
                          let mine : c ≡ b = some-injective _ _ (
                            sym e
                            ∙ (ap (get_elem? (set io.analog place b)) (sym at_k)
                                ∙ get_elem?-set_self io.analog place b
                                    (get_elem?-lt io.analog place a found))) in
                          ap (λ (d : AnalogSlot F). d.io_id) mine ∙ ground (arith, good)
                      | inr there ↦
                          v.analog_placed k c
                            (sym (get_elem?-set_ne io.analog place k b (ground arith)) ∙ e) used
                    ];
                  })
          ]
        ]
      ]

  define-IsTable :
      (board : Capacity) (d : Definition) (io : Io F)
      → Fits board
      → IsTable board io
      → IsTable board (define board d io).0
  unfolding define define_digital_input define_digital_output
  define-IsTable board (define_input named port id counter callback) io f v =
      define_digital-IsTable board input named port id
        (λ s. record s { counter_mode = counter; has_callback = callback }) io f v
  define-IsTable board (define_output named port id momentary ms) io f v =
      define_digital-IsTable board output named port id
        (λ s. record s { momentary = momentary; pulse_ms = ms }) io f v
  define-IsTable board (define_analog named id) io f v = analog-IsTable board named id io v

  -- Definitions in any order, accepted or not: every used slot has the id of its kind and index, no
  -- two used digital slots have one id, and every used analog slot has the id of its place.
  pub define_all-IsTable :
      (board : Capacity) (ds : List Definition) (io : Io F)
      → Fits board
      → IsTable board io
      → IsTable board (define_all board ds io)
  unfolding define_all
  define_all-IsTable board [] io f v = v
  define_all-IsTable board (d ∷ ds) io f v =
      define_all-IsTable board ds (define board d io).0 f (define-IsTable board d io f v)
