-- ===== src/Io/Touched.antt =====
-- Writes change one slot of the table, and neither its use nor its id.
use mathlib.Core.Option.{some-injective}
use flowio_waveshare_qwiic.Prelude.{
  ℕ, zero, suc, Bool, true, Option, none, some, List, [], ◌∷◌, ◌≡◌, ◌≢◌, ◌==◌, ◌&&◌, ◌+◌, ◌-◌, ◌≤◌,
  ◌%◌, if◌then◌else◌, get_elem?, set, refl, sym, ap, subst, ◌∙◌, inl, inr, arith, Bool-cases,
  get_elem?-lt, get_elem?-set_self, get_elem?-set_ne,
}
use flowio_waveshare_qwiic.Io.Types.{Value, Slot, Env, Io}
use flowio_waveshare_qwiic.Io.Cycle.{ensure_last_cycle_state, mark_io_cycle_changed}
use flowio_waveshare_qwiic.Io.Table.{find_by_io_id}
use flowio_waveshare_qwiic.Io.Inputs.{put_slot, store_value}
use flowio_waveshare_qwiic.Io.Outputs.{write_digital_out}
use flowio_waveshare_qwiic.Io.Pulses.{mark-slots}

module _ {F : Type 0} where
  -- The number of the last cycle, 0 where there is none.
  abbrev pub cycle_seq : Io F → ℕ
  cycle_seq io = elim io.cycle [ none ↦ 0 | some c ↦ c.seq ]

  pub mark-seq : (id : ℕ) (io : Io F) → cycle_seq (mark_io_cycle_changed id io) ≡ cycle_seq io
  unfolding mark_io_cycle_changed ensure_last_cycle_state
  mark-seq id io = ground arith

  -- A slot that is found is in the table, is used, and has the id.
  find-get :
      (id k : ℕ) (ss : List (Slot F)) (i : ℕ)
      → find_by_io_id id k ss ≡ some i
      → (k ≤ i)
        × ((s : Slot F) × (get_elem? ss (i - k) ≡ some s) × (s.used ≡ true) × (s.io_id ≡ id))
  unfolding find_by_io_id
  find-get id k [] i e = absurd (cc)
  find-get id k (s ∷ ss) i e = elim (Bool-cases (s.used && s.io_id == id)) [
    | inl here ↦
        let at_k : i ≡ k = ground (arith, e, here) in
        (
          ground arith,
          (
            s,
            subst (λ (n : ℕ). get_elem? (s ∷ ss) n ≡ some s) {x = 0} (ground arith) refl,
            ground arith,
            ground arith,
          ),
        )
    | inr there ↦
        let (behind, (t, found, used, same)) =
          find-get id (suc k) ss i (ground (arith, e, there)) in
        (
          ground arith,
          (
            t,
            subst (λ (n : ℕ). get_elem? (s ∷ ss) n ≡ some t) {x = suc (i - suc k)} (omega arith)
                found,
            used,
            same,
          ),
        )
  ]

  pub find_digital-get :
      (id : ℕ) (ss : List (Slot F)) (i : ℕ)
      → find_by_io_id id 0 ss ≡ some i
      → (s : Slot F) × (get_elem? ss i ≡ some s) × (s.used ≡ true) × (s.io_id ≡ id)
  find_digital-get id ss i e =
      let (_, (s, there, used, same)) = find-get id 0 ss i e in
      (s, subst (λ (n : ℕ). get_elem? ss n ≡ some s) {x = i - 0} (omega arith) there, used, same)

  -- A slot that keeps its use and its id is found as before.
  find-set :
      (id k : ℕ) (ss : List (Slot F)) (j : ℕ) (s t : Slot F)
      → get_elem? ss j ≡ some s
      → t.used ≡ s.used
      → t.io_id ≡ s.io_id
      → find_by_io_id id k (set ss j t) ≡ find_by_io_id id k ss
  unfolding find_by_io_id
  find-set id k [] j s t e u v = refl
  find-set id k (x ∷ ss) zero s t e u v = ground (arith, some-injective _ _ e)
  find-set id k (x ∷ ss) (suc j) s t e u v = ground (arith, find-set id (suc k) ss j s t e u v)

module _ (E : Env) where
  open E use {F, World, write_pin}

  -- Two states whose slots read the same.
  pub record ReadsAs (a b : Io F) : Type 0 where
    pub slots : a.slots ≡ b.slots
    pub seq : cycle_seq a ≡ cycle_seq b

  pub settle :
      (id : ℕ) (rt : Option ℕ) (v : Value F) (now : ℕ) (io : Io F)
      → ReadsAs (mark_io_cycle_changed id (store_value E rt v now io)) io
  unfolding store_value
  settle id rt v now io =
      let stored_ = store_value E rt v now io in
      record {
        slots = mark-slots id stored_ ∙ ground arith;
        seq = mark-seq id stored_ ∙ ground arith;
      }

  -- From `a` to `b` only the slot `i` is changed, and its use and id are not.
  pub record Touched (i : ℕ) (a b : Io F) : Type 0 where
    pub finds : (id : ℕ) → find_by_io_id id 0 b.slots ≡ find_by_io_id id 0 a.slots
    pub others : (j : ℕ) → i ≢ j → get_elem? b.slots j ≡ get_elem? a.slots j
    pub seq : cycle_seq b ≡ cycle_seq a

  pub ReadsAs-Touched : (i : ℕ) (a b : Io F) → ReadsAs b a → Touched i a b
  ReadsAs-Touched i a b r = record {
    finds = λ id. ap (find_by_io_id id 0) r.slots;
    others = λ j h. ap (λ l. get_elem? l j) r.slots;
    seq = r.seq;
  }

  pub Touched-trans : (i : ℕ) (a b c : Io F) → Touched i a b → Touched i b c → Touched i a c
  Touched-trans i a b c f g = record {
    finds = λ id. g.finds id ∙ f.finds id;
    others = λ j h. g.others j h ∙ f.others j h;
    seq = g.seq ∙ f.seq;
  }

  pub put_slot-Touched :
      (i : ℕ) (s t : Slot F) (io : Io F)
      → get_elem? io.slots i ≡ some s
      → t.used ≡ s.used
      → t.io_id ≡ s.io_id
      → Touched i io (put_slot E i t io)
  unfolding put_slot
  put_slot-Touched i s t io e u v = record {
    finds = λ id. find-set id 0 io.slots i s t e u v;
    others = λ j h. get_elem?-set_ne io.slots i j t h;
    seq = refl;
  }

  -- What a successful write does to the table.
  pub write_digital_out-Touched :
      (i clock : ℕ) (on : Bool) (s : Slot F) (w : World) (io : Io F)
      → get_elem? io.slots i ≡ some s
      → (write_digital_out E i clock on s w io).2 ≡ true
      → Touched i io (write_digital_out E i clock on s w io).1
        × ((t : Slot F) × (get_elem? (write_digital_out E i clock on s w io).1.slots i ≡ some t)
            × (t.used ≡ s.used)
            × (t.io_id ≡ s.io_id))
  unfolding write_digital_out put_slot
  write_digital_out-Touched i clock on s w io found done =
      let m = λ (a : Io F). mark_io_cycle_changed s.io_id a in
      let same =
        ReadsAs-Touched i io (m io)
          (record { slots = mark-slots s.io_id io; seq = mark-seq s.io_id io }) in
      let s1 : Slot F = record s {
        pulse_deadline_ms = (clock + (if s.pulse_ms == 0 then 500 else s.pulse_ms)) % 4294967296;
        pulse_armed = true;
      } in
      let b = put_slot E i s1 io in
      let put = Touched-trans i io b (m b) (put_slot-Touched i s s1 io found refl refl) (
        ReadsAs-Touched i b (m b)
          (record { slots = mark-slots s.io_id b; seq = mark-seq s.io_id b })) in
      elim (Bool-cases s.momentary) [
        | inl yes_ ↦
            let e : (write_digital_out E i clock on s w io).1 ≡ m b = ground arith in
            (
              subst (Touched i io) (sym e) put,
              (
                s1,
                ap (λ (a : Io F). get_elem? a.slots i) e
                    ∙ (ap (λ l. get_elem? l i) (mark-slots s.io_id b)
                        ∙ get_elem?-set_self io.slots i s1 (get_elem?-lt io.slots i s found)),
                refl,
                refl,
              ),
            )
        | inr no_ ↦
            let e : (write_digital_out E i clock on s w io).1 ≡ m io = ground arith in
            (
              subst (Touched i io) (sym e) same,
              (
                s,
                ap (λ (a : Io F). get_elem? a.slots i) e
                    ∙ (ap (λ l. get_elem? l i) (mark-slots s.io_id io) ∙ found),
                refl,
                refl,
              ),
            )
      ]
