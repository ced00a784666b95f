-- ===== src/Io/Registration.antt =====
-- Definitions keep the table of inputs and outputs sound.
use mathlib.Core.Option.{some-injective}
use flowio_waveshare_qwiic.Prelude.{
  ℕ, zero, suc, Bool, true, false, some, List, [], ◌∷◌, ◌≡◌, ◌≢◌, ◌≤◌, ◌<◌, ◌+◌, ◌-◌, ◌==◌, ◌!=◌,
  ◌&&◌, get_elem?, refl, sym, ap, subst, ◌∙◌, inl, inr, arith, Bool-cases, Option-cases, ltb, leb,
}
use flowio_waveshare_qwiic.Io.Types.{
  Kind, input, output, same_kind, io_id_invalid, Capacity, Slot, Io,
}
use flowio_waveshare_qwiic.Io.Table.{is_logical, digital_logical_used, take_free, define_digital}
use flowio_waveshare_qwiic.Io.Enumeration.{base, size, Fits, IsTable}

-- Ids of different kinds are apart.
same_range :
    (board : Capacity) (a b : Kind) (m n : ℕ)
    → Fits board
    → m < size a board
    → n < size b board
    → base a + m ≡ base b + n
    → (same_kind a b ≡ true) × (m ≡ n)
same_range board input input m n f h k e = (refl, omega arith)
same_range board output output m n f h k e = (refl, omega arith)
same_range board input output m n f h k e = absurd (omega (arith, f.outputs))
same_range board output input m n f h k e = absurd (omega (arith, f.outputs))

module _ {F : Type 0} where
  -- The first free slot is filled, and the others stay.
  record Taken (fill : Slot F → Slot F) (ss ts : List (Slot F)) : Type 0 where
    at_slot : ℕ
    free : Slot F
    was : get_elem? ss at_slot ≡ some free
    unused : free.used ≡ false
    now : get_elem? ts at_slot ≡ some (fill free)
    others : (k : ℕ) → at_slot ≢ k → get_elem? ts k ≡ get_elem? ss k

  beyond_head :
      (s t : Slot F) (ss : List (Slot F)) (k : ℕ)
      → 0 ≢ k
      → get_elem? (t ∷ ss) k ≡ get_elem? (s ∷ ss) k
  beyond_head s t ss zero h = absurd (h refl)
  beyond_head s t ss (suc k) h = refl

  beyond_tail :
      (s : Slot F) (ts ss : List (Slot F)) (n : ℕ)
      → ((k : ℕ) → n ≢ k → get_elem? ts k ≡ get_elem? ss k)
      → (k : ℕ) → suc n ≢ k
      → get_elem? (s ∷ ts) k ≡ get_elem? (s ∷ ss) k
  beyond_tail s ts ss n h zero d = refl
  beyond_tail s ts ss n h (suc k) d = h k (λ e. d (ap suc e))

  take_free-Taken :
      (fill : Slot F → Slot F) (ss ts : List (Slot F))
      → take_free fill ss ≡ some ts
      → Taken fill ss ts
  unfolding take_free
  take_free-Taken fill [] ts e = absurd (cc)
  take_free-Taken fill (s ∷ ss) ts e = elim (Bool-cases s.used) [
    | inr unused ↦
        let here : ts ≡ fill s ∷ ss = ground (arith, unused, e) in
        record {
          at_slot = 0;
          free = s;
          was = refl;
          unused = unused;
          now = ap (λ l. get_elem? l 0) here;
          others = λ k h. ap (λ l. get_elem? l k) here ∙ beyond_head s (fill s) ss k h;
        }
    | inl used ↦ elim (Option-cases (take_free fill ss)) [
      | inl full ↦ absurd (ground (arith, used, full, e))
      | inr (us, found) ↦
          let here : ts ≡ s ∷ us = ground (arith, used, found, e) in
          let rest = take_free-Taken fill ss us found in
          record {
            at_slot = suc rest.at_slot;
            free = rest.free;
            was = rest.was;
            unused = rest.unused;
            now = ap (λ l. get_elem? l (suc rest.at_slot)) here ∙ rest.now;
            others = λ k h.
                ap (λ l. get_elem? l k) here ∙ beyond_tail s us ss rest.at_slot rest.others k h;
          }
    ]
  ]

  unused-logical :
      (kind : Kind) (l k : ℕ) (ss : List (Slot F)) (t : Slot F)
      → digital_logical_used kind l ss ≡ false
      → get_elem? ss k ≡ some t
      → is_logical kind l t ≡ false
  unfolding digital_logical_used
  unused-logical kind l k [] t h e = absurd (cc)
  unused-logical kind l zero (s ∷ ss) t h e = ground (arith, some-injective _ _ e)
  unused-logical kind l (suc k) (s ∷ ss) t h e = unused-logical kind l k ss t (ground arith) e

  module _ (board : Capacity) (kind : Kind) (id : ℕ) (fill : Slot F → Slot F) (fits : Fits board)
      (low : base kind ≤ id) (high : id < base kind + size kind board) where
    filled : Slot F → Slot F
    filled s = record (fill s) {
      used = true;
      io_id = id;
      kind = kind;
      logical_idx = id - base kind;
    }

    -- A used slot of the old table does not have the new id.
    new_id :
        (io : Io F) (k : ℕ) (t : Slot F)
        → IsTable board io
        → digital_logical_used kind (id - base kind) io.slots ≡ false
        → get_elem? io.slots k ≡ some t
        → t.used ≡ true
        → t.io_id ≢ id
    unfolding is_logical
    new_id io k t v free e used same =
        let (placed, small) = v.placed k t e used in
        let (kinds, index) =
          same_range board t.kind kind t.logical_idx (id - base kind) fits small (omega arith)
            (omega arith) in
        absurd (
          ground
            (arith, unused-logical kind (id - base kind) k io.slots t free e, kinds, index, used))

    Taken-IsTable :
        (io : Io F) (ts : List (Slot F))
        → IsTable board io
        → digital_logical_used kind (id - base kind) io.slots ≡ false
        → Taken filled io.slots ts
        → IsTable board (record io { slots = ts })
    unfolding filled
    Taken-IsTable io ts v free taken = record {
      placed = λ k s e used. elim (Bool-cases (taken.at_slot == k)) [
        | inl here ↦
            let mine : s ≡ filled taken.free =
              some-injective _ _
                (sym e ∙ (ap (get_elem? ts) {y = taken.at_slot} (ground arith) ∙ taken.now)) in
            subst
              (λ (t : Slot F).
                (t.io_id ≡ base t.kind + t.logical_idx) × (t.logical_idx < size t.kind board))
              (sym mine) (omega arith, omega arith)
        | inr there ↦ v.placed k s (sym (taken.others k (ground arith)) ∙ e) used
      ];
      single = λ j k s t e f us ut same. elim (Bool-cases (taken.at_slot == j)) [
        | inl j_here ↦ elim (Bool-cases (taken.at_slot == k)) [
          | inl k_here ↦ ground arith
          | inr k_there ↦
              let mine : s ≡ filled taken.free =
                some-injective _ _
                  (sym e ∙ (ap (get_elem? ts) {y = taken.at_slot} (ground arith) ∙ taken.now)) in
              absurd (
                new_id io k t v free (sym (taken.others k (ground arith)) ∙ f) ut
                  (sym same ∙ ap (λ (r : Slot F). r.io_id) mine))
        ]
        | inr j_there ↦ elim (Bool-cases (taken.at_slot == k)) [
          | inl k_here ↦
              let mine : t ≡ filled taken.free =
                some-injective _ _
                  (sym f ∙ (ap (get_elem? ts) {y = taken.at_slot} (ground arith) ∙ taken.now)) in
              absurd (
                new_id io j s v free (sym (taken.others j (ground arith)) ∙ e) us
                  (same ∙ ap (λ (r : Slot F). r.io_id) mine))
          | inr k_there ↦
              v.single j k s t (sym (taken.others j (ground arith)) ∙ e)
                (sym (taken.others k (ground arith)) ∙ f) us ut same
        ]
      ];
      analog_size = v.analog_size;
      analog_placed = v.analog_placed;
    }

  pub define_digital-IsTable :
      (board : Capacity) (kind : Kind) (named port_valid : Bool) (id : ℕ) (fill : Slot F → Slot F)
      (io : Io F)
      → Fits board
      → IsTable board io
      → IsTable board
          (define_digital kind (base kind) (size kind board) named port_valid id fill io).0
  unfolding define_digital filled
  define_digital-IsTable board kind named port_valid id fill io f v =
      let accepted =
        named
        && (port_valid
            && (id != io_id_invalid
                && (leb (base kind) id && ltb id (base kind + size kind board)))) in
      elim (Bool-cases accepted) [
        | inr refused ↦ subst (IsTable board) (ground (arith, refused)) v
        | inl good ↦ elim (Bool-cases (digital_logical_used kind (id - base kind) io.slots)) [
          | inl taken ↦ subst (IsTable board) (ground (arith, good, taken)) v
          | inr free ↦
              let low : base kind ≤ id = ground (arith, good) in
              let high : id < base kind + size kind board = ground (arith, good) in
              elim (Option-cases (take_free (filled board kind id fill f low high) io.slots)) [
                | inl full ↦ subst (IsTable board) (ground (arith, good, free, full)) v
                | inr (ts, found) ↦ subst (IsTable board) (ground (arith, good, free, found)) (
                    Taken-IsTable board kind id fill f low high io ts v free
                      (take_free-Taken (filled board kind id fill f low high) io.slots ts found))
              ]
        ]
      ]
