-- ===== src/Io/Known.antt =====
-- Every exposed id is that of a definition.
use mathlib.Core.Option.{some-injective}
use flowio_waveshare_qwiic.Prelude.{
  ℕ, zero, suc, true, none, some, List, [], ◌∷◌, ◌++◌, ◌≡◌, ◌≢◌, ◌+◌, ◌-◌, length, get_elem?, refl,
  sym, ap, subst, ◌∙◌, inl, inr, arith, Bool-cases, Option-cases, ltb,
}
use flowio_waveshare_qwiic.Io.Types.{
  Kind, input, output, same_kind, io_id_ai_base, Capacity, Slot, AnalogSlot, Io,
}
use flowio_waveshare_qwiic.Io.Table.{
  is_logical, find_by_io_id, find_by_logical, find_digital_slot_by_io_id,
}
use flowio_waveshare_qwiic.Io.Ids.{
  logical_ids, analog_ids, exposed, find_by_logical-get, ids-none, ids-some,
}
use flowio_waveshare_qwiic.Io.Enumeration.{
  base, IsTable, get_elem?-append_left, get_elem?-append_right,
}

same_kind-eq : (a b : Kind) → same_kind a b ≡ true → a ≡ b
same_kind-eq input input h = refl
same_kind-eq output output h = refl
same_kind-eq input output h = cc
same_kind-eq output input h = cc

-- An element of `x ∷ xs` is the first or one of the others.
head_or_tail :
    {P : Type 0} (id k x : ℕ) (xs : List ℕ)
    → (x ≡ id → P)
    → ((j : ℕ) → get_elem? xs j ≡ some id → P)
    → get_elem? (x ∷ xs) k ≡ some id
    → P
head_or_tail id zero x xs f g e = f (some-injective _ _ e)
head_or_tail id (suc k) x xs f g e = g k e

module _ {F : Type 0} where
  -- A used digital slot that is found by the id, or a used analog slot at its place.
  pub data Known (io : Io F) (id : ℕ) : Type 0 where
    digital : find_digital_slot_by_io_id id io.slots ≢ none → Known io id
    analog :
        (k : ℕ) (a : AnalogSlot F)
        → get_elem? io.analog k ≡ some a
        → a.used ≡ true
        → id ≡ io_id_ai_base + k
        → Known io id

  pub logical-place :
      (board : Capacity) (io : Io F) (kind : Kind) (logical i : ℕ) (s : Slot F)
      → IsTable board io
      → get_elem? io.slots i ≡ some s
      → is_logical kind logical s ≡ true
      → (s.used ≡ true) × (s.io_id ≡ base kind + logical)
  unfolding is_logical
  logical-place board io kind logical i s v e h =
      let used : s.used ≡ true = ground (arith, h) in
      let kinds : s.kind ≡ kind = same_kind-eq s.kind kind (ground (arith, h)) in
      let at_logical : s.logical_idx ≡ logical = ground (arith, h) in
      (
        used,
        (v.placed i s e used).0
            ∙ (ap (λ (k : Kind). base k + s.logical_idx) kinds
                ∙ ap (λ (n : ℕ). base kind + n) at_logical),
      )

  find-present :
      (id k i : ℕ) (ss : List (Slot F)) (s : Slot F)
      → get_elem? ss i ≡ some s
      → s.used ≡ true
      → s.io_id ≡ id
      → find_by_io_id id k ss ≢ none
  unfolding find_by_io_id
  find-present id k i [] s e u h = absurd (cc)
  find-present id k zero (x ∷ ss) s e u h = ground (arith, some-injective _ _ e)
  find-present id k (suc i) (x ∷ ss) s e u h = ground (arith, find-present id (suc k) i ss s e u h)

  find_digital-present :
      (id i : ℕ) (io : Io F) (s : Slot F)
      → get_elem? io.slots i ≡ some s
      → s.used ≡ true
      → s.io_id ≡ id
      → find_digital_slot_by_io_id id io.slots ≢ none
  unfolding find_digital_slot_by_io_id
  find_digital-present id i io s e u h = find-present id 0 i io.slots s e u h

  logical_ids-Known :
      (board : Capacity) (io : Io F) (kind : Kind) (logical n k id : ℕ)
      → IsTable board io
      → get_elem? (logical_ids kind logical n io.slots) k ≡ some id
      → Known io id
  unfolding logical_ids
  logical_ids-Known board io kind logical zero k id v e = absurd (cc)
  logical_ids-Known board io kind logical (suc n) k id v e =
      elim (Option-cases (find_by_logical kind logical 0 io.slots)) [
        | inl missing ↦
            logical_ids-Known board io kind (suc logical) n k id v
              (sym (ap (λ l. get_elem? l k) (ids-none kind logical n io.slots missing)) ∙ e)
        | inr (i, found) ↦
            let (s, there, same) = find_by_logical-get kind logical io.slots i found in
            let (used, _) = logical-place board io kind logical i s v there same in
            head_or_tail id k s.io_id (logical_ids kind (suc logical) n io.slots)
              (λ mine. Known.digital (find_digital-present id i io s there used mine))
              (λ j rest. logical_ids-Known board io kind (suc logical) n j id v rest)
              (sym (ap (λ l. get_elem? l k) (ids-some kind logical n i io.slots s found there)) ∙ e)
      ]

  analog_ids-Known :
      (io : Io F) (as_ : List (AnalogSlot F)) (from k id : ℕ)
      → ((j : ℕ) (a : AnalogSlot F)
          → get_elem? as_ j ≡ some a
          → a.used ≡ true
          → (get_elem? io.analog (from + j) ≡ some a) × (a.io_id ≡ io_id_ai_base + (from + j)))
      → get_elem? (analog_ids as_) k ≡ some id
      → Known io id
  unfolding analog_ids
  analog_ids-Known io [] from k id h e = absurd (cc)
  analog_ids-Known io (a ∷ as_) from k id h e =
      let later = λ (j : ℕ) (f : get_elem? (analog_ids as_) j ≡ some id).
        analog_ids-Known io as_ (suc from) j id
          (λ m b g u.
            let (there, mine) = h (suc m) b g u in
            (
              subst (λ (d : ℕ). get_elem? io.analog d ≡ some b) {x = from + suc m} (omega arith)
                  there,
              mine ∙ omega arith,
            ))
          f in
      elim (Bool-cases a.used) [
        | inl used ↦
            let (there, mine) = h 0 a refl used in
            head_or_tail id k a.io_id (analog_ids as_)
              (λ same. Known.analog (from + 0) a there used (sym same ∙ mine)) later
              (ground (arith, used, e))
        | inr unused ↦ later k (ground (arith, unused, e))
      ]

  pub exposed-Known :
      (board : Capacity) (io : Io F) (k id : ℕ)
      → IsTable board io
      → get_elem? (exposed board io) k ≡ some id
      → Known io id
  unfolding exposed
  exposed-Known board io k id v e =
      let outs = logical_ids output 0 board.max_digital_outputs io.slots in
      let ins = logical_ids input 0 board.max_digital_inputs io.slots in
      let ais = analog_ids io.analog in
      let j = k - length outs in
      elim (Bool-cases (ltb k (length outs))) [
        | inl first ↦
            logical_ids-Known board io output 0 board.max_digital_outputs k id v
              (sym (get_elem?-append_left outs (ins ++ ais) k (ground arith)) ∙ e)
        | inr past ↦
            let right = sym (get_elem?-append_right outs (ins ++ ais) k (ground arith)) ∙ e in
            elim (Bool-cases (ltb j (length ins))) [
              | inl second ↦
                  logical_ids-Known board io input 0 board.max_digital_inputs j id v
                    (sym (get_elem?-append_left ins ais j (ground arith)) ∙ right)
              | inr third ↦
                  analog_ids-Known io io.analog 0 (j - length ins) id
                    (λ m a g u. (
                      subst (λ (d : ℕ). get_elem? io.analog d ≡ some a) {x = m} (omega arith) g,
                      v.analog_placed m a g u ∙ omega arith,
                    ))
                    (sym (get_elem?-append_right ins ais j (ground arith)) ∙ right)
            ]
      ]
