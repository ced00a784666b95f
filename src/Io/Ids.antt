-- ===== src/Io/Ids.antt =====
-- The ids that `ioIdAt_` gives out, as the list that it counts through.
use mathlib.Core.Option.{some-injective}
use flowio_waveshare_qwiic.Prelude.{
  ℕ, zero, suc, true, none, some, List, [], ◌∷◌, ◌++◌, ◌≡◌, ◌≤◌, ◌+◌, ◌-◌, ◌==◌, if◌then◌else◌,
  length, get_elem?, refl, sym, ap, subst, ◌∙◌, inl, inr, arith, Bool-cases, Option-cases,
}
use flowio_waveshare_qwiic.Io.Types.{Kind, input, output, Capacity, Slot, AnalogSlot, Io}
use flowio_waveshare_qwiic.Io.Table.{is_logical, find_by_logical, count_logical, seek_logical}

-- Numbers that ascend from `lo` and stay below `hi`.
abbrev pub Ascends : ℕ → ℕ → List ℕ → Type 0
Ascends lo hi [] = lo ≤ hi
Ascends lo hi (x ∷ xs) = (lo ≤ x) × Ascends (suc x) hi xs

pub Ascends-append :
    (lo mid hi : ℕ) (xs ys : List ℕ)
    → Ascends lo mid xs
    → Ascends mid hi ys
    → Ascends lo hi (xs ++ ys)
Ascends-append lo mid hi [] [] h k = omega arith
Ascends-append lo mid hi [] (y ∷ ys) h k = (omega arith, k.1)
Ascends-append lo mid hi (x ∷ xs) ys h k = (h.0, Ascends-append (suc x) mid hi xs ys h.1 k)

pub Ascends-weaken :
    (lo lo' hi hi' : ℕ) (xs : List ℕ) → lo' ≤ lo → hi ≤ hi' → Ascends lo hi xs → Ascends lo' hi' xs
Ascends-weaken lo lo' hi hi' [] h k a = omega arith
Ascends-weaken lo lo' hi hi' (x ∷ xs) h k a =
    (omega arith, Ascends-weaken (suc x) (suc x) hi hi' xs (omega arith) k a.1)

Ascends-le :
    (lo hi : ℕ) (xs : List ℕ) (k x : ℕ) → Ascends lo hi xs → get_elem? xs k ≡ some x → lo ≤ x
Ascends-le lo hi [] k x a e = absurd (cc)
Ascends-le lo hi (y ∷ xs) zero x a e = ground (arith, some-injective _ _ e)
Ascends-le lo hi (y ∷ xs) (suc k) x a e = omega (arith, Ascends-le (suc y) hi xs k x a.1 e)

-- No number stands at two places.
pub Ascends-single :
    (lo hi : ℕ) (xs : List ℕ) (j k x : ℕ)
    → Ascends lo hi xs
    → get_elem? xs j ≡ some x
    → get_elem? xs k ≡ some x
    → j ≡ k
Ascends-single lo hi [] j k x a e f = absurd (cc)
Ascends-single lo hi (y ∷ xs) zero zero x a e f = refl
Ascends-single lo hi (y ∷ xs) zero (suc k) x a e f =
    absurd (omega (arith, some-injective _ _ e, Ascends-le (suc y) hi xs k x a.1 f))
Ascends-single lo hi (y ∷ xs) (suc j) zero x a e f =
    absurd (omega (arith, some-injective _ _ f, Ascends-le (suc y) hi xs j x a.1 e))
Ascends-single lo hi (y ∷ xs) (suc j) (suc k) x a e f =
    ap suc (Ascends-single (suc y) hi xs j k x a.1 e f)

module _ {F : Type 0} where
  -- The ids of the slots that are found for `n` logical indices from `logical` on.
  unfoldable pub logical_ids : Kind → ℕ → ℕ → List (Slot F) → List ℕ
  logical_ids kind logical zero ss = []
  logical_ids kind logical (suc n) ss =
      let rest = logical_ids kind (suc logical) n ss in
      elim (find_by_logical kind logical 0 ss) [
        | none ↦ rest
        | some i ↦ elim (get_elem? ss i) [ none ↦ rest | some s ↦ s.io_id ∷ rest ]
      ]

  unfoldable pub analog_ids : List (AnalogSlot F) → List ℕ
  analog_ids [] = []
  analog_ids (a ∷ as_) = let rest = analog_ids as_ in if a.used then a.io_id ∷ rest else rest

  unfoldable pub exposed : Capacity → Io F → List ℕ
  exposed board io =
      logical_ids output 0 board.max_digital_outputs io.slots
      ++ (logical_ids input 0 board.max_digital_inputs io.slots ++ analog_ids io.analog)

  find_from-get :
      (kind : Kind) (logical k : ℕ) (ss : List (Slot F)) (i : ℕ)
      → find_by_logical kind logical k ss ≡ some i
      → (k ≤ i)
        × ((s : Slot F) × (get_elem? ss (i - k) ≡ some s) × (is_logical kind logical s ≡ true))
  unfolding find_by_logical
  find_from-get kind logical k [] i e = absurd (cc)
  find_from-get kind logical k (s ∷ ss) i e = elim (Bool-cases (is_logical kind logical s)) [
    | inl here ↦ (
      ground (arith, e, here),
      (
        s,
        subst (λ (n : ℕ). get_elem? (s ∷ ss) n ≡ some s) {x = 0} (ground (arith, e, here)) refl,
        here,
      ),
    )
    | inr there ↦
        let (behind, (t, found, same)) =
          find_from-get kind logical (suc k) ss i (ground (arith, e, there)) in
        (
          ground arith,
          (
            t,
            subst (λ (n : ℕ). get_elem? (s ∷ ss) n ≡ some t) {x = suc (i - suc k)} (omega arith)
                found,
            same,
          ),
        )
  ]

  pub find_by_logical-get :
      (kind : Kind) (logical : ℕ) (ss : List (Slot F)) (i : ℕ)
      → find_by_logical kind logical 0 ss ≡ some i
      → (s : Slot F) × (get_elem? ss i ≡ some s) × (is_logical kind logical s ≡ true)
  find_by_logical-get kind logical ss i e =
      let (_, (s, there, same)) = find_from-get kind logical 0 ss i e in
      (s, subst (λ (n : ℕ). get_elem? ss n ≡ some s) {x = i - 0} (omega arith) there, same)

  -- The two shapes of the list.
  pub ids-none :
      (kind : Kind) (logical n : ℕ) (ss : List (Slot F))
      → find_by_logical kind logical 0 ss ≡ none
      → logical_ids kind logical (suc n) ss ≡ logical_ids kind (suc logical) n ss
  unfolding logical_ids
  ids-none kind logical n ss e = ground (arith, e)

  pub ids-some :
      (kind : Kind) (logical n i : ℕ) (ss : List (Slot F)) (s : Slot F)
      → find_by_logical kind logical 0 ss ≡ some i
      → get_elem? ss i ≡ some s
      → logical_ids kind logical (suc n) ss ≡ s.io_id ∷ logical_ids kind (suc logical) n ss
  unfolding logical_ids
  ids-some kind logical n i ss s e f = ground (arith, e, f)

  pub count-length :
      (kind : Kind) (logical n : ℕ) (ss : List (Slot F))
      → count_logical kind logical n ss ≡ length (logical_ids kind logical n ss)
  unfolding count_logical logical_ids
  count-length kind logical zero ss = refl
  count-length kind logical (suc n) ss = elim (Option-cases (find_by_logical kind logical 0 ss)) [
    | inl missing ↦ ground (arith, missing, count-length kind (suc logical) n ss)
    | inr (i, found) ↦
        let (s, there, _) = find_by_logical-get kind logical ss i found in
        ground (arith, found, there, count-length kind (suc logical) n ss)
  ]

  pub seek-hit :
      (kind : Kind) (index logical n seen : ℕ) (ss : List (Slot F)) (id : ℕ)
      → seen ≤ index
      → get_elem? (logical_ids kind logical n ss) (index - seen) ≡ some id
      → (seek_logical kind index logical n seen ss).0 ≡ some id
  unfolding seek_logical logical_ids
  seek-hit kind index logical zero seen ss id h e = absurd (cc)
  seek-hit kind index logical (suc n) seen ss id h e =
      elim (Option-cases (find_by_logical kind logical 0 ss)) [
        | inl missing ↦
            let ids = ids-none kind logical n ss missing in
            let rest =
              seek-hit kind index (suc logical) n seen ss id h
                (sym (ap (λ l. get_elem? l (index - seen)) ids) ∙ e) in
            ground (arith, missing, rest)
        | inr (i, found) ↦
            let (s, there, _) = find_by_logical-get kind logical ss i found in
            let ids = ids-some kind logical n i ss s found there in
            let e' = sym (ap (λ l. get_elem? l (index - seen)) ids) ∙ e in
            elim (Bool-cases (seen == index)) [
              | inl here ↦
                  let mine : some s.io_id ≡ some id =
                    subst
                      (λ (d : ℕ).
                        get_elem? (s.io_id ∷ logical_ids kind (suc logical) n ss) d ≡ some id)
                      {x = index - seen} {y = 0} (ground arith) e' in
                  ground (arith, found, here, there, mine)
              | inr later ↦
                  let shifted =
                    subst
                      (λ (d : ℕ).
                        get_elem? (s.io_id ∷ logical_ids kind (suc logical) n ss) d ≡ some id)
                      {x = index - seen} {y = suc (index - suc seen)} (ground arith) e' in
                  let rest =
                    seek-hit kind index (suc logical) n (suc seen) ss id (ground arith) shifted in
                  ground (arith, found, later, rest)
            ]
      ]

  pub seek-miss :
      (kind : Kind) (index logical n seen : ℕ) (ss : List (Slot F))
      → seen + length (logical_ids kind logical n ss) ≤ index
      → seek_logical kind index logical n seen ss
        ≡ (none, seen + length (logical_ids kind logical n ss))
  unfolding seek_logical logical_ids
  seek-miss kind index logical zero seen ss h = ground arith
  seek-miss kind index logical (suc n) seen ss h =
      elim (Option-cases (find_by_logical kind logical 0 ss)) [
        | inl missing ↦ ground (arith, missing, seek-miss kind index (suc logical) n seen ss)
        | inr (i, found) ↦
            let (s, there, _) = find_by_logical-get kind logical ss i found in
            ground (arith, found, there, seek-miss kind index (suc logical) n (suc seen) ss)
      ]
