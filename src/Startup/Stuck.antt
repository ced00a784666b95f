-- ===== src/Startup/Stuck.antt =====
-- What a pass of `buildInitOrder` finds when the dependencies have no cycle.
use flowio_waveshare_qwiic.Prelude.{
  ℕ, zero, suc, ◌+◌, ◌<◌, ◌≡◌, ◌≢◌, subst, ◌∙◌, ◌⊎◌, inl, inr, refl, Bool, true, false, none, some,
  List, [], ◌∷◌, ◌==◌, length, get_elem?, All, arith, Bool-cases, Option-cases,
}
use flowio_waveshare_qwiic.Startup.Manager.{Decl, Manager, is_valid_id, find_by_id}
use flowio_waveshare_qwiic.Startup.Order.{is_placed, deps_ok, Placing, place_one, place_from}
use flowio_waveshare_qwiic.Startup.OrderLaws.{has}

-- A dependency that is an identifier leads to a registered module of a lower rank.
abbrev pub Below : (ℕ → ℕ) → Manager → ℕ → ℕ → Type 0
Below rank mg r d =
    (is_valid_id d ≡ false)
    ⊎ ((dep : Decl) × (mg.by_id d ≡ some dep) × (has dep.id mg.modules ≡ true) × (rank dep.id < r))

-- The dependencies are there and go down in rank: there is no cycle.
unfoldable pub IsAcyclic : (ℕ → ℕ) → Manager → Type 0
IsAcyclic rank mg =
    (i : ℕ) (m : Decl) → get_elem? mg.modules i ≡ some m → All (Below rank mg (rank m.id)) m.deps

-- No dependency is missing.
deps_ok-some :
    (rank : ℕ → ℕ) (mg : Manager) (r : ℕ) (placed : List Bool) (ds : List ℕ)
    → All (Below rank mg r) ds
    → deps_ok mg placed ds ≢ none
unfolding deps_ok find_by_id
deps_ok-some rank mg r placed [] h e = absurd (cc)
deps_ok-some rank mg r placed (d ∷ ds) (b, h) e =
    let rest = deps_ok-some rank mg r placed ds h in
    elim b [
      | inl bad ↦ rest (ground arith)
      | inr (dep, found, stands, low) ↦ elim (Bool-cases (is_valid_id d)) [
        | inr bad ↦ rest (ground arith)
        | inl good ↦ elim (Bool-cases (is_placed dep.id mg.modules placed)) [
          | inl p ↦ rest (ground arith)
          | inr p ↦ absurd (ground arith)
        ]
      ]
    ]

-- With every module of a lower rank placed, the dependencies are met.
pub deps_ok-ready :
    (rank : ℕ → ℕ) (mg : Manager) (r : ℕ) (placed : List Bool) (ds : List ℕ)
    → All (Below rank mg r) ds
    → ((id : ℕ) → has id mg.modules ≡ true → rank id < r → is_placed id mg.modules placed ≡ true)
    → deps_ok mg placed ds ≡ some true
unfolding deps_ok find_by_id
deps_ok-ready rank mg r placed [] h low = refl
deps_ok-ready rank mg r placed (d ∷ ds) (b, h) low =
    let rest = deps_ok-ready rank mg r placed ds h low in
    elim b [
      | inl bad ↦ ground arith
      | inr (dep, found, stands, less) ↦ let p = low dep.id stands less in ground arith
    ]

-- Where a module stands, and whether it is placed.
pub is_placed-at :
    (id : ℕ) (ms : List Decl) (ps : List Bool)
    → length ps ≡ length ms
    → has id ms ≡ true
    → (j : ℕ) × (m : Decl) × (get_elem? ms j ≡ some m)
      × (m.id ≡ id)
      × (get_elem? ps j ≡ some (is_placed id ms ps))
unfolding is_placed
is_placed-at id [] ps e h = absurd (cc)
is_placed-at id (m ∷ ms) [] e h = absurd (omega arith)
is_placed-at id (m ∷ ms) (p ∷ ps) e h = elim (Bool-cases (m.id == id)) [
  | inl k ↦ (0, m, refl, ground arith, ground arith)
  | inr k ↦
      let (j, m', at, own, p') = is_placed-at id ms ps (omega arith) (ground arith) in
      (suc j, m', at, own, ground arith)
]

-- A step that reports no progress changed nothing, and its module was placed or not ready.
place_one-stuck :
    (mg : Manager) (i : ℕ) (m : Decl) (st u : Placing)
    → place_one mg i m st ≡ some u
    → u.progress ≡ false
    → (u ≡ st) × (get_elem? st.placed i ≡ some false → deps_ok mg st.placed m.deps ≢ some true)
unfolding place_one
place_one-stuck mg i m st u e no_progress = elim (Option-cases (get_elem? st.placed i)) [
  | inl gone ↦ (ground arith, λ f r. absurd (ground arith))
  | inr (p, found) ↦ elim (Bool-cases p) [
    | inl on ↦ (ground arith, λ f r. absurd (ground arith))
    | inr off ↦ elim (Option-cases (deps_ok mg st.placed m.deps)) [
      | inl missing ↦ absurd (ground arith)
      | inr (b, deps) ↦ elim (Bool-cases b) [
        | inl ready ↦ absurd (ground arith)
        | inr wait ↦ (ground arith, λ f r. absurd (ground arith))
      ]
    ]
  ]
]

place_one-progress :
    (mg : Manager) (i : ℕ) (m : Decl) (st u : Placing)
    → place_one mg i m st ≡ some u
    → st.progress ≡ true
    → u.progress ≡ true
unfolding place_one
place_one-progress mg i m st u e on = ground arith

place_from-progress :
    (mg : Manager) (i : ℕ) (ms : List Decl) (st t : Placing)
    → place_from mg i ms st ≡ some t
    → st.progress ≡ true
    → t.progress ≡ true
unfolding place_from
place_from-progress mg i [] st t e on = ground arith
place_from-progress mg i (m ∷ ms) st t e on = elim (Option-cases (place_one mg i m st)) [
  | inl gone ↦ absurd (ground arith)
  | inr (u, one) ↦
      place_from-progress mg (suc i) ms u t (ground arith) (place_one-progress mg i m st u one on)
]

-- Among `ms`, whose first has index `i`, no module that is not placed is ready.
abbrev pub NotReady : Manager → List Bool → ℕ → List Decl → Type 0
NotReady mg placed i ms =
    (j : ℕ) (d : Decl)
    → get_elem? ms j ≡ some d
    → get_elem? placed (i + j) ≡ some false
    → deps_ok mg placed d.deps ≢ some true

NotReady-cons :
    (mg : Manager) (placed : List Bool) (i : ℕ) (m : Decl) (ms : List Decl)
    → (get_elem? placed i ≡ some false → deps_ok mg placed m.deps ≢ some true)
    → NotReady mg placed (suc i) ms
    → NotReady mg placed i (m ∷ ms)
NotReady-cons mg placed i m ms first later zero d g f =
    let same : m ≡ d = ground arith in
    subst (λ x. deps_ok mg placed x.deps ≢ some true) same
      (first (subst (λ k. get_elem? placed k ≡ some false) (omega arith) f))
NotReady-cons mg placed i m ms first later (suc j) d g f =
    later j d g (subst (λ k. get_elem? placed k ≡ some false) (omega arith) f)

-- A pass with no progress changed nothing, and found no module ready.
pub place_from-stuck :
    (mg : Manager) (i : ℕ) (ms : List Decl) (st t : Placing)
    → place_from mg i ms st ≡ some t
    → t.progress ≡ false
    → (t ≡ st) × NotReady mg st.placed i ms
unfolding place_from
place_from-stuck mg i [] st t e no_progress = (ground arith, λ j m g. absurd (cc))
place_from-stuck mg i (m ∷ ms) st t e no_progress = elim (Option-cases (place_one mg i m st)) [
  | inl gone ↦ absurd (ground arith)
  | inr (u, one) ↦
      let rest : place_from mg (suc i) ms u ≡ some t = ground arith in
      elim (Bool-cases u.progress) [
        | inl on ↦ absurd (ground (arith, place_from-progress mg (suc i) ms u t rest on))
        | inr off ↦
            let (same, first) = place_one-stuck mg i m st u one off in
            let (same', later) = place_from-stuck mg (suc i) ms u t rest no_progress in
            (
              same' ∙ same,
              NotReady-cons mg st.placed i m ms first
                  (subst (λ x. NotReady mg x.placed (suc i) ms) same later),
            )
      ]
]

-- A pass over registered modules finds no dependency missing.
pub place_from-some :
    (rank : ℕ → ℕ) (mg : Manager) (i : ℕ) (ms : List Decl) (st : Placing)
    → All (λ m. All (Below rank mg (rank m.id)) m.deps) ms
    → place_from mg i ms st ≢ none
unfolding place_from place_one
place_from-some rank mg i [] st h e = absurd (cc)
place_from-some rank mg i (m ∷ ms) st (low, h) e =
    let found = deps_ok-some rank mg (rank m.id) st.placed m.deps low in
    elim (Option-cases (place_one mg i m st)) [
      | inl gone ↦ found (ground arith)
      | inr (u, one) ↦ place_from-some rank mg (suc i) ms u h (ground arith)
    ]
