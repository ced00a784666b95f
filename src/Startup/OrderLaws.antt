-- ===== src/Startup/OrderLaws.antt =====
-- Lemmas on `buildInitOrder`: the order so far, and the placing of one module.
use flowio_waveshare_qwiic.Prelude.{
  ℕ, zero, suc, ◌≤◌, ◌<◌, ◌≡◌, subst, ◌∙◌, ◌⊎◌, inl, inr, refl, Bool, true, false, ◌||◌, some, List,
  [], ◌∷◌, ◌++◌, ◌==◌, if◌then◌else◌, length, replicate, set, get_elem?, length-append, length-set,
  All, arith, Bool-cases, Option-cases,
}
use flowio_waveshare_qwiic.Startup.Manager.{Decl, Manager, is_valid_id, find_by_id}
use flowio_waveshare_qwiic.Startup.Order.{is_placed, deps_ok, Placing}

-- Whether a module with this identifier stands in a list.
abbrev pub has : ℕ → List Decl → Bool
has id [] = false
has id (m ∷ ms) = (m.id == id) || has id ms

has-append : (id : ℕ) (xs ys : List Decl) → has id (xs ++ ys) ≡ has id xs || has id ys
has-append id [] ys = refl
has-append id (x ∷ xs) ys = ground (arith, has-append id xs ys)

-- The table by identifier holds modules under their own identifiers.
unfoldable pub IsKeyed : Manager → Type 0
IsKeyed mg = (k : ℕ) (d : Decl) → mg.by_id k ≡ some d → d.id ≡ k

-- A dependency is met by a list: it is no identifier, or a module with it stands there.
abbrev pub Met : List Decl → ℕ → Type 0
Met xs d = (is_valid_id d ≡ false) ⊎ (has d xs ≡ true)

-- Every module of the list stands after its dependencies.
pub data InOrder : List Decl → Type 0 where
  start : InOrder []
  next : (xs : List Decl) (m : Decl) → InOrder xs → All (Met xs) m.deps → InOrder (xs ++ (m ∷ []))

-- Placed modules are in the order so far.
unfoldable pub Listed : Manager → List Bool → List Decl → Type 0
Listed mg placed xs = (id : ℕ) → is_placed id mg.modules placed ≡ true → has id xs ≡ true

deps_ok-Met :
    (mg : Manager) (placed : List Bool) (xs : List Decl) (ds : List ℕ)
    → IsKeyed mg
    → Listed mg placed xs
    → deps_ok mg placed ds ≡ some true
    → All (Met xs) ds
unfolding deps_ok find_by_id IsKeyed Listed
deps_ok-Met mg placed xs [] keyed listed h = tt
deps_ok-Met mg placed xs (d ∷ ds) keyed listed h = elim (Bool-cases (is_valid_id d)) [
  | inr bad ↦ (inl bad, deps_ok-Met mg placed xs ds keyed listed (ground arith))
  | inl good ↦ elim (Option-cases (mg.by_id d)) [
    | inl gone ↦ absurd (ground arith)
    | inr (dep, found) ↦
        let own : dep.id ≡ d = keyed d dep found in
        let p : is_placed dep.id mg.modules placed ≡ true = ground arith in
        (
          inr (subst (λ k. has k xs ≡ true) own (listed dep.id p)),
          deps_ok-Met mg placed xs ds keyed listed (ground arith),
        )
  ]
]

is_placed-set :
    (id i : ℕ) (m : Decl) (ms : List Decl) (ps : List Bool)
    → get_elem? ms i ≡ some m
    → is_placed id ms (set ps i true) ≡ true
    → (is_placed id ms ps ≡ true) ⊎ (m.id ≡ id)
unfolding is_placed
is_placed-set id i m [] ps g h = absurd (cc)
is_placed-set id i m (x ∷ ms) [] g h = absurd (cc)
is_placed-set id zero m (x ∷ ms) (p ∷ ps) g h = ground arith
is_placed-set id (suc i) m (x ∷ ms) (p ∷ ps) g h = elim (Bool-cases (x.id == id)) [
  | inl e ↦ inl (ground arith)
  | inr e ↦ elim (is_placed-set id i m ms ps g (ground arith)) [
    | inl k ↦ inl (ground arith)
    | inr k ↦ inr k
  ]
]

-- The number of modules that are placed.
abbrev pub count_true : List Bool → ℕ
count_true [] = 0
count_true (p ∷ ps) = if p then suc (count_true ps) else count_true ps

count_true-set :
    (ps : List Bool) (i : ℕ)
    → get_elem? ps i ≡ some false
    → count_true (set ps i true) ≡ suc (count_true ps)
count_true-set [] i g = absurd (cc)
count_true-set (p ∷ ps) zero g = ground arith
count_true-set (p ∷ ps) (suc i) g = ground (arith, count_true-set ps i g)

pub count_true-replicate : (n : ℕ) → count_true (replicate n false) ≡ 0
count_true-replicate zero = refl
count_true-replicate (suc n) = count_true-replicate n

pub count_true-length : (ps : List Bool) → count_true ps ≤ length ps
count_true-length [] = omega arith
count_true-length (p ∷ ps) = ground (arith, count_true-length ps)

pub is_placed-replicate : (id n : ℕ) (ms : List Decl) → is_placed id ms (replicate n false) ≡ false
unfolding is_placed
is_placed-replicate id n [] = refl
is_placed-replicate id zero (m ∷ ms) = refl
is_placed-replicate id (suc n) (m ∷ ms) = ground (arith, is_placed-replicate id n ms)

-- With all placed, a module that stands among `ms` is placed.
pub is_placed-full :
    (id : ℕ) (ms : List Decl) (ps : List Bool)
    → length ps ≡ length ms
    → count_true ps ≡ length ps
    → has id ms ≡ true
    → is_placed id ms ps ≡ true
unfolding is_placed
is_placed-full id [] ps e full h = absurd (cc)
is_placed-full id (m ∷ ms) [] e full h = absurd (omega arith)
is_placed-full id (m ∷ ms) (p ∷ ps) e full h =
    let bound = count_true-length ps in
    elim (Bool-cases p) [
      | inr q ↦ absurd (ground arith)
      | inl q ↦ elim (Bool-cases (m.id == id)) [
        | inl k ↦ ground arith
        | inr k ↦
            let r = is_placed-full id ms ps (omega arith) (ground arith) (ground arith) in
            ground arith
      ]
    ]

-- The state of the passes: what is placed is in order, and counted.
pub record IsPlacing (mg : Manager) (st : Placing) : Type 0 where
  pub in_order : InOrder st.ordered
  pub listed : Listed mg st.placed st.ordered
  pub size : length st.placed ≡ length mg.modules
  pub count : length st.ordered ≡ count_true st.placed

-- A step adds to the order, and does so if it reports progress that was not there before.
pub record Grows (s t : Placing) : Type 0 where
  pub keeps : length s.ordered ≤ length t.ordered
  pub adds : (t.progress ≡ false) ⊎ ((s.progress ≡ true) ⊎ (length s.ordered < length t.ordered))

pub Grows-trans : (s t u : Placing) → Grows s t → Grows t u → Grows s u
Grows-trans s t u h k = record {
  keeps = ground (arith, h.keeps, k.keeps);
  adds = ground (arith, h.keeps, k.keeps, h.adds, k.adds);
}

pub Grows-refl : (s : Placing) → Grows s s
Grows-refl s = record { keeps = omega arith; adds = ground arith }

pub place-IsPlacing :
    (mg : Manager) (i : ℕ) (m : Decl) (st : Placing)
    → IsKeyed mg
    → get_elem? mg.modules i ≡ some m
    → IsPlacing mg st
    → get_elem? st.placed i ≡ some false
    → deps_ok mg st.placed m.deps ≡ some true
    → IsPlacing mg (record {
      placed = set st.placed i true;
      ordered = st.ordered ++ (m ∷ []);
      progress = true;
    })
unfolding Listed
place-IsPlacing mg i m st keyed g h free ok = record {
  in_order =
      next st.ordered m h.in_order (deps_ok-Met mg st.placed st.ordered m.deps keyed h.listed ok);
  listed = λ id p. elim (is_placed-set id i m mg.modules st.placed g p) [
    | inl old ↦ ground (arith, has-append id st.ordered (m ∷ []), h.listed id old)
    | inr new ↦ ground (arith, has-append id st.ordered (m ∷ []))
  ];
  size = length-set st.placed i true ∙ h.size;
  count =
      omega (arith, length-append st.ordered (m ∷ []), count_true-set st.placed i free, h.count);
}
