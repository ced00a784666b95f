-- ===== src/Startup/Passes.antt =====
-- The passes of `buildInitOrder` over all modules, and their end.
use flowio_waveshare_qwiic.Prelude.{
  ℕ, zero, suc, ◌+◌, ◌≤◌, ◌<◌, ◌≡◌, sym, ap, subst, ◌∙◌, ◌⊎◌, inl, inr, true, false, some, List, [],
  ◌∷◌, ◌++◌, ◌==◌, length, replicate, set, get_elem?, length-append, length-replicate, All, arith,
  Bool-cases, Option-cases,
}
use flowio_waveshare_qwiic.Startup.Manager.{Decl, Manager, add}
use flowio_waveshare_qwiic.Startup.Order.{
  deps_ok, Placing, place_one, place_from, run_passes, build_init_order,
}
use flowio_waveshare_qwiic.Startup.OrderLaws.{
  has, IsKeyed, InOrder, start, Listed, count_true, count_true-replicate, count_true-length,
  is_placed-replicate, is_placed-full, IsPlacing, Grows, Grows-trans, Grows-refl, place-IsPlacing,
}
use flowio_waveshare_qwiic.Prelude.{length-append}

place_one-lem :
    (mg : Manager) (i : ℕ) (m : Decl) (st t : Placing)
    → IsKeyed mg
    → get_elem? mg.modules i ≡ some m
    → IsPlacing mg st
    → place_one mg i m st ≡ some t
    → IsPlacing mg t × Grows st t
unfolding place_one
place_one-lem mg i m st t keyed g h e = elim (Option-cases (get_elem? st.placed i)) [
  | inl gone ↦
      let same : st ≡ t = ground arith in
      (subst (IsPlacing mg) same h, subst (Grows st) same (Grows-refl st))
  | inr (p, found) ↦ elim (Bool-cases p) [
    | inl on ↦
        let same : st ≡ t = ground arith in
        (subst (IsPlacing mg) same h, subst (Grows st) same (Grows-refl st))
    | inr off ↦
        let free : get_elem? st.placed i ≡ some false = found ∙ ap some off in
        elim (Option-cases (deps_ok mg st.placed m.deps)) [
          | inl missing ↦ absurd (ground arith)
          | inr (b, deps) ↦ elim (Bool-cases b) [
            | inr wait ↦
                let same : st ≡ t = ground arith in
                (subst (IsPlacing mg) same h, subst (Grows st) same (Grows-refl st))
            | inl ready ↦
                let u : Placing = record {
                  placed = set st.placed i true;
                  ordered = st.ordered ++ (m ∷ []);
                  progress = true;
                } in
                let same : u ≡ t = ground arith in
                let more : Grows st u = record {
                  keeps = omega (arith, length-append st.ordered (m ∷ []));
                  adds = inr (inr (omega (arith, length-append st.ordered (m ∷ []))));
                } in
                (
                  subst (IsPlacing mg) same
                      (place-IsPlacing mg i m st keyed g h free (deps ∙ ap some ready)),
                  subst (Grows st) same more,
                )
          ]
        ]
  ]
]

pub place_from-lem :
    (mg : Manager) (i : ℕ) (ms : List Decl) (st t : Placing)
    → IsKeyed mg
    → ((j : ℕ) → get_elem? mg.modules (i + j) ≡ get_elem? ms j)
    → IsPlacing mg st
    → place_from mg i ms st ≡ some t
    → IsPlacing mg t × Grows st t
unfolding place_from
place_from-lem mg i [] st t keyed at h e =
    let same : st ≡ t = ground arith in
    (subst (IsPlacing mg) same h, subst (Grows st) same (Grows-refl st))
place_from-lem mg i (m ∷ ms) st t keyed at h e = elim (Option-cases (place_one mg i m st)) [
  | inl gone ↦ absurd (ground arith)
  | inr (u, one) ↦
      let here : get_elem? mg.modules i ≡ some m =
        subst (λ k. get_elem? mg.modules k ≡ some m) (omega arith) (at 0) in
      let (h1, g1) = place_one-lem mg i m st u keyed here h one in
      let rest : place_from mg (suc i) ms u ≡ some t = ground arith in
      let (h2, g2) =
        place_from-lem mg (suc i) ms u t keyed
          (λ j. subst (λ k. get_elem? mg.modules k ≡ get_elem? ms j) (omega arith) (at (suc j))) h1
          rest in
      (h2, Grows-trans st u t g1 g2)
]

-- A state of the passes in which every module is placed, and its order.
record Done (mg : Manager) (xs : List Decl) : Type 0 where
  state : Placing
  placing : IsPlacing mg state
  same : state.ordered ≡ xs
  all : length xs ≡ length mg.modules

run_passes-Done :
    (n : ℕ) (mg : Manager) (st : Placing) (xs : List Decl)
    → IsKeyed mg
    → IsPlacing mg st
    → length mg.modules ≤ n + length st.ordered
    → run_passes n mg st ≡ some xs
    → Done mg xs
unfolding run_passes
run_passes-Done zero mg st xs keyed h enough e =
    let same : st.ordered ≡ xs = ground arith in
    let bound = count_true-length st.placed in
    let all : length st.ordered ≡ length mg.modules = omega (arith, h.count, h.size, bound) in
    record { state = st; placing = h; same = same; all = ap length (sym same) ∙ all }
run_passes-Done (suc n) mg st xs keyed h enough e =
    let fresh : Placing = record st { progress = false } in
    let h0 : IsPlacing mg fresh = record {
      in_order = h.in_order;
      listed = h.listed;
      size = h.size;
      count = h.count;
    } in
    elim (Option-cases (place_from mg 0 mg.modules fresh)) [
      | inl gone ↦ absurd (ground arith)
      | inr (t, pass) ↦
          let (h1, g1) =
            place_from-lem mg 0 mg.modules fresh t keyed
              (λ j. ap (get_elem? mg.modules) (omega arith)) h0 pass in
          elim (Bool-cases (length t.ordered == length mg.modules)) [
            | inl full ↦
                let same : t.ordered ≡ xs = ground arith in
                let all : length t.ordered ≡ length mg.modules = ground arith in
                record { state = t; placing = h1; same = same; all = ap length (sym same) ∙ all }
            | inr more ↦ elim (Bool-cases t.progress) [
              | inr stuck ↦ absurd (ground arith)
              | inl on ↦
                  let grew : length st.ordered < length t.ordered = ground (arith, g1.adds) in
                  run_passes-Done n mg t xs keyed h1 (omega arith) (ground arith)
            ]
          ]
    ]

All-has :
    (ms xs : List Decl) (P : (id : ℕ) → has id ms ≡ true → has id xs ≡ true)
    → All (λ m. has m.id xs ≡ true) ms
All-has [] xs P = tt
All-has (m ∷ ms) xs P = (P m.id (ground arith), All-has ms xs (λ id h. P id (ground arith)))

-- The state before the first pass.
pub initial-IsPlacing :
    (mg : Manager)
    → IsPlacing mg
        (record { placed = replicate (length mg.modules) false; ordered = []; progress = false })
unfolding Listed
initial-IsPlacing mg = record {
  in_order = start;
  listed = λ id p. absurd (ground (arith, is_placed-replicate id (length mg.modules) mg.modules));
  size = length-replicate (length mg.modules) false;
  count = sym (count_true-replicate (length mg.modules));
}

-- Where `buildInitOrder` succeeds, and the table by identifier is sound, every module stands after
-- all its dependencies, the order has as many modules as the manager, and none is left out.
pub build_init_order-InOrder :
    (mg : Manager) (xs : List Decl)
    → IsKeyed mg
    → build_init_order mg ≡ some xs
    → InOrder xs × (length xs ≡ length mg.modules) × All (λ m. has m.id xs ≡ true) mg.modules
unfolding build_init_order Listed
build_init_order-InOrder mg xs keyed e =
    let n = length mg.modules in
    let begin : Placing = record { placed = replicate n false; ordered = []; progress = false } in
    let done : Done mg xs =
      run_passes-Done n mg begin xs keyed (initial-IsPlacing mg) (omega arith) e in
    let st = done.state in
    let h = done.placing in
    let full : count_true st.placed ≡ length st.placed =
      omega (arith, h.count, h.size, done.all, ap length done.same) in
    (
      subst InOrder done.same h.in_order,
      done.all,
      All-has mg.modules xs (λ id p.
          subst (λ ys. has id ys ≡ true) done.same
            (h.listed id (is_placed-full id mg.modules st.placed h.size full p))),
    )

-- A registration keeps the table by identifier sound; a refused one changes nothing.
pub add-IsKeyed :
    (d : Decl) (mg : Manager)
    → IsKeyed mg
    → IsKeyed (add d mg).0 × (((add d mg).1 ≡ true) ⊎ ((add d mg).0 ≡ mg))
unfolding add IsKeyed
add-IsKeyed d mg keyed = ground arith
