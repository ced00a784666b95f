-- ===== src/Startup/Success.antt =====
-- `buildInitOrder` where the dependencies have no cycle.
use flowio_waveshare_qwiic.Prelude.{
  ℕ, zero, suc, ◌≤◌, ◌<◌, ◌≡◌, ◌≢◌, sym, ap, subst, ◌∙◌, inl, inr, refl, Bool, true, false, none,
  some, List, [], ◌∷◌, ◌==◌, length, get_elem?, get_elem?-lt, All, arith, Bool-cases, Option-cases,
}
use flowio_waveshare_qwiic.Startup.Manager.{Decl, Manager}
use flowio_waveshare_qwiic.Startup.Order.{
  is_placed, Placing, place_from, run_passes, build_init_order,
}
use flowio_waveshare_qwiic.Startup.OrderLaws.{has, IsKeyed, count_true, IsPlacing}
use flowio_waveshare_qwiic.Startup.Passes.{place_from-lem, initial-IsPlacing}
use flowio_waveshare_qwiic.Startup.Stuck.{
  Below, IsAcyclic, NotReady, deps_ok-ready, is_placed-at, place_from-stuck, place_from-some,
}

-- In a pass with no progress every module is placed, by induction on its rank.
stuck-placed :
    (rank : ℕ → ℕ) (mg : Manager) (placed : List Bool) (bound id : ℕ)
    → IsAcyclic rank mg
    → length placed ≡ length mg.modules
    → NotReady mg placed 0 mg.modules
    → has id mg.modules ≡ true
    → rank id < bound
    → is_placed id mg.modules placed ≡ true
unfolding IsAcyclic
stuck-placed rank mg placed zero id acyclic size wait stands low = absurd (omega arith)
stuck-placed rank mg placed (suc bound) id acyclic size wait stands low =
    let (j, m, at, own, p) = is_placed-at id mg.modules placed size stands in
    elim (Bool-cases (is_placed id mg.modules placed)) [
      | inl yes_ ↦ yes_
      | inr no_ ↦
          let less : rank m.id ≤ bound = subst (λ k. rank k ≤ bound) (sym own) (omega arith) in
          let ready =
            deps_ok-ready rank mg (rank m.id) placed m.deps (acyclic j m at)
              (λ k s l. stuck-placed rank mg placed bound k acyclic size wait s (omega arith)) in
          absurd (
            wait j m at
              (subst (λ k. get_elem? placed k ≡ some false) (omega arith) (p ∙ ap some no_)) ready)
    ]

get_elem?-none : (xs : List Decl) (j : ℕ) → get_elem? xs j ≡ none → j < length xs → ⊥
get_elem?-none [] j e h = omega arith
get_elem?-none (x ∷ xs) zero e h = cc
get_elem?-none (x ∷ xs) (suc j) e h = get_elem?-none xs j e (omega arith)

All-at :
    {P : Decl → Type 0} (xs : List Decl)
    → ((j : ℕ) (x : Decl) → get_elem? xs j ≡ some x → P x)
    → All P xs
All-at [] h = tt
All-at (x ∷ xs) h = (h 0 x refl, All-at xs (λ j. h (suc j)))

count_true-all :
    (ps : List Bool) → ((j : ℕ) → get_elem? ps j ≢ some false) → count_true ps ≡ length ps
count_true-all [] h = refl
count_true-all (p ∷ ps) h = elim (Bool-cases p) [
  | inl e ↦ ground (arith, count_true-all ps (λ j. h (suc j)))
  | inr e ↦ absurd (h 0 (ap some e))
]

-- So a pass with no progress has placed all modules.
stuck-full :
    (rank : ℕ → ℕ) (mg : Manager) (placed : List Bool)
    → IsAcyclic rank mg
    → length placed ≡ length mg.modules
    → NotReady mg placed 0 mg.modules
    → count_true placed ≡ length placed
unfolding IsAcyclic
stuck-full rank mg placed acyclic size wait = count_true-all placed (λ j f.
    elim (Option-cases (get_elem? mg.modules j)) [
      | inl gone ↦ absurd (
          get_elem?-none mg.modules j gone
            (subst (λ n. j < n) size (get_elem?-lt placed j false f)))
      | inr (m, at) ↦
          let ready =
            deps_ok-ready rank mg (rank m.id) placed m.deps (acyclic j m at)
              (λ k s l. stuck-placed rank mg placed (rank m.id) k acyclic size wait s l) in
          wait j m at (subst (λ k. get_elem? placed k ≡ some false) (omega arith) f) ready
    ])

run_passes-some :
    (rank : ℕ → ℕ) (n : ℕ) (mg : Manager) (st : Placing)
    → IsKeyed mg
    → IsAcyclic rank mg
    → All (λ m. All (Below rank mg (rank m.id)) m.deps) mg.modules
    → IsPlacing mg st
    → run_passes n mg st ≢ none
unfolding run_passes
run_passes-some rank zero mg st keyed acyclic each h e = absurd (cc)
run_passes-some rank (suc n) mg st keyed acyclic each h e =
    let fresh : Placing = record st { progress = false } in
    let h0 : IsPlacing mg fresh = record {
      in_order = h.in_order;
      listed = h.listed;
      size = h.size;
      count = h.count;
    } in
    elim (Option-cases (place_from mg 0 mg.modules fresh)) [
      | inl gone ↦ place_from-some rank mg 0 mg.modules fresh each gone
      | inr (t, pass) ↦
          let (h1, _) =
            place_from-lem mg 0 mg.modules fresh t keyed
              (λ j. ap (get_elem? mg.modules) (omega arith)) h0 pass in
          elim (Bool-cases (length t.ordered == length mg.modules)) [
            | inl full ↦ absurd (ground arith)
            | inr more ↦ elim (Bool-cases t.progress) [
              | inl on ↦ run_passes-some rank n mg t keyed acyclic each h1 (ground arith)
              | inr off ↦
                  let (same, wait) = place_from-stuck mg 0 mg.modules fresh t pass off in
                  let full = stuck-full rank mg fresh.placed acyclic h0.size wait in
                  let all : length t.ordered ≡ length mg.modules =
                    ap (λ x. length x.ordered) same ∙ (h0.count ∙ (full ∙ h0.size)) in
                  absurd (ground arith)
            ]
          ]
    ]

-- Where every dependency is an identifier of a registered module of a lower rank (so that there is
-- no cycle) or no identifier at all, and the table by identifier is sound, `buildInitOrder` does not
-- fail.
pub build_init_order-some :
    (rank : ℕ → ℕ) (mg : Manager) → IsKeyed mg → IsAcyclic rank mg → build_init_order mg ≢ none
unfolding build_init_order IsAcyclic
build_init_order-some rank mg keyed acyclic =
    run_passes-some rank (length mg.modules) mg _ keyed acyclic (All-at mg.modules acyclic)
      (initial-IsPlacing mg)
