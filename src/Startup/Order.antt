-- ===== src/Startup/Order.antt =====
-- ModuleManager.cpp: `buildInitOrder`, which places each module after its dependencies.
use flowio_waveshare_qwiic.Prelude.{
  ℕ, zero, suc, Bool, true, false, not, Option, none, some, List, [], ◌∷◌, ◌++◌, ◌==◌,
  if◌then◌else◌, length, replicate, set, get_elem?,
}
use flowio_waveshare_qwiic.Startup.Manager.{Decl, Manager, is_valid_id, find_by_id}

-- The loop over `modules` that looks `dep` up in `placed`. Modules are told apart by identifier.
unfoldable pub is_placed : ℕ → List Decl → List Bool → Bool
is_placed id [] ps = false
is_placed id (m ∷ ms) [] = false
is_placed id (m ∷ ms) (p ∷ ps) = if m.id == id then p else is_placed id ms ps

-- The loop over a module's dependencies; `none` is a missing one.
unfoldable pub deps_ok : Manager → List Bool → List ℕ → Option Bool
deps_ok mg placed [] = some true
deps_ok mg placed (d ∷ ds) =
    let rest = deps_ok mg placed ds in
    if not (is_valid_id d) then rest else elim (find_by_id d mg) [
      | none ↦ none
      | some dep ↦ if is_placed dep.id mg.modules placed then rest else some false
    ]

-- `placed`, `ordered` and `progress`.
pub record Placing : Type 0 where
  pub placed : List Bool
  pub ordered : List Decl
  pub progress : Bool

-- One round of the inner loop.
unfoldable pub place_one : Manager → ℕ → Decl → Placing → Option Placing
place_one mg i m st = elim (get_elem? st.placed i) [
  | none ↦ some st
  | some true ↦ some st
  | some false ↦ elim (deps_ok mg st.placed m.deps) [
    | none ↦ none
    | some false ↦ some st
    | some true ↦ some (record {
      placed = set st.placed i true;
      ordered = st.ordered ++ (m ∷ []);
      progress = true;
    })
  ]
]

-- The inner loop from module `i` on.
unfoldable pub place_from : Manager → ℕ → List Decl → Placing → Option Placing
place_from mg i [] st = some st
place_from mg i (m ∷ ms) st = elim (place_one mg i m st) [
  | none ↦ none
  | some st' ↦ place_from mg (suc i) ms st'
]

-- The passes that are left; `none` is the return of false.
unfoldable pub run_passes : ℕ → Manager → Placing → Option (List Decl)
run_passes zero mg st = some st.ordered
run_passes (suc n) mg st = elim (place_from mg 0 mg.modules (record st { progress = false })) [
  | none ↦ none
  | some st' ↦
      let rest = run_passes n mg st' in
      if length st'.ordered == length mg.modules
      then some st'.ordered
      else if not st'.progress
      then none
      else rest
]

-- `buildInitOrder`: at most a pass for each module.
unfoldable pub build_init_order : Manager → Option (List Decl)
build_init_order mg =
    run_passes (length mg.modules) mg
      (record { placed = replicate (length mg.modules) false; ordered = []; progress = false })
