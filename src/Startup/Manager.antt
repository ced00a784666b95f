-- ===== src/Startup/Manager.antt =====
-- ModuleManager.cpp: the registered modules.
use flowio_waveshare_qwiic.Prelude.{
  ℕ, Bool, true, false, not, ◌&&◌, ◌||◌, Option, none, some, List, [], ◌∷◌, ◌++◌, ltb, leb, ◌==◌,
  ◌!=◌, if◌then◌else◌, length,
}

-- What the manager reads of a module: its identifier and its dependencies.
pub record Decl : Type 0 where
  pub id : ℕ
  pub deps : List ℕ

-- `kModuleIdCount`; `ModuleId::Unknown` is 0.
abbrev pub module_id_count : ℕ
module_id_count = 32

-- `isValidModuleId`
unfoldable pub is_valid_id : ℕ → Bool
is_valid_id id = (id != 0) && ltb id module_id_count

-- `Limits::Core::Capacity::MaxModules`
abbrev pub max_modules : ℕ
max_modules = 25

-- `modules` up to `count`, and `modulesById`.
pub record Manager : Type 0 where
  pub modules : List Decl
  pub by_id : ℕ → Option Decl

unfoldable pub find_by_id : ℕ → Manager → Option Decl
unfolding is_valid_id
find_by_id id m = if not (is_valid_id id) then none else m.by_id id

-- `add`, of a module that is not null.
unfoldable pub add : Decl → Manager → Manager × Bool
unfolding is_valid_id find_by_id
add d m =
    if not (is_valid_id d.id) || leb max_modules (length m.modules)
    then (m, false)
    else elim (find_by_id d.id m) [
      | some old ↦ (m, false)
      | none ↦ (
        record {
          modules = m.modules ++ (d ∷ []);
          by_id = λ k. if k == d.id then some d else m.by_id k;
        },
        true,
      )
    ]
