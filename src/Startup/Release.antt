-- ===== src/Startup/Release.antt =====
-- ModuleManager.cpp: the staged release of the modules, `tickStartup`.
use flowio_waveshare_qwiic.Prelude.{
  ℕ, suc, Bool, true, false, not, ◌&&◌, ◌||◌, Option, none, some, List, [], ◌∷◌, leb, ltb, ◌!=◌,
  if◌then◌else◌, set, get_elem?, sub32,
}
use flowio_waveshare_qwiic.Startup.Manager.{Decl, is_valid_id}
use flowio_waveshare_qwiic.Startup.Order.{is_placed}

-- `ModuleTaskSpec`, what `isValidTaskSpec` tests.
pub record TaskSpec : Type 0 where
  pub has_name : Bool
  pub stack_size : ℕ
  pub has_entry : Bool

-- `isValidTaskSpec`
unfoldable pub is_valid_task : TaskSpec → Bool
is_valid_task t = t.has_name && ((t.stack_size != 0) && t.has_entry)

-- `Limits::Core::Capacity::MaxModuleTasks`
abbrev pub max_module_tasks : ℕ
max_module_tasks = 32

-- What the release asks of a module and of the system: its delay, its tasks (`none` where it
-- declares tasks and has no table of them), its `onStart`, and the creation of a task.
pub record Host : Type 1 where
  pub World : Type 0
  pub start_delay_ms : Decl → ℕ
  pub tasks : Decl → Option (List TaskSpec)
  pub on_start : Decl → World → World
  pub create_task : Decl → TaskSpec → World → Bool × World
  -- the profile that releases one module in a tick
  pub one_at_a_time : Bool

module _ (h : Host) where
  open h use {World, start_delay_ms, tasks, on_start, create_task, one_at_a_time}

  -- `ordered`, `startupStartedMask_` bit by bit, `taskEntryCount`, the epoch and the flags.
  pub record Sequencer : Type 0 where
    pub ordered : List Decl
    pub started : List Bool
    pub task_count : ℕ
    pub epoch_ms : ℕ
    pub prepared : Bool
    pub active : Bool
    pub failed : Bool
    pub world : World

  -- `dependenciesStarted_`: the loop over `ordered` is that of `is_placed`.
  unfoldable pub deps_started : List Decl → List Bool → List ℕ → Bool
  deps_started ordered started [] = true
  deps_started ordered started (d ∷ ds) =
      (not (is_valid_id d) || is_placed d ordered started) && deps_started ordered started ds

  -- The loop over the tasks of `startModule_`: its success, the count of tasks, and the world.
  unfoldable pub start_tasks : Decl → List TaskSpec → ℕ → World → Bool × ℕ × World
  start_tasks m [] count w = (true, count, w)
  start_tasks m (t ∷ ts) count w =
      let (created, w1) = create_task m t w in
      let rest = start_tasks m ts (suc count) w1 in
      if not (is_valid_task t) || leb max_module_tasks count
      then (false, count, w)
      else if not created
      then (false, count, w1)
      else rest

  -- `startModule_`, for the module `m` at index `i`.
  unfoldable pub start_module : ℕ → Decl → Sequencer → Sequencer × Bool
  unfolding deps_started
  start_module i m s = elim (get_elem? s.started i) [
    | none ↦ (s, false)
    | some true ↦ (s, true)
    | some false ↦
        if not (deps_started s.ordered s.started m.deps)
        then (s, true)
        else (let w : World = on_start m s.world in
            elim (tasks m) [
              | none ↦ (record s { world = w }, false)
              | some ts ↦
                  let (done, count, w1) = start_tasks m ts s.task_count w in
                  if done
                  then (
                    record s { started = set s.started i true; task_count = count; world = w1 },
                    true,
                  )
                  else (record s { task_count = count; world = w1 }, false)
            ])
  ]

  -- The loop of `tickStartup` from index `i` on: `allStarted`, or false in the second part where a
  -- start failed.
  unfoldable pub release_from : ℕ → ℕ → List Decl → Bool → Sequencer → Sequencer × Bool × Bool
  release_from elapsed i [] all s = (s, true, all)
  release_from elapsed i (m ∷ ms) all s = elim (get_elem? s.started i) [
    | some true ↦ release_from elapsed (suc i) ms all s
    | _ ↦
        if ltb elapsed (start_delay_ms m)
        then release_from elapsed (suc i) ms false s
        else (let (s1, done) = start_module i m s in
            if not done then (s1, false, false) else elim (get_elem? s1.started i) [
              | some true ↦
                  if one_at_a_time
                  then (s1, true, false)
                  else release_from elapsed (suc i) ms all s1
              | _ ↦ release_from elapsed (suc i) ms false s1
            ])
  ]

  -- `tickStartup`
  unfoldable pub tick_startup : ℕ → Sequencer → Sequencer × Bool
  tick_startup now s =
      if not s.prepared
      then (s, true)
      else if s.failed
      then (s, false)
      else if not s.active
      then (s, true)
      else (let (s1, ok, all) = release_from (sub32 now s.epoch_ms) 0 s.ordered true s in
          if not ok
          then (record s1 { failed = true; active = false }, false)
          else if all
          then (record s1 { active = false }, true)
          else (s1, true))
