-- ===== src/Startup/Tests.antt =====
-- Instances of the theorems of start-up, at three modules that are registered out of order.
use flowio_waveshare_qwiic.Prelude.{
  ◌≡◌, inl, inr, refl, true, none, some, [], ◌∷◌, ◌==◌, if◌then◌else◌, length, All, arith, subst,
  ◌≢◌, zero, suc, List, false, get_elem?, ℕ,
}
use mathlib.Core.Option.{some-injective}
use flowio_waveshare_qwiic.Startup.Manager.{Decl, Manager, is_valid_id, find_by_id}
use flowio_waveshare_qwiic.Startup.Order.{
  is_placed, deps_ok, place_one, place_from, run_passes, build_init_order,
}
use flowio_waveshare_qwiic.Startup.OrderLaws.{has, IsKeyed, InOrder}
use flowio_waveshare_qwiic.Startup.Passes.{build_init_order-InOrder}
use flowio_waveshare_qwiic.Startup.Stuck.{Below, IsAcyclic}
use flowio_waveshare_qwiic.Startup.Release.{
  Host, Sequencer, deps_started, start_tasks, start_module, release_from, tick_startup,
}
use flowio_waveshare_qwiic.Startup.ReleaseLaws.{Running, ticks, ticks-Running}
use flowio_waveshare_qwiic.Startup.Success.{build_init_order-some}

abbrev logic : Decl
logic = record { id = 24; deps = 23 ∷ 5 ∷ [] }

abbrev device : Decl
device = record { id = 23; deps = 5 ∷ 0 ∷ [] }

abbrev bus : Decl
bus = record { id = 5; deps = [] }

abbrev trio : Manager
trio = record {
  modules = logic ∷ device ∷ bus ∷ [];
  by_id = λ k.
      if k == 5
      then some bus
      else if k == 23
      then some device
      else if k == 24
      then some logic
      else none;
}

trio-IsKeyed : IsKeyed trio
unfolding IsKeyed
trio-IsKeyed = ground arith

trio_order : build_init_order trio ≡ some (bus ∷ device ∷ logic ∷ [])
unfolding build_init_order run_passes place_from place_one deps_ok is_placed find_by_id is_valid_id
trio_order = refl

-- Two modules that need each other.
abbrev cycle : Manager
cycle = record {
  modules = record device { deps = 24 ∷ [] } ∷ record logic { deps = 23 ∷ [] } ∷ [];
  by_id = λ k.
      if k == 23
      then some (record device { deps = 24 ∷ [] })
      else if k == 24
      then some (record logic { deps = 23 ∷ [] })
      else none;
}

cycle_order : build_init_order cycle ≡ none
unfolding build_init_order run_passes place_from place_one deps_ok is_placed find_by_id is_valid_id
cycle_order = refl

build_init_order-InOrder_example :
    InOrder (bus ∷ device ∷ logic ∷ [])
    × (length (bus ∷ device ∷ logic ∷ []) ≡ 3)
    × All (λ m. has m.id (bus ∷ device ∷ logic ∷ []) ≡ true) (logic ∷ device ∷ bus ∷ [])
build_init_order-InOrder_example =
    build_init_order-InOrder trio (bus ∷ device ∷ logic ∷ []) trio-IsKeyed trio_order

trio-IsAcyclic : IsAcyclic (λ k. k) trio
unfolding IsAcyclic is_valid_id
trio-IsAcyclic zero m g =
    subst (λ x. All (Below (λ k. k) trio x.id) x.deps) (some-injective logic m g)
      (inr (device, refl, refl, omega arith), (inr (bus, refl, refl, omega arith), tt))
trio-IsAcyclic (suc zero) m g =
    subst (λ x. All (Below (λ k. k) trio x.id) x.deps) (some-injective device m g)
      (inr (bus, refl, refl, omega arith), (inl refl, tt))
trio-IsAcyclic (suc (suc zero)) m g =
    subst (λ x. All (Below (λ k. k) trio x.id) x.deps) (some-injective bus m g) tt
trio-IsAcyclic (suc (suc (suc i))) m g = absurd (cc)

build_init_order-some_example : build_init_order trio ≢ none
build_init_order-some_example = build_init_order-some (λ k. k) trio trio-IsKeyed trio-IsAcyclic

-- The pool logic waits for ten seconds; the others start at once.
abbrev host : Host
host = record {
  World = List ℕ;
  start_delay_ms = λ d. if d.id == 24 then 10000 else 0;
  tasks = λ d. some [];
  on_start = λ d w. d.id ∷ w;
  create_task = λ d t w. (true, w);
  one_at_a_time = false;
}

abbrev waiting : Sequencer host
waiting = record {
  ordered = bus ∷ device ∷ logic ∷ [];
  started = false ∷ false ∷ false ∷ [];
  task_count = 0;
  epoch_ms = 500;
  prepared = true;
  active = true;
  failed = false;
  world = [];
}

-- A second after the epoch two of the three have started; after eleven seconds all have.
first_tick : (tick_startup host 1500 waiting).0.world ≡ 23 ∷ 5 ∷ []
unfolding tick_startup release_from start_module start_tasks deps_started is_placed is_valid_id
first_tick = refl

second_tick :
    (tick_startup host 11500 (tick_startup host 1500 waiting).0).0.started ≡ true ∷ true ∷ true ∷ []
unfolding tick_startup release_from start_module start_tasks deps_started is_placed is_valid_id
second_tick = refl

idle : (j : ℕ) → get_elem? waiting.started j ≢ some true
idle zero e = absurd (cc)
idle (suc zero) e = absurd (cc)
idle (suc (suc zero)) e = absurd (cc)
idle (suc (suc (suc j))) e = absurd (cc)

first_run :
    (get_elem? (ticks host (1500 ∷ []) waiting).ordered 1 ≡ some device)
    × (get_elem? (ticks host (1500 ∷ []) waiting).started 1 ≡ some true)
unfolding ticks tick_startup release_from start_module start_tasks deps_started is_placed
    is_valid_id
first_run = (refl, refl)

ticks-Running_example : All (Running host (ticks host (1500 ∷ []) waiting)) (5 ∷ 0 ∷ [])
ticks-Running_example = ticks-Running host (1500 ∷ []) waiting 1 device idle first_run.0 first_run.1

first_started : get_elem? (tick_startup host 1500 waiting).0.started 1 ≡ some true
unfolding tick_startup release_from start_module start_tasks deps_started is_placed is_valid_id
first_started = refl
