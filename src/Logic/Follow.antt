-- ===== src/Logic/Follow.antt =====
-- The filtration window of the pool logic follows its slot of the scheduler.
mod Tests
use mathlib.Core.Option.{some-injective}
use flowio_waveshare_qwiic.Prelude.{
  ℕ, zero, suc, Bool, true, false, not, Option, none, some, List, [], ◌∷◌, ◌++◌, map, ◌≡◌, ◌<◌, ◌+◌,
  ◌&&◌, ◌==◌, leb, ltb, if◌then◌else◌, get_elem?, length, All, All-append, refl, sym, ap, subst,
  ◌∙◌, inl, inr, arith, Bool-cases,
}
use flowio_waveshare_qwiic.Time.Types.{
  Mode, one_shot_epoch, recurring_clock, Edge, trigger, start, stop, Pending, Payload, Runtime,
  Scheduler, LocalTime,
}
use flowio_waveshare_qwiic.Time.System.{is_active}
use flowio_waveshare_qwiic.Time.Tick.{
  Now, Post, follow_window, fire_once, visit_one_shot, visit_recurring, visit, payload, evaluate,
  tick_scheduler,
}
use flowio_waveshare_qwiic.Time.Listen.{heard, after_edge, post_one, posts, mask_from, visited}
use flowio_waveshare_qwiic.Time.Runs.{
  IsTable, evaluate_lem, tick-cases, tick-IsTable, run_ticks, run_ticks-heard, visited-get_elem?,
}
use flowio_waveshare_qwiic.Logic.Types.{Config, Plan, Logic, Services, slot_filtration_window}
use flowio_waveshare_qwiic.Logic.Lifecycle.{
  Lifecycle, LogicEvent, scheduled, on_event, on_scheduled, event_filtration_window,
}

-- Only the slot of the filtration window has its event.
abbrev pub Mine : ℕ → ℕ → Type 0
Mine event k = (event == event_filtration_window) ≡ (k == slot_filtration_window)

abbrev pub OwnsWindow : Scheduler → Type 0
OwnsWindow m = (k : ℕ) (s : Runtime) → get_elem? m.sched k ≡ some s → Mine s.def.event_id k

-- The same, slot by slot.
abbrev Owned : ℕ → List Runtime → Type 0
Owned from [] = Unit {0}
Owned from (s ∷ ss) = Mine s.def.event_id from × Owned (suc from) ss

Owned-Mine :
    (from : ℕ) (ss : List Runtime) (k : ℕ) (s : Runtime)
    → Owned from ss
    → get_elem? ss k ≡ some s
    → Mine s.def.event_id (from + k)
Owned-Mine from [] k s h e = absurd (cc)
Owned-Mine from (t ∷ ss) zero s h e =
    subst (λ (n : ℕ). Mine s.def.event_id n) {x = from} (omega arith)
      (subst (λ (r : Runtime). Mine r.def.event_id from) (some-injective _ _ e) h.0)
Owned-Mine from (t ∷ ss) (suc k) s h e =
    subst (λ (n : ℕ). Mine s.def.event_id n) {x = suc from + k} (omega arith)
      (Owned-Mine (suc from) ss k s h.1 e)

Owned-OwnsWindow : (m : Scheduler) → Owned 0 m.sched → OwnsWindow m
Owned-OwnsWindow m h k s e =
    subst (λ (n : ℕ). Mine s.def.event_id n) {x = 0 + k} (omega arith)
      (Owned-Mine 0 m.sched k s h e)

visit_recurring-def : (c : Now) (s : Runtime) → (visit_recurring c s).0.def ≡ s.def
unfolding visit_recurring follow_window fire_once
visit_recurring-def c s = ground arith

visit_one_shot-def : (c : Now) (s : Runtime) → (visit_one_shot c s).0.def ≡ s.def
unfolding visit_one_shot follow_window fire_once
visit_one_shot-def c s = ground arith

visit-def : (c : Now) (s : Runtime) → (visit c s).0.def ≡ s.def
unfolding visit
visit-def c s = ground (arith, visit_recurring-def c s, visit_one_shot-def c s)

-- What a listener of one event makes of the payloads.
unfoldable pub heard_event : ℕ → List Payload → Bool → Bool
heard_event id [] on = on
heard_event id (p ∷ ps) on =
    heard_event id ps (if p.event_id == id then after_edge p.edge on else on)

heard-heard_event :
    (ps : List Payload) (on : Bool)
    → All (λ p. Mine p.event_id p.slot) ps
    → heard_event event_filtration_window ps on ≡ heard slot_filtration_window ps on
unfolding heard_event heard
heard-heard_event [] on h = refl
heard-heard_event (p ∷ ps) on h =
    ap (λ b. heard_event event_filtration_window ps (if b then after_edge p.edge on else on)) h.0
    ∙ heard-heard_event ps _ h.1

post_one-Mine :
    (c : Now) (mask from : ℕ) (s : Runtime) (p : Post) (ps : List Pending)
    → Mine s.def.event_id from
    → All (λ p. Mine p.event_id p.slot) (map (payload mask) ps)
    → All (λ p. Mine p.event_id p.slot) (map (payload mask) (post_one c from s p ps))
unfolding post_one payload
post_one-Mine c mask from s none ps mine rest = rest
post_one-Mine c mask from s (some (e, r)) ps mine rest = (mine, rest)

posts-Mine :
    (c : Now) (mask from : ℕ) (ss : List Runtime)
    → ((k : ℕ) (s : Runtime) → get_elem? ss k ≡ some s → Mine s.def.event_id (from + k))
    → All (λ p. Mine p.event_id p.slot) (map (payload mask) (posts c from ss))
unfolding posts post_one payload
posts-Mine c mask from [] h = tt
posts-Mine c mask from (s ∷ ss) h =
    let rest = posts-Mine c mask (suc from) ss (λ k t e.
      subst (λ (n : ℕ). Mine t.def.event_id n) {x = from + suc k} (omega arith) (h (suc k) t e)) in
    let mine = subst (λ (n : ℕ). Mine s.def.event_id n) {x = from + 0} (omega arith) (h 0 s refl) in
    post_one-Mine c mask from s (visit c s).1 (posts c (suc from) ss) mine rest

module _ (v : Services) where
  open v use {F, World}

  -- The events of the scheduler, one after the other.
  unfoldable pub on_payloads :
      Config F → ℕ → List Payload → Lifecycle F → World → Lifecycle F × World
  on_payloads c now [] m w = (m, w)
  on_payloads c now (p ∷ ps) m w =
      let (m1, w1) = on_event v c now (scheduled p) m w in on_payloads c now ps m1 w1

  on_scheduled-window :
      (p : Payload) (m : Lifecycle F) (w : World)
      → m.logic.plan.continuous ≡ false
      → ((on_scheduled v p m w).0.logic.plan.continuous ≡ false)
        × ((on_scheduled v p m w).0.logic.plan.window_active ≡ (
            if p.event_id == event_filtration_window
            then after_edge p.edge m.logic.plan.window_active
            else m.logic.plan.window_active))
  unfolding on_scheduled
  on_scheduled-window p m w h = (ground (arith, h), ground (arith, h))

  on_event-window :
      (c : Config F) (now : ℕ) (p : Payload) (m : Lifecycle F) (w : World)
      → c.enabled ≡ true
      → m.logic.plan.continuous ≡ false
      → ((on_event v c now (scheduled p) m w).0.logic.plan.continuous ≡ false)
        × ((on_event v c now (scheduled p) m w).0.logic.plan.window_active ≡ (
            if p.event_id == event_filtration_window
            then after_edge p.edge m.logic.plan.window_active
            else m.logic.plan.window_active))
  unfolding on_event
  on_event-window c now p m w on h =
      let e : on_event v c now (scheduled p) m w ≡ on_scheduled v p m w = ground (arith, on) in
      subst
        (λ (q : Lifecycle F × World).
          (q.0.logic.plan.continuous ≡ false)
          × (q.0.logic.plan.window_active ≡ (
              if p.event_id == event_filtration_window
              then after_edge p.edge m.logic.plan.window_active
              else m.logic.plan.window_active)))
        (sym e) (on_scheduled-window p m w h)

  on_payloads-window :
      (c : Config F) (now : ℕ) (ps : List Payload) (m : Lifecycle F) (w : World)
      → c.enabled ≡ true
      → m.logic.plan.continuous ≡ false
      → (on_payloads c now ps m w).0.logic.plan.window_active
        ≡ heard_event event_filtration_window ps m.logic.plan.window_active
  unfolding on_payloads heard_event
  on_payloads-window c now [] m w on h = refl
  on_payloads-window c now (p ∷ ps) m w on h =
      let (m1, w1) = on_event v c now (scheduled p) m w in
      let (still, changed) = on_event-window c now p m w on h in
      on_payloads-window c now ps m1 w1 on still
      ∙ ap (heard_event event_filtration_window ps) changed

evaluate-OwnsWindow :
    (c : Now) (m : Scheduler) → IsTable m → OwnsWindow m → OwnsWindow (evaluate c m).0
evaluate-OwnsWindow c m t own k s' e =
    let (s, found, after) =
      visited-get_elem? c m.sched k s'
        (subst (λ l. get_elem? l k ≡ some s') (evaluate_lem c m t.size).0 e) in
    subst (λ (r : Runtime). Mine r.def.event_id k) after
      (subst (λ d. Mine d.event_id k) (sym (visit-def c s)) (own k s found))

run_ticks-Mine :
    (has_bus : Bool) (ts : List (Bool × ℕ × Option LocalTime)) (m : Scheduler)
    → IsTable m
    → OwnsWindow m
    → All (λ p. Mine p.event_id p.slot) (run_ticks has_bus ts m).1
unfolding run_ticks
run_ticks-Mine has_bus [] m t own = tt
run_ticks-Mine has_bus ((synced, now, local) ∷ ts) m t own =
    let P = λ (p : Payload). Mine p.event_id p.slot in
    let first = tick_scheduler has_bus synced now local m in
    let t1 = tick-IsTable has_bus synced now local m t in
    elim (tick-cases has_bus synced now local m) [
      | inl stay ↦
          All-append P first.1 (run_ticks has_bus ts first.0).1
            (subst (λ q. All P q.1) (sym stay) tt)
            (run_ticks-Mine has_bus ts first.0 t1 (subst (λ q. OwnsWindow q.0) (sym stay) own))
      | inr (c, same, go) ↦
          All-append P first.1 (run_ticks has_bus ts first.0).1
            (subst (λ q. All P q.1) (sym go)
              (subst (All P) (sym (evaluate_lem c m t.size).2) (
                posts-Mine c (mask_from c 0 m.sched 0) 0 m.sched (λ k s e.
                  subst (λ (n : ℕ). Mine s.def.event_id n) {x = k} (omega arith) (own k s e)))))
            (run_ticks-Mine has_bus ts first.0 t1
              (subst (λ q. OwnsWindow q.0) (sym go) (evaluate-OwnsWindow c m t own)))
    ]

module _ (v : Services) where
  open v use {F, World}

  -- While the pool logic is enabled and its filtration is not continuous, and where only the slot of
  -- the filtration window has its event: after any ticks of an evaluated scheduler, of which the pool
  -- logic hears the events, it takes the window for on exactly if the scheduler does, if it did so
  -- before.
  pub window-is_active :
      (c : Config F) (now : ℕ) (has_bus : Bool) (ts : List (Bool × ℕ × Option LocalTime))
      (m : Scheduler) (l : Lifecycle F) (w : World)
      → IsTable m
      → m.sched_initialized ≡ true
      → OwnsWindow m
      → c.enabled ≡ true
      → l.logic.plan.continuous ≡ false
      → l.logic.plan.window_active ≡ is_active slot_filtration_window m
      → (on_payloads v c now (run_ticks has_bus ts m).1 l w).0.logic.plan.window_active
        ≡ is_active slot_filtration_window (run_ticks has_bus ts m).0
  window-is_active c now has_bus ts m l w t run own on h same =
      let ps = (run_ticks has_bus ts m).1 in
      on_payloads-window v c now ps l w on h
      ∙ (heard-heard_event ps l.logic.plan.window_active (run_ticks-Mine has_bus ts m t own)
          ∙ (ap (heard slot_filtration_window ps) same
              ∙ run_ticks-heard has_bus ts m slot_filtration_window t run (omega arith)))
