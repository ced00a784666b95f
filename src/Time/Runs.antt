-- ===== src/Time/Runs.antt =====
-- The table under any sequence of ticks, and what a listener of the events makes of it.
use mathlib.Core.Option.{some-injective}
use flowio_waveshare_qwiic.Prelude.{
  ℕ, zero, suc, Bool, true, false, Option, none, some, List, [], ◌∷◌, ◌++◌, map, ◌≡◌, ◌<◌, ◌&&◌,
  leb, ltb, not, refl, sym, ap, subst, ◌∙◌, arith, length, get_elem?, All, Bool-cases, bit, inl,
  inr, ◌⊎◌, All-get, get_elem?-some,
}
use flowio_waveshare_qwiic.Time.Types.{Runtime, Scheduler, LocalTime, Payload}
use flowio_waveshare_qwiic.Time.Bits.{bit-zero}
use flowio_waveshare_qwiic.Time.System.{is_active}
use flowio_waveshare_qwiic.Time.Tick.{Now, visit, payload, evaluate, tick_scheduler}
use flowio_waveshare_qwiic.Time.Listen.{
  heard, IsSound, posts, mask_from, visited, tick_from_lem, after_post,
}
use flowio_waveshare_qwiic.Time.Events.{heard-at, mask-at, visit_edge, visit_on, visit-IsSound}

-- A table of sixteen slots, of which only windows are on, and whose mask says which.
pub record IsTable (m : Scheduler) : Type 0 where
  pub size : length m.sched ≡ 16
  pub sound : All IsSound m.sched
  pub masked :
      (k : ℕ) (s : Runtime) → get_elem? m.sched k ≡ some s → bit m.active_mask_value k ≡ s.active

pub get_elem?-visited :
    (c : Now) (ss : List Runtime) (k : ℕ) (s : Runtime)
    → get_elem? ss k ≡ some s
    → get_elem? (visited c ss) k ≡ some (visit c s).0
unfolding visited
get_elem?-visited c [] k s e = absurd (cc)
get_elem?-visited c (t ∷ ss) zero s e = ap (λ x. some (visit c x).0) (some-injective _ _ e)
get_elem?-visited c (t ∷ ss) (suc k) s e = get_elem?-visited c ss k s e

pub visited-get_elem? :
    (c : Now) (ss : List Runtime) (k : ℕ) (s' : Runtime)
    → get_elem? (visited c ss) k ≡ some s'
    → (s : Runtime) × (get_elem? ss k ≡ some s) × ((visit c s).0 ≡ s')
unfolding visited
visited-get_elem? c [] k s' e = absurd (cc)
visited-get_elem? c (t ∷ ss) zero s' e = (t, refl, some-injective _ _ e)
visited-get_elem? c (t ∷ ss) (suc k) s' e = visited-get_elem? c ss k s' e

length-visited : (c : Now) (ss : List Runtime) → length (visited c ss) ≡ length ss
unfolding visited
length-visited c [] = refl
length-visited c (s ∷ ss) = ap suc (length-visited c ss)

visited-IsSound : (c : Now) (ss : List Runtime) → All IsSound ss → All IsSound (visited c ss)
unfolding visited
visited-IsSound c [] h = tt
visited-IsSound c (s ∷ ss) h = (visit-IsSound c s h.0, visited-IsSound c ss h.1)

-- The evaluated table, field by field.
pub evaluate_lem :
    (c : Now) (m : Scheduler)
    → length m.sched ≡ 16
    → ((evaluate c m).0.sched ≡ visited c m.sched)
      × ((evaluate c m).0.active_mask_value ≡ mask_from c 0 m.sched 0)
      × ((evaluate c m).1 ≡ map (payload (mask_from c 0 m.sched 0)) (posts c 0 m.sched))
      × ((evaluate c m).0.sched_initialized ≡ true)
unfolding evaluate
evaluate_lem c m h =
    let t = tick_from_lem c 0 m.sched [] 0 (omega arith) in
    (ap (λ p. p.0) t, ap (λ p. p.2) t, ap (λ p. map (payload p.2) p.1) t, refl)

evaluate_mask :
    (c : Now) (m : Scheduler) (k : ℕ) (s : Runtime)
    → IsTable m
    → get_elem? m.sched k ≡ some s
    → bit (evaluate c m).0.active_mask_value k ≡ (visit c s).0.active
evaluate_mask c m k s v e =
    let on = visit_on c s (All-get IsSound m.sched k s v.sound e) in
    ap (λ w. bit w k) (evaluate_lem c m v.size).1
    ∙ (mask-at c 0 m.sched 0 k k s (omega arith) e ∙ ground (arith, bit-zero k, on))

pub evaluate-IsTable : (c : Now) (m : Scheduler) → IsTable m → IsTable (evaluate c m).0
evaluate-IsTable c m v =
    let same = (evaluate_lem c m v.size).0 in
    record {
      size = ap length same ∙ (length-visited c m.sched ∙ v.size);
      sound = subst (All IsSound) (sym same) (visited-IsSound c m.sched v.sound);
      masked = λ k s' e.
          let (s, found, after) =
            visited-get_elem? c m.sched k s' (subst (λ t. get_elem? t k ≡ some s') same e) in
          evaluate_mask c m k s v found ∙ ap (λ x. x.active) after;
    }

-- One evaluation in an initialised scheduler: the listener follows each slot.
evaluate-heard :
    (c : Now) (m : Scheduler) (k : ℕ) (s : Runtime)
    → IsTable m
    → c.initialized ≡ true
    → get_elem? m.sched k ≡ some s
    → heard k (evaluate c m).1 (bit m.active_mask_value k)
      ≡ bit (evaluate c m).0.active_mask_value k
evaluate-heard c m k s v run e =
    let mask : ℕ = mask_from c 0 m.sched 0 in
    let now_on : Bool = bit m.active_mask_value k in
    ap (λ ps. heard k ps now_on) (evaluate_lem c m v.size).2
    ∙ (heard-at c 0 m.sched k k mask now_on s (omega arith) e
        ∙ (ap (after_post (visit c s).1) (v.masked k s e)
            ∙ (visit_edge c s (All-get IsSound m.sched k s v.sound e) run
                ∙ sym (evaluate_mask c m k s v e))))

-- Ticks at the given times: whether the clock is synchronised, the time, and the local time.
unfoldable pub run_ticks :
    Bool → List (Bool × ℕ × Option LocalTime) → Scheduler → Scheduler × List Payload
run_ticks has_bus [] m = (m, [])
run_ticks has_bus ((synced, now, local) ∷ ts) m =
    let (m1, ps) = tick_scheduler has_bus synced now local m in
    let (m2, qs) = run_ticks has_bus ts m1 in (m2, ps ++ qs)

heard-append :
    (k : ℕ) (ps qs : List Payload) (on : Bool) → heard k (ps ++ qs) on ≡ heard k qs (heard k ps on)
unfolding heard
heard-append k [] qs on = refl
heard-append k (p ∷ ps) qs on = heard-append k ps qs _

-- A tick does nothing, or it evaluates the table.
pub tick-cases :
    (has_bus synced : Bool) (now : ℕ) (local : Option LocalTime) (m : Scheduler)
    → (tick_scheduler has_bus synced now local m ≡ (m, []))
      ⊎ ((c : Now) × (c.initialized ≡ m.sched_initialized)
          × (tick_scheduler has_bus synced now local m ≡ evaluate c m))
unfolding tick_scheduler
tick-cases has_bus synced now none m = inl (ground arith)
tick-cases has_bus synced now (some t) m =
    elim (Bool-cases (has_bus && (synced && not (ltb now 1609459200)))) [
      | inl go ↦
          inr (
            record { epoch = now; local = t; initialized = m.sched_initialized },
            refl,
            ground arith,
          )
      | inr stay ↦ inl (ground arith)
    ]

module _ (has_bus synced : Bool) (now : ℕ) (local : Option LocalTime) (m : Scheduler)
    (v : IsTable m) where
  pub tick-IsTable : IsTable (tick_scheduler has_bus synced now local m).0
  tick-IsTable = elim (tick-cases has_bus synced now local m) [
    | inl stay ↦ subst (λ p. IsTable p.0) (sym stay) v
    | inr (c, same, go) ↦ subst (λ p. IsTable p.0) (sym go) (evaluate-IsTable c m v)
  ]

  module _ (run : m.sched_initialized ≡ true) where
    tick-initialized : (tick_scheduler has_bus synced now local m).0.sched_initialized ≡ true
    tick-initialized = elim (tick-cases has_bus synced now local m) [
      | inl stay ↦ subst (λ p. p.0.sched_initialized ≡ true) (sym stay) run
      | inr (c, same, go) ↦
          subst (λ p. p.0.sched_initialized ≡ true) (sym go) (evaluate_lem c m v.size).3
    ]

    tick-heard :
        (k : ℕ) (s : Runtime)
        → get_elem? m.sched k ≡ some s
        → heard k (tick_scheduler has_bus synced now local m).1 (bit m.active_mask_value k)
          ≡ bit (tick_scheduler has_bus synced now local m).0.active_mask_value k
    unfolding heard
    tick-heard k s e = elim (tick-cases has_bus synced now local m) [
      | inl stay ↦ rw stay refl
      | inr (c, same, go) ↦ rw go (evaluate-heard c m k s v (same ∙ run) e)
    ]

run_ticks-heard-bit :
    (has_bus : Bool) (ts : List (Bool × ℕ × Option LocalTime)) (m : Scheduler) (k : ℕ)
    → IsTable m
    → m.sched_initialized ≡ true
    → k < 16
    → heard k (run_ticks has_bus ts m).1 (bit m.active_mask_value k)
      ≡ bit (run_ticks has_bus ts m).0.active_mask_value k
unfolding run_ticks heard
run_ticks-heard-bit has_bus [] m k v run h = refl
run_ticks-heard-bit has_bus ((synced, now, local) ∷ ts) m k v run h =
    let first = tick_scheduler has_bus synced now local m in
    let v1 = tick-IsTable has_bus synced now local m v in
    let (s, e) = get_elem?-some m.sched k (omega (arith, v.size)) in
    heard-append k first.1 (run_ticks has_bus ts first.0).1 _
    ∙ (ap (heard k (run_ticks has_bus ts first.0).1)
          (tick-heard has_bus synced now local m v run k s e)
        ∙ run_ticks-heard-bit has_bus ts first.0 k v1
            (tick-initialized has_bus synced now local m v run) h)

-- Once the table has been evaluated, a listener that takes each slot for on from its Start to its
-- Stop event, and begins with what `isActive_` says, agrees with `isActive_` after any ticks.
pub run_ticks-heard :
    (has_bus : Bool) (ts : List (Bool × ℕ × Option LocalTime)) (m : Scheduler) (k : ℕ)
    → IsTable m
    → m.sched_initialized ≡ true
    → k < 16
    → heard k (run_ticks has_bus ts m).1 (is_active k m) ≡ is_active k (run_ticks has_bus ts m).0
unfolding is_active
run_ticks-heard has_bus ts m k v run h =
    let low : leb 16 k ≡ false = ground arith in rw low (run_ticks-heard-bit has_bus ts m k v run h)
