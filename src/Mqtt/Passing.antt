-- ===== src/Mqtt/Passing.antt =====
-- The scan of `dequeueNextJob_` passes over a job that is not queued, whatever items are left of it.
use native.Mathlib.Decide.{ℕ_discrete}
use mathlib.Core.Option.{some-injective}
use flowio_waveshare_qwiic.Prelude.{
  ℕ, zero, suc, true, false, Option, none, some, List, [], ◌∷◌, ◌≡◌, ◌≢◌, get_elem?,
  get_elem?-set_ne, inl, inr, sym, ap, subst, ◌∙◌, arith, Option-cases,
}
use flowio_waveshare_qwiic.Mqtt.Types.{
  prio_high, prio_normal, prio_low, Job, Item, Capacities, Jobs,
}
use flowio_waveshare_qwiic.Mqtt.Queues.{
  queue_pop, queue_push, put_job, push_job, queue_slot, invalidated, queued_as,
}
use flowio_waveshare_qwiic.Mqtt.Jobs.{
  take_job, take_item, try_prio, or_else, scan_round, scan, dequeue_next_job,
}

module _ (c : Capacities) (slot : ℕ) (k : Job) where
  -- The job is as it was, and it is not the one taken.
  abbrev pub IsPassed : Jobs × Option ℕ → Type 0
  IsPassed r = (get_elem? r.0.jobs slot ≡ some k) × (r.1 ≢ some slot)

  jobs-queue_pop : (prio : ℕ) (q : Jobs) → (queue_pop c prio q).0.jobs ≡ q.jobs
  unfolding queue_pop
  jobs-queue_pop prio q = ground arith

  jobs-queue_push : (prio : ℕ) (item : Item) (q : Jobs) → (queue_push c prio item q).0.jobs ≡ q.jobs
  unfolding queue_push
  jobs-queue_push prio item q = ground arith

  put_other :
      (i : ℕ) (j : Job) (q : Jobs)
      → i ≢ slot
      → get_elem? (put_job c i j q).jobs slot ≡ get_elem? q.jobs slot
  put_other i j q ne = get_elem?-set_ne q.jobs i slot j ne

  push_other :
      (i prio : ℕ) (j : Job) (q : Jobs)
      → i ≢ slot
      → get_elem? (push_job c i prio j q).0.jobs slot ≡ get_elem? q.jobs slot
  unfolding push_job
  push_other i prio j q ne =
      let j1 = queued_as c prio j in
      let item : Item = record { slot = i; token = j1.queue_token } in
      let q1 = (queue_push c prio item (put_job c i j1 q)).0 in
      let pushed : get_elem? q1.jobs slot ≡ get_elem? q.jobs slot =
        ap (λ js. get_elem? js slot) (jobs-queue_push prio item (put_job c i j1 q))
        ∙ put_other i j1 q ne in
      ground (
        arith,
        put_other i j q ne,
        pushed,
        put_other i (record j1 { queued = false }) q1 ne ∙ pushed,
      )

  queue_other :
      (i prio : ℕ) (q : Jobs)
      → i ≢ slot
      → get_elem? (queue_slot c i prio false q).0.jobs slot ≡ get_elem? q.jobs slot
  unfolding queue_slot
  queue_other i prio q ne = elim (Option-cases (get_elem? q.jobs i)) [
    | inl gone ↦ ground (arith, gone)
    | inr (j, found) ↦ ground (arith, found, push_other i prio (invalidated c false j) q ne)
  ]

  module _ (idle : k.queued ≡ false) (now : ℕ) where
    take_job-IsPassed :
        (prio : ℕ) (item : Item) (j : Job) (q : Jobs)
        → get_elem? q.jobs item.slot ≡ some j
        → get_elem? q.jobs slot ≡ some k
        → IsPassed (take_job c now prio item j q)
    unfolding take_job
    take_job-IsPassed prio item j q e at = elim (ℕ_discrete item.slot slot) [
      | yes here ↦
          let same : j ≡ k =
            some-injective _ _ (sym e ∙ (ap (λ (i : ℕ). get_elem? q.jobs i) here ∙ at)) in
          let out : j.queued ≡ false = ap (λ x. x.queued) same ∙ idle in
          (ground (arith, out, at), ground (arith, out))
      | no ne ↦
          let off : Job = record j { queued = false } in
          let q1 = put_job c item.slot off q in
          let first = put_other item.slot off q ne ∙ at in
          (
            ground (
              arith,
              at,
              first,
              queue_other item.slot j.priority q1 ne ∙ first,
              put_other item.slot (record off { processing = true }) q1 ne ∙ first,
            ),
            ground (arith, ne),
          )
    ]

    take_item-IsPassed :
        (prio : ℕ) (item : Item) (q : Jobs)
        → get_elem? q.jobs slot ≡ some k
        → IsPassed (take_item c now prio item q)
    unfolding take_item
    take_item-IsPassed prio item q at = elim (Option-cases (get_elem? q.jobs item.slot)) [
      | inl gone ↦ (ground (arith, gone, at), ground (arith, gone))
      | inr (j, found) ↦
          let (kept, other) = take_job-IsPassed prio item j q found at in
          (ground (arith, found, at, kept), ground (arith, found, other))
    ]

    try_prio-IsPassed :
        (prio : ℕ) (q : Jobs) → get_elem? q.jobs slot ≡ some k → IsPassed (try_prio c now prio q)
    unfolding try_prio
    try_prio-IsPassed prio q at =
        let q1 = (queue_pop c prio q).0 in
        let still : get_elem? q1.jobs slot ≡ some k =
          ap (λ js. get_elem? js slot) (jobs-queue_pop prio q) ∙ at in
        let taken : Option Item → Jobs × Option ℕ =
          λ o. elim o [ none ↦ (q1, none) | some item ↦ take_item c now prio item q1 ] in
        elim (Option-cases (queue_pop c prio q).1) [
          | inl empty ↦ subst (λ o. IsPassed (taken o)) (sym empty) (still, λ e. absurd (cc))
          | inr (item, popped) ↦
              subst (λ o. IsPassed (taken o)) (sym popped) (take_item-IsPassed prio item q1 still)
        ]

    or_else-IsPassed :
        (a : Jobs × Option ℕ) (b : Jobs → Jobs × Option ℕ)
        → IsPassed a
        → ((r : Jobs) → get_elem? r.jobs slot ≡ some k → IsPassed (b r))
        → IsPassed (or_else c a b)
    or_else-IsPassed (r, none) b f g = g r f.0
    or_else-IsPassed (r, some i) b f g = f

    scan-IsPassed :
        (rounds : ℕ) (q : Jobs) → get_elem? q.jobs slot ≡ some k → IsPassed (scan c rounds now q)
    unfolding scan scan_round
    scan-IsPassed zero q at = (at, λ e. absurd (cc))
    scan-IsPassed (suc rounds) q at =
        let low : Jobs → Jobs × Option ℕ = λ r. try_prio c now prio_low r in
        let rest : Jobs → Jobs × Option ℕ = λ r. or_else c (try_prio c now prio_normal r) low in
        or_else-IsPassed (or_else c (try_prio c now prio_high q) rest) (λ q1. scan c rounds now q1)
          (or_else-IsPassed (try_prio c now prio_high q) rest (try_prio-IsPassed prio_high q at)
            (λ r e.
              or_else-IsPassed (try_prio c now prio_normal r) low
                (try_prio-IsPassed prio_normal r e) (λ s f. try_prio-IsPassed prio_low s f)))
          (λ r e. scan-IsPassed rounds r e)

    pub dequeue-IsPassed :
        (q : Jobs) → get_elem? q.jobs slot ≡ some k → IsPassed (dequeue_next_job c now q)
    unfolding dequeue_next_job
    dequeue-IsPassed q at = scan-IsPassed _ q at

-- The jobs after dequeues at the given times.
unfoldable pub after_dequeues : Capacities → List ℕ → Jobs → Jobs
after_dequeues c [] q = q
after_dequeues c (t ∷ ts) q = after_dequeues c ts (dequeue_next_job c t q).0

-- A job that is not queued is not taken after any dequeues.
pub never_taken :
    (c : Capacities) (slot : ℕ) (k : Job) (times : List ℕ) (now : ℕ) (q : Jobs)
    → k.queued ≡ false
    → get_elem? q.jobs slot ≡ some k
    → (dequeue_next_job c now (after_dequeues c times q)).1 ≢ some slot
unfolding after_dequeues
never_taken c slot k [] now q idle at = (dequeue-IsPassed c slot k idle now q at).1
never_taken c slot k (t ∷ ts) now q idle at =
    never_taken c slot k ts now (dequeue_next_job c t q).0 idle
      (dequeue-IsPassed c slot k idle t q at).0
