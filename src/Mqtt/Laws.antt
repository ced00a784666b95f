-- ===== src/Mqtt/Laws.antt =====
-- What the jobs promise: well-formedness, what is taken, and what a refused request does.
use flowio_waveshare_qwiic.Prelude.{
  ℕ, zero, suc, Bool, true, false, Option, none, some, List, [], ◌∷◌, ◌≡◌, ◌<◌, ◌+◌, ◌||◌, ◌==◌,
  ◌!=◌, leb, not, if◌then◌else◌, get_elem?, inl, inr, refl, sym, subst, arith, get_elem?-lt,
  get_elem?-set_self, Bool-cases, Option-cases, All, replicate, length-replicate, sub32,
}
use flowio_waveshare_qwiic.Mqtt.Types.{
  Job, blank_job, Item, Capacities, Jobs, blank_ring, prio_high, prio_normal, prio_low,
}
use flowio_waveshare_qwiic.Mqtt.Queues.{queue_pop, put_job}
use flowio_waveshare_qwiic.Mqtt.Jobs.{
  enqueue_job, enqueue, take_job, take_item, try_prio, or_else, scan_round, scan, dequeue_next_job,
  clear_all_jobs,
}
use flowio_waveshare_qwiic.Mqtt.Keeps.{IsJob}
use flowio_waveshare_qwiic.Mqtt.Taking.{dequeue-Keeps, settle-Keeps}
use flowio_waveshare_qwiic.Mqtt.Runs.{
  Distinct, IsQueues, Keeps-IsQueues, enqueue_job-IsQueues, Action, request, take, finish, clear,
  act, act_all,
}

blank-Distinct : (n : ℕ) → Distinct (replicate n blank_job)
blank-Distinct zero = tt
blank-Distinct (suc n) = (λ used. absurd (cc), blank-Distinct n)

blank-IsJob : (n : ℕ) → All IsJob (replicate n blank_job)
blank-IsJob zero = tt
blank-IsJob (suc n) = ((refl, refl), blank-IsJob n)

module _ (c : Capacities) where
  pub clear_all_jobs-IsQueues : (q : Jobs) → IsQueues c (clear_all_jobs c q)
  unfolding clear_all_jobs blank_ring
  clear_all_jobs-IsQueues q = record {
    size = length-replicate c.max_jobs blank_job;
    sound = record {
      flags = blank-IsJob c.max_jobs;
      high_fits = omega arith;
      normal_fits = omega arith;
      low_fits = omega arith;
    };
    distinct = blank-Distinct c.max_jobs;
  }

  act-IsQueues : (a : Action c) (q : Jobs) → IsQueues c q → IsQueues c (act c a q)
  unfolding act enqueue
  act-IsQueues (request connected p m priority flags) q v =
      elim (Bool-cases (p == 0 || not connected)) [
        | inl refused ↦
            let same : (enqueue c connected p m priority flags q).0 ≡ q = ground arith in
            subst (IsQueues c) (sym same) v
        | inr taken ↦
            let same : enqueue c connected p m priority flags q
                ≡ enqueue_job c p m priority flags q =
              ground arith in
            subst (λ r. IsQueues c r.0) (sym same) (enqueue_job-IsQueues c p m priority flags q v)
      ]
  act-IsQueues (take now) q v = Keeps-IsQueues c q _ (dequeue-Keeps c now q) v
  act-IsQueues (finish now sent result slot) q v =
      Keeps-IsQueues c q _ (settle-Keeps c now sent result slot q) v
  act-IsQueues clear q v = clear_all_jobs-IsQueues q

  -- Requests, takings, settlings and resets in any order: no two jobs are ever for one message, a
  -- queued job is used and not being processed, a processed one is used, and no queue holds more
  -- than its capacity.
  pub act_all-IsQueues :
      (more : List (Action c)) (q : Jobs) → IsQueues c q → IsQueues c (act_all c more q)
  unfolding act_all
  act_all-IsQueues [] q v = v
  act_all-IsQueues (a ∷ more) q v = act_all-IsQueues more (act c a q) (act-IsQueues a q v)

  -- What is taken, if anything is.
  IsTaken : ℕ → Jobs × Option ℕ → Type 0
  IsTaken now (q, none) = Unit {0}
  IsTaken now (q, some slot) =
      (slot < c.max_jobs)
      × ((j : Job) × (get_elem? q.jobs slot ≡ some j)
          × (j.used ≡ true)
          × (j.processing ≡ true)
          × (j.queued ≡ false)
          × (leb 2147483648 (sub32 now j.not_before_ms) ≡ false))

  IsTaken-if :
      (b : Bool) (now : ℕ) (x y : Jobs × Option ℕ)
      → (b ≡ true → IsTaken now x)
      → (b ≡ false → IsTaken now y)
      → IsTaken now (if b then x else y)
  IsTaken-if true now x y hx hy = hx refl
  IsTaken-if false now x y hx hy = hy refl

  take_job-IsTaken :
      (now prio : ℕ) (item : Item) (j : Job) (q : Jobs)
      → item.slot < c.max_jobs
      → get_elem? q.jobs item.slot ≡ some j
      → IsTaken now (take_job c now prio item j q)
  unfolding take_job IsTaken
  take_job-IsTaken now prio item j q low e =
      let off : Job = record j { queued = false } in
      let on : Job = record off { processing = true } in
      let q1 = put_job c item.slot off q in
      let there : get_elem? q1.jobs item.slot ≡ some off =
        get_elem?-set_self q.jobs item.slot off (get_elem?-lt q.jobs item.slot j e) in
      IsTaken-if
        (not j.used || (not j.queued || (j.queue_token != item.token || j.queued_prio != prio))) now
        (q, none) _ (λ stale. tt)
        (λ match.
          IsTaken-if j.processing now (q1, none) _ (λ busy. tt)
            (λ idle.
              IsTaken-if (leb 2147483648 (sub32 now j.not_before_ms)) now _ _ (λ early. tt)
                (λ due. (
                  low,
                  (
                    on,
                    get_elem?-set_self q1.jobs item.slot on
                        (get_elem?-lt q1.jobs item.slot off there),
                    ground arith,
                    refl,
                    refl,
                    due,
                  ),
                ))))

  take_item-IsTaken :
      (now prio : ℕ) (item : Item) (q : Jobs) → IsTaken now (take_item c now prio item q)
  unfolding take_item IsTaken
  take_item-IsTaken now prio item q =
      let chosen : Option Job → Jobs × Option ℕ =
        λ o. elim o [ none ↦ (q, none) | some j ↦ take_job c now prio item j q ] in
      IsTaken-if (leb c.max_jobs item.slot) now (q, none) (chosen (get_elem? q.jobs item.slot))
        (λ out. tt)
        (λ here. elim (Option-cases (get_elem? q.jobs item.slot)) [
          | inl gone ↦ subst (λ o. IsTaken now (chosen o)) (sym gone) tt
          | inr (j, found) ↦
              subst (λ o. IsTaken now (chosen o)) (sym found)
                (take_job-IsTaken now prio item j q (ground arith) found)
        ])

  try_prio-IsTaken : (now prio : ℕ) (q : Jobs) → IsTaken now (try_prio c now prio q)
  unfolding try_prio IsTaken
  try_prio-IsTaken now prio q =
      let q1 = (queue_pop c prio q).0 in
      let taken : Option Item → Jobs × Option ℕ =
        λ o. elim o [ none ↦ (q1, none) | some item ↦ take_item c now prio item q1 ] in
      elim (Option-cases (queue_pop c prio q).1) [
        | inl empty ↦ subst (λ o. IsTaken now (taken o)) (sym empty) tt
        | inr (item, popped) ↦
            subst (λ o. IsTaken now (taken o)) (sym popped) (take_item-IsTaken now prio item q1)
      ]

  or_else-IsTaken :
      (now : ℕ) (a : Jobs × Option ℕ) (b : Jobs → Jobs × Option ℕ)
      → IsTaken now a
      → ((r : Jobs) → IsTaken now (b r))
      → IsTaken now (or_else c a b)
  or_else-IsTaken now (r, none) b f g = g r
  or_else-IsTaken now (r, some i) b f g = f

  scan-IsTaken : (rounds now : ℕ) (q : Jobs) → IsTaken now (scan c rounds now q)
  unfolding scan scan_round IsTaken
  scan-IsTaken zero now q = tt
  scan-IsTaken (suc rounds) now q =
      let low : Jobs → Jobs × Option ℕ = λ r. try_prio c now prio_low r in
      let rest : Jobs → Jobs × Option ℕ = λ r. or_else c (try_prio c now prio_normal r) low in
      or_else-IsTaken now (or_else c (try_prio c now prio_high q) rest) (λ q1. scan c rounds now q1)
        (or_else-IsTaken now (try_prio c now prio_high q) rest (try_prio-IsTaken now prio_high q)
          (λ r.
            or_else-IsTaken now (try_prio c now prio_normal r) low
              (try_prio-IsTaken now prio_normal r) (λ s. try_prio-IsTaken now prio_low s)))
        (λ r. scan-IsTaken rounds now r)

  -- A slot that `dequeueNextJob_` returns is in the table, and its job is used, out of its queue,
  -- marked as being processed, and due.
  pub dequeue_next_job-taken :
      (now slot : ℕ) (q : Jobs)
      → (dequeue_next_job c now q).1 ≡ some slot
      → (slot < c.max_jobs)
        × ((j : Job) × (get_elem? (dequeue_next_job c now q).0.jobs slot ≡ some j)
            × (j.used ≡ true)
            × (j.processing ≡ true)
            × (j.queued ≡ false)
            × (leb 2147483648 (sub32 now j.not_before_ms) ≡ false))
  unfolding dequeue_next_job IsTaken
  dequeue_next_job-taken now slot q h =
      let rounds = q.high.count + q.normal.count + q.low.count + 4 in
      let r = scan c rounds now q in subst (λ o. IsTaken now (r.0, o)) h (scan-IsTaken rounds now q)
