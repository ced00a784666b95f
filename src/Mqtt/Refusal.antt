-- ===== src/Mqtt/Refusal.antt =====
-- A request that raises a job's priority into a full queue.
use Prim.Native.Nat.{bit_or}
use flowio_waveshare_qwiic.Prelude.{
  length, ℕ, true, false, some, List, ◌≡◌, ◌≢◌, ◌≤◌, ◌<◌, ltb, if◌then◌else◌, get_elem?, refl, sym,
  subst, ◌∙◌, arith, get_elem?-lt, get_elem?-set_self, length-set,
}
use flowio_waveshare_qwiic.Mqtt.Types.{Job, Item, Capacities, Jobs}
use flowio_waveshare_qwiic.Mqtt.Queues.{
  ring_push, queue_push, put_job, queue_slot, push_job, invalidated, queued_as,
}
use flowio_waveshare_qwiic.Mqtt.Jobs.{find_job_slot, enqueue_known, enqueue_job, dequeue_next_job}
use flowio_waveshare_qwiic.Mqtt.Passing.{after_dequeues, never_taken}

module _ (c : Capacities) where
  -- A push into the full high queue changes nothing.
  high_full :
      (item : Item) (q : Jobs) → c.high_cap ≤ q.high.count → queue_push c 2 item q ≡ (q, false)
  unfolding queue_push ring_push
  high_full item q full = ground arith

  push_high-full :
      (slot : ℕ) (j : Job) (q : Jobs)
      → c.high_cap ≤ q.high.count
      → j.queued ≡ false
      → push_job c slot 2 j q ≡ (
        put_job c slot
            (record (queued_as c 2 j) { queued = false })
            (put_job c slot (queued_as c 2 j) q),
        false,
      )
  unfolding push_job
  push_high-full slot j q full out =
      let item : Item = record { slot = slot; token = (queued_as c 2 j).queue_token } in
      ground (arith, high_full item (put_job c slot (queued_as c 2 j) q) full)

  -- The job as a request with high priority leaves it.
  abbrev raised : ℕ → Job → Job
  raised flags j = record j {
    flags = bit_or j.flags flags;
    priority = if ltb j.priority 2 then 2 else j.priority;
  }

  known :
      (producer message flags slot : ℕ) (j : Job) (q : Jobs)
      → find_job_slot producer message q.jobs ≡ some slot
      → get_elem? q.jobs slot ≡ some j
      → enqueue_job c producer message 2 flags q ≡ enqueue_known c slot 2 flags j q
  unfolding enqueue_job
  known producer message flags slot j q at e = ground (arith, at, e)

  raise :
      (flags slot : ℕ) (j : Job) (q : Jobs)
      → j.queued ≡ true
      → j.processing ≡ false
      → j.queued_prio < 2
      → j.priority ≤ 2
      → enqueue_known c slot 2 flags j q
        ≡ queue_slot c slot 2 true (put_job c slot (raised flags j) q)
  unfolding enqueue_known
  raise flags slot j q queued idle below most = ground arith

  requeue :
      (slot : ℕ) (j : Job) (q : Jobs)
      → slot < c.max_jobs
      → get_elem? q.jobs slot ≡ some j
      → j.used ≡ true
      → queue_slot c slot 2 true q ≡ push_job c slot 2 (invalidated c true j) q
  unfolding queue_slot
  requeue slot j q low e used = ground (arith, e)

  -- A message that waits in the normal or low queue, asked for again with high priority while the
  -- high queue is full: the request fails, the message is marked as in no queue, and after any
  -- dequeues at any times a further one does not take it.
  pub raise_into_full :
      (producer message flags slot : ℕ) (j : Job) (q : Jobs) (times : List ℕ) (now : ℕ)
      → find_job_slot producer message q.jobs ≡ some slot
      → get_elem? q.jobs slot ≡ some j
      → slot < c.max_jobs
      → j.used ≡ true
      → j.queued ≡ true
      → j.processing ≡ false
      → j.queued_prio < 2
      → j.priority ≤ 2
      → c.high_cap ≤ q.high.count
      → ((enqueue_job c producer message 2 flags q).1 ≡ false)
        × ((k : Job) × (get_elem? (enqueue_job c producer message 2 flags q).0.jobs slot ≡ some k)
            × (k.used ≡ true)
            × (k.queued ≡ false)
            × (k.processing ≡ false))
        × ((dequeue_next_job c now
              (after_dequeues c times (enqueue_job c producer message 2 flags q).0)).1
            ≢ some slot)
  unfolding queued_as invalidated
  raise_into_full producer message flags slot j q times now at e low used queued idle below most
        full =
      let j1 = raised flags j in
      let j2 = queued_as c 2 (invalidated c true j1) in
      let k : Job = record j2 { queued = false } in
      let inside : slot < length q.jobs = get_elem?-lt q.jobs slot j e in
      let q1 = put_job c slot j1 q in
      let q2 = put_job c slot j2 q1 in
      let there : get_elem? (put_job c slot k q2).jobs slot ≡ some k =
        get_elem?-set_self q2.jobs slot k
          (omega (arith, length-set q1.jobs slot j2, length-set q.jobs slot j1)) in
      let whole : enqueue_job c producer message 2 flags q ≡ (put_job c slot k q2, false) =
        known producer message flags slot j q at e
        ∙ (raise flags slot j q queued idle below most
            ∙ (requeue slot j1 q1 low (get_elem?-set_self q.jobs slot j1 inside) used
                ∙ push_high-full slot (invalidated c true j1) q1 full (ground arith))) in
      subst
        (λ r.
          (r.1 ≡ false)
          × ((k : Job) × (get_elem? r.0.jobs slot ≡ some k)
              × (k.used ≡ true)
              × (k.queued ≡ false)
              × (k.processing ≡ false))
          × ((dequeue_next_job c now (after_dequeues c times r.0)).1 ≢ some slot))
        (sym whole)
        (
          refl,
          (k, there, ground arith, refl, ground arith),
          never_taken c slot k times now (put_job c slot k q2) refl there,
        )
