-- ===== src/Mqtt/Jobs.antt =====
-- `enqueueJob_`, `dequeueNextJob_` and what they call.
use Prim.Native.Nat.{bit_or}
use flowio_waveshare_qwiic.Prelude.{
  ℕ, zero, suc, Bool, true, false, Option, none, some, List, [], ◌∷◌, ◌+◌, ◌&&◌, ◌||◌, ◌==◌, ◌!=◌,
  leb, ltb, not, if◌then◌else◌, get_elem?, sub32, replicate,
}
use flowio_waveshare_qwiic.Mqtt.Types.{
  Job, blank_job, Item, Capacities, Jobs, prio_high, prio_normal, prio_low, blank_ring,
}
use flowio_waveshare_qwiic.Mqtt.Queues.{queue_slot, queue_pop, put_job}

-- A used job of the producer and message.
abbrev pub has_key : ℕ → ℕ → Job → Bool
has_key producer message j = j.used && (j.producer_id == producer && j.message_id == message)

-- `findJobSlot_`
unfoldable pub find_job_slot : ℕ → ℕ → List Job → Option ℕ
find_job_slot producer message [] = none
find_job_slot producer message (j ∷ js) =
    let rest = find_job_slot producer message js in
    if has_key producer message j then some 0 else elim rest [ none ↦ none | some i ↦ some (suc i) ]

-- `allocJobSlot_`
unfoldable pub alloc_job_slot : List Job → Option ℕ
alloc_job_slot [] = none
alloc_job_slot (j ∷ js) =
    let rest = alloc_job_slot js in
    if not j.used then some 0 else elim rest [ none ↦ none | some i ↦ some (suc i) ]

unfoldable pub new_job : ℕ → ℕ → ℕ → ℕ → Job
new_job producer message priority flags = record blank_job {
  used = true;
  producer_id = producer;
  message_id = message;
  priority = priority;
  flags = flags;
}

module _ (c : Capacities) where
  -- A request for a job that is there.
  unfoldable pub enqueue_known : ℕ → ℕ → ℕ → Job → Jobs → Jobs × Bool
  enqueue_known slot priority flags old q =
      let j : Job = record old {
        flags = bit_or old.flags flags;
        priority = if ltb old.priority priority then priority else old.priority;
      } in
      if j.processing
      then (put_job c slot (record j { requeue_after_process = true }) q, true)
      else if j.queued
      then (if ltb j.queued_prio j.priority
          then queue_slot c slot j.priority true (put_job c slot j q)
          else (put_job c slot j q, true))
      else queue_slot c slot j.priority false
          (put_job c slot (record j { retry_count = 0; not_before_ms = 0 }) q)

  -- A request for a new job in a free slot.
  unfoldable pub enqueue_new : ℕ → Job → Jobs → Jobs × Bool
  enqueue_new slot j q =
      let (q1, ok) = queue_slot c slot j.priority false (put_job c slot j q) in
      if ok then (q1, true) else (put_job c slot blank_job q1, false)

  -- `enqueueJob_`
  unfoldable pub enqueue_job : ℕ → ℕ → ℕ → ℕ → Jobs → Jobs × Bool
  enqueue_job producer message priority flags q = elim (find_job_slot producer message q.jobs) [
    | some i ↦ elim (get_elem? q.jobs i) [
      | none ↦ (q, false)
      | some old ↦ enqueue_known i priority flags old q
    ]
    | none ↦ elim (alloc_job_slot q.jobs) [
      | none ↦ (q, false)
      | some i ↦ enqueue_new i (new_job producer message priority flags) q
    ]
  ]

  -- `enqueue`
  unfoldable pub enqueue : Bool → ℕ → ℕ → ℕ → ℕ → Jobs → Jobs × Bool
  enqueue connected producer message priority flags q =
      if producer == 0
      then (q, false)
      else if not connected
      then (q, false)
      else enqueue_job producer message priority flags q

  -- What `dequeueNextJob_` does with a job whose item has been popped.
  unfoldable pub take_job : ℕ → ℕ → Item → Job → Jobs → Jobs × Option ℕ
  take_job now prio item j q =
      if not j.used || (not j.queued || (j.queue_token != item.token || j.queued_prio != prio))
      then (q, none)
      else (let q1 = put_job c item.slot (record j { queued = false }) q in
          if j.processing
          then (q1, none)
          else if leb 2147483648 (sub32 now j.not_before_ms)
          then ((queue_slot c item.slot j.priority false q1).0, none)
          else (
            put_job c item.slot (record j { queued = false; processing = true }) q1,
            some item.slot,
          ))

  -- An item that has been popped.
  unfoldable pub take_item : ℕ → ℕ → Item → Jobs → Jobs × Option ℕ
  take_item now prio item q =
      if leb c.max_jobs item.slot then (q, none) else elim (get_elem? q.jobs item.slot) [
        | none ↦ (q, none)
        | some j ↦ take_job now prio item j q
      ]

  -- One priority of one round of the scan; the result ends it.
  unfoldable pub try_prio : ℕ → ℕ → Jobs → Jobs × Option ℕ
  try_prio now prio q =
      let (q1, popped) = queue_pop c prio q in
      elim popped [ none ↦ (q1, none) | some item ↦ take_item now prio item q1 ]

  -- `a`, and `b` if it gave nothing.
  abbrev pub or_else : Jobs × Option ℕ → (Jobs → Jobs × Option ℕ) → Jobs × Option ℕ
  or_else (q, found) b = elim found [ some i ↦ (q, some i) | none ↦ b q ]

  unfoldable pub scan_round : ℕ → Jobs → Jobs × Option ℕ
  scan_round now q =
      or_else (try_prio now prio_high q)
        (λ q1. or_else (try_prio now prio_normal q1) (λ q2. try_prio now prio_low q2))

  unfoldable pub scan : ℕ → ℕ → Jobs → Jobs × Option ℕ
  scan zero now q = (q, none)
  scan (suc rounds) now q = or_else (scan_round now q) (λ q1. scan rounds now q1)

  -- `dequeueNextJob_`, with its bound on the rounds.
  unfoldable pub dequeue_next_job : ℕ → Jobs → Jobs × Option ℕ
  dequeue_next_job now q = scan (q.high.count + q.normal.count + q.low.count + 4) now q

  -- `clearAllJobs_`
  unfoldable pub clear_all_jobs : Jobs → Jobs
  clear_all_jobs q = record {
    jobs = replicate c.max_jobs blank_job;
    high = blank_ring c.high_cap;
    normal = blank_ring c.normal_cap;
    low = blank_ring c.low_cap;
  }
