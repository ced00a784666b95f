-- ===== src/Mqtt/Process.antt =====
-- `processJobs_`: one job taken, built, published and settled, and the loop over the budget.
use flowio_waveshare_qwiic.Prelude.{
  ℕ, zero, suc, Bool, true, false, Option, none, some, List, [], ◌∷◌, ◌+◌, ◌*◌, ◌^◌, ◌&&◌, ◌||◌,
  ◌==◌, ◌!=◌, ltb, not, if◌then◌else◌, get_elem?, u32,
}
use flowio_waveshare_qwiic.Mqtt.Types.{
  Job, blank_job, Capacities, Jobs, BuildResult, ready, retry_later, no_longer_needed,
  permanent_error,
}
use flowio_waveshare_qwiic.Mqtt.Queues.{queue_slot, put_job}
use flowio_waveshare_qwiic.Mqtt.Jobs.{dequeue_next_job}

abbrev pub retry_min_ms : ℕ
retry_min_ms = 250

abbrev pub retry_max_ms : ℕ
retry_max_ms = 10000

-- The delay before the next try.
unfoldable pub backoff : ℕ → ℕ
backoff retry_count =
    let shifted : ℕ = u32 (retry_min_ms * 2 ^ retry_count) in
    let raw : ℕ =
      if ltb 0 retry_count
      then (if ltb retry_max_ms shifted then retry_max_ms else shifted)
      else retry_min_ms in
    if ltb retry_max_ms raw then retry_max_ms else raw

-- A message that was built: its lengths as the producer gave them, the lengths of the texts in the
-- buffers, and whether an empty payload is meant.
pub record Built : Type 0 where
  pub result : BuildResult
  pub topic_len : ℕ
  pub topic_text : ℕ
  pub payload_len : ℕ
  pub payload_text : ℕ
  pub allow_empty_payload : Bool

abbrev measured : ℕ → ℕ → ℕ
measured len text = if len == 0 && text != 0 then text else len

-- What a build comes to once its lengths are checked.
unfoldable pub checked : Built → BuildResult
checked b = elim b.result [
  | ready ↦
      if measured b.topic_len b.topic_text == 0
        || (measured b.payload_len b.payload_text == 0 && not b.allow_empty_payload)
      then permanent_error
      else ready
  | other ↦ other
]

-- Which callback of the producer is called.
pub data Callback : Type 0 where
  published : Callback
  deferred : Callback
  dropped : Callback

abbrev pub wants_retry : BuildResult → Bool
wants_retry ready = true
wants_retry retry_later = true
wants_retry no_longer_needed = false
wants_retry permanent_error = false

module _ (c : Capacities) where
  -- The job put back into its queue.
  unfoldable pub requeue : ℕ → Job → Jobs → Jobs
  requeue slot j q = (queue_slot c slot j.priority false (put_job c slot j q)).0

  -- The last critical section of `processJobs_`, on a job that is used.
  unfoldable pub settle_job : ℕ → Bool → BuildResult → ℕ → Job → Jobs → Jobs × Callback
  settle_job now sent result slot j q =
      if sent
      then (
        if j.requeue_after_process
            then requeue slot
                (record j {
                  processing = false;
                  retry_count = 0;
                  not_before_ms = 0;
                  requeue_after_process = false;
                })
                q
            else put_job c slot blank_job q,
        published,
      )
      else if wants_retry result
      then (
        requeue slot
            (record j {
              retry_count = if ltb j.retry_count 15 then j.retry_count + 1 else j.retry_count;
              not_before_ms = u32 (now + backoff j.retry_count);
              processing = false;
              requeue_after_process = false;
            })
            q,
        deferred,
      )
      else if j.requeue_after_process
      then (
        requeue slot
            (record j {
              processing = false;
              requeue_after_process = false;
              retry_count = 0;
              not_before_ms = 0;
            })
            q,
        deferred,
      )
      else (put_job c slot blank_job q, dropped)

  -- `none` where the job has gone meanwhile.
  unfoldable pub settle : ℕ → Bool → BuildResult → ℕ → Jobs → Jobs × Option Callback
  settle now sent result slot q = elim (get_elem? q.jobs slot) [
    | none ↦ (q, none)
    | some j ↦
        if not j.used
        then (q, none)
        else (let (q1, call) = settle_job now sent result slot j q in (q1, some call))
  ]

  -- The other tasks and the outside between taking a job and settling it: what they enqueue, what the
  -- producer builds (`none` without a producer), and whether the transport accepts a message.
  abbrev pub Outside : Type 0
  Outside = ℕ → ℕ → Jobs → Jobs × Option Built × Bool

  abbrev outcome : Option Built → BuildResult
  outcome none = permanent_error
  outcome (some b) = checked b

  abbrev is_ready : BuildResult → Bool
  is_ready ready = true
  is_ready _ = false

  -- One round of `processJobs_` on the slot that was taken.
  unfoldable pub process_slot : Outside → ℕ → ℕ → Jobs → Jobs × Option Callback
  process_slot outside now slot q = elim (get_elem? q.jobs slot) [
    | none ↦ (q, none)
    | some j ↦
        if not j.used || not j.processing
        then (q, none)
        else (let (q1, built, accepted) = outside j.producer_id j.message_id q in
            let result = outcome built in settle now (is_ready result && accepted) result slot q1)
  ]

  -- The loop, over what is left of the budget, with the callbacks that are made.
  unfoldable pub process_jobs : Outside → ℕ → ℕ → Jobs → Jobs × List Callback
  process_jobs outside now zero q = (q, [])
  process_jobs outside now (suc budget) q =
      let (q1, taken) = dequeue_next_job c now q in
      elim taken [
        | none ↦ (q1, [])
        | some slot ↦
            let (q2, call) = process_slot outside now slot q1 in
            let (q3, calls) = process_jobs outside now budget q2 in
            (q3, elim call [ none ↦ calls | some k ↦ k ∷ calls ])
      ]
