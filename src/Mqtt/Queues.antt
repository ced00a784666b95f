-- ===== src/Mqtt/Queues.antt =====
-- The rings and `queueSlot_`.
use flowio_waveshare_qwiic.Prelude.{
  ℕ, Bool, true, false, Option, none, some, ◌+◌, ◌-◌, ◌%◌, ◌&&◌, ◌==◌, leb, not, if◌then◌else◌,
  get_elem?, set, u16,
}
use flowio_waveshare_qwiic.Mqtt.Types.{Job, Item, Ring, Capacities, Jobs, prio_high, prio_normal}

-- A push on a ring of the given capacity, with whether there was room.
unfoldable pub ring_push : ℕ → Item → Ring → Ring × Bool
ring_push cap item r = if leb cap r.count then (r, false) else (
  record r { items = set r.items r.tail item; tail = (r.tail + 1) % cap; count = r.count + 1 },
  true,
)

-- A pop; `none` where the ring is empty.
unfoldable pub ring_pop : ℕ → Ring → Ring × Option Item
ring_pop cap r =
    if r.count == 0
    then (r, none)
    else (record r { head = (r.head + 1) % cap; count = r.count - 1 }, get_elem? r.items r.head)

module _ (c : Capacities) where
  -- `queuePush_`
  unfoldable pub queue_push : ℕ → Item → Jobs → Jobs × Bool
  queue_push prio item q =
      if prio == prio_high
      then (let (r, ok) = ring_push c.high_cap item q.high in (record q { high = r }, ok))
      else if prio == prio_normal
      then (let (r, ok) = ring_push c.normal_cap item q.normal in (record q { normal = r }, ok))
      else (let (r, ok) = ring_push c.low_cap item q.low in (record q { low = r }, ok))

  -- `queuePop_`
  unfoldable pub queue_pop : ℕ → Jobs → Jobs × Option Item
  queue_pop prio q =
      if prio == prio_high
      then (let (r, o) = ring_pop c.high_cap q.high in (record q { high = r }, o))
      else if prio == prio_normal
      then (let (r, o) = ring_pop c.normal_cap q.normal in (record q { normal = r }, o))
      else (let (r, o) = ring_pop c.low_cap q.low in (record q { low = r }, o))

  -- A write of a job.
  abbrev pub put_job : ℕ → Job → Jobs → Jobs
  put_job slot j q = record q { jobs = set q.jobs slot j }

  -- The job without its place in a queue, as `queueSlot_` leaves it where `invalidateOld` asks so.
  unfoldable pub invalidated : Bool → Job → Job
  invalidated invalidate_old j =
      if invalidate_old && j.queued
      then record j { queue_token = u16 (j.queue_token + 1); queued = false }
      else j

  -- The job as `queueSlot_` queues it.
  unfoldable pub queued_as : ℕ → Job → Job
  queued_as prio j = record j {
    queued_prio = prio;
    queued = true;
    queue_token = u16 (j.queue_token + 1);
  }

  -- The end of `queueSlot_`: a job that is not in a queue is put into one.
  unfoldable pub push_job : ℕ → ℕ → Job → Jobs → Jobs × Bool
  push_job slot prio j q =
      if j.queued
      then (put_job slot j q, true)
      else (let j1 = queued_as prio j in
          let (q1, ok) =
            queue_push prio (record { slot = slot; token = j1.queue_token }) (put_job slot j1 q) in
          if ok then (q1, true) else (put_job slot (record j1 { queued = false }) q1, false))

  -- `queueSlot_`
  unfoldable pub queue_slot : ℕ → ℕ → Bool → Jobs → Jobs × Bool
  queue_slot slot prio invalidate_old q =
      if leb c.max_jobs slot then (q, false) else elim (get_elem? q.jobs slot) [
        | none ↦ (q, false)
        | some j ↦
            if not j.used then (q, false) else push_job slot prio (invalidated invalidate_old j) q
      ]
