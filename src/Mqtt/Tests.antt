-- ===== src/Mqtt/Tests.antt =====
-- Tests of the publish jobs, and the theorems at concrete queues.
use flowio_waveshare_qwiic.Prelude.{
  true, false, some, List, [], ◌∷◌, ◌≡◌, ◌≢◌, refl, arith, get_elem?,
}
use flowio_waveshare_qwiic.Mqtt.Types.{Job, blank_job, Capacities, Jobs, blank_ring}
use flowio_waveshare_qwiic.Mqtt.Queues.{
  ring_push, ring_pop, queue_push, queue_pop, queue_slot, push_job, invalidated, queued_as,
}
use flowio_waveshare_qwiic.Mqtt.Jobs.{
  find_job_slot, alloc_job_slot, new_job, enqueue_new, enqueue_job, enqueue, take_job, take_item,
  try_prio, scan_round, scan, dequeue_next_job, clear_all_jobs,
}
use flowio_waveshare_qwiic.Mqtt.Runs.{IsQueues, Action, request, act, act_all}
use flowio_waveshare_qwiic.Mqtt.Laws.{clear_all_jobs-IsQueues, act_all-IsQueues}
use flowio_waveshare_qwiic.Mqtt.Passing.{after_dequeues}
use flowio_waveshare_qwiic.Mqtt.Refusal.{raise_into_full}

-- Four jobs, one place of high priority and two of each other.
abbrev small : Capacities
small = record { max_jobs = 4; high_cap = 1; normal_cap = 2; low_cap = 2 }

abbrev no_jobs : Jobs
no_jobs =
    clear_all_jobs small
      (record { jobs = []; high = blank_ring 1; normal = blank_ring 2; low = blank_ring 2 })

no_jobs-IsQueues : IsQueues small no_jobs
no_jobs-IsQueues = clear_all_jobs-IsQueues small _

-- Message 7 waits with normal priority and message 8 with high.
abbrev two_requests : List (Action small)
two_requests = request true 3 7 1 0 ∷ request true 3 8 2 0 ∷ []

act_all-IsQueues_example : IsQueues small (act_all small two_requests no_jobs)
act_all-IsQueues_example = act_all-IsQueues small two_requests no_jobs no_jobs-IsQueues

-- The jobs once both messages wait.
abbrev waiting : Jobs
waiting = record {
  jobs =
      record blank_job {
        used = true;
        queued = true;
        producer_id = 3;
        message_id = 7;
        priority = 1;
        queued_prio = 1;
        queue_token = 1;
      }
      ∷ record blank_job {
        used = true;
        queued = true;
        producer_id = 3;
        message_id = 8;
        priority = 2;
        queued_prio = 2;
        queue_token = 1;
      }
      ∷ blank_job
      ∷ blank_job
      ∷ [];
  high = record { items = record { slot = 1; token = 1 } ∷ []; head = 0; tail = 0; count = 1 };
  normal = record {
    items = record { slot = 0; token = 1 } ∷ record { slot = 0; token = 0 } ∷ [];
    head = 0;
    tail = 1;
    count = 1;
  };
  low = blank_ring 2;
}

requests_run : act_all small two_requests no_jobs ≡ waiting
unfolding act_all act enqueue enqueue_job find_job_slot alloc_job_slot enqueue_new new_job
    queue_slot push_job invalidated queued_as queue_push ring_push clear_all_jobs blank_ring
requests_run = refl

taken_run : (dequeue_next_job small 100 waiting).1 ≡ some 1
unfolding dequeue_next_job scan scan_round try_prio take_item take_job queue_pop ring_pop blank_ring
taken_run = refl

message_found : find_job_slot 3 7 waiting.jobs ≡ some 0
unfolding find_job_slot
message_found = refl

raise_into_full_example :
    ((enqueue_job small 3 7 2 0 waiting).1 ≡ false)
    × ((k : Job) × (get_elem? (enqueue_job small 3 7 2 0 waiting).0.jobs 0 ≡ some k)
        × (k.used ≡ true)
        × (k.queued ≡ false)
        × (k.processing ≡ false))
    × ((dequeue_next_job small 300
          (after_dequeues small (100 ∷ 200 ∷ []) (enqueue_job small 3 7 2 0 waiting).0)).1
        ≢ some 0)
raise_into_full_example =
    raise_into_full small 3 7 0 0 _ waiting (100 ∷ 200 ∷ []) 300 message_found refl (omega arith)
      refl refl refl (omega arith) (omega arith) (omega arith)
