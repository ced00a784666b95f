-- ===== src/Bus/Types.antt =====
-- The data of the bus (EventBus.h), and what it takes from the queue of the operating system.
use flowio_waveshare_qwiic.Prelude.{
  ℕ, Bool, true, false, Option, none, some, List, [], ◌∷◌, ◌++◌, ◌≡◌, ◌<◌, ◌≤◌, length,
}

-- `QueuedEvent`; `bytes` is `none` where the code leaves the array as it finds it.
pub record Queued : Type 0 where
  pub id : ℕ
  pub len : ℕ
  pub bytes : Option (List ℕ)

-- `Subscriber`; callbacks and their contexts are told apart by numbers.
pub record Subscriber : Type 0 where
  pub id : ℕ
  pub cb : ℕ
  pub user : ℕ

-- `SubscribeRejectInfo`; `reason` is 1 for a null callback and 2 for a full table.
pub record RejectInfo : Type 0 where
  pub seq : ℕ
  pub ts_ms : ℕ
  pub event_id : ℕ
  pub cb : ℕ
  pub user : ℕ
  pub reason : ℕ

pub record RejectLog : Type 0 where
  pub total : ℕ
  pub null_cb_total : ℕ
  pub capacity_total : ℕ
  pub ring : List RejectInfo
  pub write_idx : ℕ

-- The counters of posts, and those of the window of five seconds.
pub record Stats : Type 0 where
  pub ok_total : ℕ
  pub drop_total : ℕ
  pub drop_from_isr_total : ℕ
  pub drop_too_large_total : ℕ
  pub drop_no_queue_total : ℕ
  pub win_start_ms : ℕ
  pub win_drop_count : ℕ
  pub win_current_drop_burst : ℕ
  pub win_max_drop_burst : ℕ

-- A queue of the operating system: a send that does not wait appends to the events waiting, or fails
-- if there are `capacity` of them; a receive takes the oldest.
pub record QueueOps : Type 1 where
  pub Queue : Type 0
  pub capacity : ℕ
  pub waiting : Queue → List Queued
  pub send : Queue → Queued → Queue × Bool
  pub receive : Queue → Queue × Option Queued
  pub send_room :
      (q : Queue) (e : Queued)
      → length (waiting q) < capacity
      → ((send q e).1 ≡ true) × (waiting (send q e).0 ≡ waiting q ++ (e ∷ []))
  pub send_full :
      (q : Queue) (e : Queued)
      → capacity ≤ length (waiting q)
      → ((send q e).1 ≡ false) × (waiting (send q e).0 ≡ waiting q)
  pub receive_empty :
      (q : Queue) → waiting q ≡ [] → ((receive q).1 ≡ none) × (waiting (receive q).0 ≡ [])
  pub receive_next :
      (q : Queue) (e : Queued) (es : List Queued)
      → waiting q ≡ e ∷ es
      → ((receive q).1 ≡ some e) × (waiting (receive q).0 ≡ es)

module _ (o : QueueOps) where
  open o use {Queue}

  -- `EventBus`; `queue` is `none` where it could not be created.
  pub record Bus : Type 0 where
    pub subs : List Subscriber
    pub max_subscribers : ℕ
    pub queue : Option Queue
    pub stats : Stats
    pub rejects : RejectLog
