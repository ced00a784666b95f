-- ===== src/Mqtt/Types.antt =====
-- Jobs, queue items, rings and capacities: MQTTModule.h and IMqtt.h.
use flowio_waveshare_qwiic.Prelude.{ℕ, Bool, false, List, replicate}

pub record Job : Type 0 where
  pub used : Bool
  pub queued : Bool
  pub processing : Bool
  pub requeue_after_process : Bool
  pub producer_id : ℕ
  pub message_id : ℕ
  pub priority : ℕ
  pub flags : ℕ
  pub retry_count : ℕ
  pub not_before_ms : ℕ
  pub queued_prio : ℕ
  pub queue_token : ℕ

-- `Job{}`
abbrev pub blank_job : Job
blank_job = record {
  used = false;
  queued = false;
  processing = false;
  requeue_after_process = false;
  producer_id = 0;
  message_id = 0;
  priority = 0;
  flags = 0;
  retry_count = 0;
  not_before_ms = 0;
  queued_prio = 0;
  queue_token = 0;
}

-- `JobQueueItem`
pub record Item : Type 0 where
  pub slot : ℕ
  pub token : ℕ

-- `JobRing`
pub record Ring : Type 0 where
  pub items : List Item
  pub head : ℕ
  pub tail : ℕ
  pub count : ℕ

-- The capacities, which the board's profile sets.
pub record Capacities : Type 0 where
  pub max_jobs : ℕ
  pub high_cap : ℕ
  pub normal_cap : ℕ
  pub low_cap : ℕ

-- The jobs and their three queues.
pub record Jobs : Type 0 where
  pub jobs : List Job
  pub high : Ring
  pub normal : Ring
  pub low : Ring

-- `MqttPublishPriority`
abbrev pub prio_low : ℕ
prio_low = 0

abbrev pub prio_normal : ℕ
prio_normal = 1

abbrev pub prio_high : ℕ
prio_high = 2

-- `MqttBuildResult`
pub data BuildResult : Type 0 where
  ready : BuildResult
  retry_later : BuildResult
  no_longer_needed : BuildResult
  permanent_error : BuildResult

-- `JobRing<N>{}`
unfoldable pub blank_ring : ℕ → Ring
blank_ring n = record {
  items = replicate n (record { slot = 0; token = 0 });
  head = 0;
  tail = 0;
  count = 0;
}
