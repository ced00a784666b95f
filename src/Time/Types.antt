-- ===== src/Time/Types.antt =====
-- The data of the scheduler: src/Core/Services/ITimeScheduler.h and TimeModule.h.
use flowio_waveshare_qwiic.Prelude.{ℕ, Bool, true, false, List, replicate}

pub data Mode : Type 0 where
  recurring_clock : Mode
  one_shot_epoch : Mode

abbrev pub is_recurring : Mode → Bool
is_recurring recurring_clock = true
is_recurring one_shot_epoch = false

abbrev pub time_sched_max_slots : ℕ
time_sched_max_slots = 16

abbrev pub time_sched_label_max : ℕ
time_sched_label_max = 24

abbrev pub time_weekday_all : ℕ
time_weekday_all = 127

-- A slot's definition; `label` is the array of 24 bytes.
pub record Definition : Type 0 where
  pub slot : ℕ
  pub event_id : ℕ
  pub enabled : Bool
  pub has_end : Bool
  pub replay_start_on_boot : Bool
  pub label : List ℕ
  pub mode : Mode
  pub weekday_mask : ℕ
  pub start_hour : ℕ
  pub start_minute : ℕ
  pub end_hour : ℕ
  pub end_minute : ℕ
  pub start_epoch_sec : ℕ
  pub end_epoch_sec : ℕ

-- `SchedulerSlotRuntime`
pub record Runtime : Type 0 where
  pub used : Bool
  pub def : Definition
  pub active : Bool
  pub last_trigger_minute_key : ℕ

-- `TimeSchedulerSlot{}` with its slot number.
abbrev pub blank_definition : ℕ → Definition
blank_definition slot = record {
  slot = slot;
  event_id = 0;
  enabled = true;
  has_end = false;
  replay_start_on_boot = true;
  label = replicate 24 0;
  mode = recurring_clock;
  weekday_mask = time_weekday_all;
  start_hour = 0;
  start_minute = 0;
  end_hour = 0;
  end_minute = 0;
  start_epoch_sec = 0;
  end_epoch_sec = 0;
}

abbrev pub invalid_minute_key : ℕ
invalid_minute_key = 4294967295

abbrev pub blank_runtime : ℕ → Runtime
blank_runtime slot = record {
  used = false;
  def = blank_definition slot;
  active = false;
  last_trigger_minute_key = invalid_minute_key;
}

-- The scheduler's part of `TimeModule`, with the one setting that it reads.
pub record Scheduler : Type 0 where
  pub sched : List Runtime
  pub sched_initialized : Bool
  pub active_mask_value : ℕ
  pub week_start_monday : Bool

-- The fields of `struct tm` that the code reads.
pub record LocalTime : Type 0 where
  pub tm_hour : ℕ
  pub tm_min : ℕ
  pub tm_wday : ℕ
  pub tm_mday : ℕ

pub data Edge : Type 0 where
  trigger : Edge
  start : Edge
  stop : Edge

-- `PendingEvent`
pub record Pending : Type 0 where
  pub slot : ℕ
  pub edge : Edge
  pub replayed : ℕ
  pub event_id : ℕ
  pub epoch_sec : ℕ

-- `SchedulerEventTriggeredPayload`
pub record Payload : Type 0 where
  pub slot : ℕ
  pub edge : Edge
  pub replayed : ℕ
  pub event_id : ℕ
  pub epoch_sec : ℕ
  pub active_mask : ℕ
