-- ===== src/Alarm/Types.antt =====
-- The data of the alarm engine. An `AlarmId` is its number (0 is `None`), a `char` array the
-- bytes before its NUL, a callback or context pointer its address (0 is null).
use flowio_waveshare_qwiic.Prelude.{ℕ, Bool, true, false, List, []}

-- `AlarmCondState`: the callback says that the condition is false, true, or not known.
pub data CondState : Type 0 where
  healthy faulty unknown : CondState

abbrev pub same_cond : CondState → CondState → Bool
same_cond healthy healthy = true
same_cond faulty faulty = true
same_cond unknown unknown = true
same_cond _ _ = false

abbrev pub is_faulty : CondState → Bool
is_faulty faulty = true
is_faulty _ = false

abbrev pub is_healthy : CondState → Bool
is_healthy healthy = true
is_healthy _ = false

pub data EventId : Type 0 where
  alarm_raised alarm_cleared alarm_reset alarm_condition_changed : EventId

-- `AlarmRegistration`
pub record Registration : Type 0 where
  pub id : ℕ
  pub severity : ℕ
  pub latched : Bool
  pub on_delay_ms : ℕ
  pub off_delay_ms : ℕ
  pub min_repeat_ms : ℕ
  pub code : List ℕ
  pub title : List ℕ

abbrev pub no_registration : Registration
no_registration = record {
  id = 0;
  severity = 0;
  latched = false;
  on_delay_ms = 0;
  off_delay_ms = 0;
  min_repeat_ms = 0;
  code = [];
  title = [];
}

-- `AlarmSlot`
pub record Slot : Type 0 where
  pub used : Bool
  pub id : ℕ
  pub def : Registration
  pub cond_fn : ℕ
  pub cond_ctx : ℕ
  pub active : Bool
  pub last_cond : CondState
  pub on_since_ms : ℕ
  pub off_since_ms : ℕ
  pub active_since_ms : ℕ
  pub last_change_ms : ℕ
  pub last_notify_ms : ℕ

-- `AlarmSlot{}`
abbrev pub blank_slot : Slot
blank_slot = record {
  used = false;
  id = 0;
  def = no_registration;
  cond_fn = 0;
  cond_ctx = 0;
  active = false;
  last_cond = unknown;
  on_since_ms = 0;
  off_since_ms = 0;
  active_since_ms = 0;
  last_change_ms = 0;
  last_notify_ms = 0;
}

-- The module: its slots, whether it has an event bus, and the events that it has posted, oldest
-- first.
pub record Alarms : Type 0 where
  pub slots : List Slot
  pub has_bus : Bool
  pub posted : List (EventId × ℕ)

-- `Limits::Alarm::MaxAlarms`
abbrev pub max_alarms : ℕ
max_alarms = 16
