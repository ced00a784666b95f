-- ===== src/Alarm/Tests.antt =====
-- Instances of the alarm engine's theorems at a table with one latched and one plain alarm.
use flowio_waveshare_qwiic.Prelude.{
  ◌≡◌, refl, true, false, [], ◌∷◌, replicate, arith, map, ◌&&◌, if◌then◌else◌,
}
use flowio_waveshare_qwiic.Alarm.Types.{
  healthy, faulty, EventId, Registration, Slot, blank_slot, Alarms,
}
use flowio_waveshare_qwiic.Alarm.Registry.{
  reset, reset_slots, is_resettable, find_slot_by_id, emit_alarm_event,
}
use flowio_waveshare_qwiic.Alarm.Engine.{
  advance, evaluate_once, take_due, reminder_due, emit_each, evaluate_from, evaluate_slot, sample,
  commit, announce, note_alarm_notified,
}
use flowio_waveshare_qwiic.Alarm.Keys.{IsTable}
use flowio_waveshare_qwiic.Alarm.Timers.{samples, on_delay_exact}
use flowio_waveshare_qwiic.Alarm.Clearing.{clear_claimed, reset_exact}

abbrev psi_def : Registration
psi_def = record {
  id = 1000;
  severity = 3;
  latched = true;
  on_delay_ms = 2000;
  off_delay_ms = 0;
  min_repeat_ms = 60000;
  code = 112 ∷ [];
  title = 80 ∷ [];
}

abbrev level_def : Registration
level_def = record psi_def { id = 1006; severity = 1; latched = false; off_delay_ms = 500 }

abbrev psi_slot : Slot
psi_slot = record blank_slot { used = true; id = 1000; def = psi_def; cond_fn = 1; cond_ctx = 9 }

abbrev level_slot : Slot
level_slot = record psi_slot {
  id = 1006;
  def = level_def;
  cond_fn = 2;
  active = true;
  last_cond = healthy;
}

abbrev psi_cleared : Slot
psi_cleared = record psi_slot { active = true; last_cond = healthy }

abbrev two_alarms : Alarms
two_alarms = record {
  slots = psi_cleared ∷ level_slot ∷ replicate 14 blank_slot;
  has_bus = true;
  posted = [];
}

two_alarms-IsTable : IsTable two_alarms.slots
two_alarms-IsTable = ground arith

on_delay_exact_example :
    ((samples ((faulty, 100) ∷ (faulty, 1100) ∷ []) psi_slot).active ≡ false)
    × ((advance faulty 2100 (samples ((faulty, 100) ∷ (faulty, 1100) ∷ []) psi_slot)).0.active
        ≡ true)
    × ((advance faulty 2100 (samples ((faulty, 100) ∷ (faulty, 1100) ∷ []) psi_slot)).1.raised
        ≡ true)
on_delay_exact_example =
    on_delay_exact 100 2000 2100 ((faulty, 1100) ∷ []) psi_slot (omega arith) (omega arith) refl
      refl refl ((refl, omega arith), tt) (omega arith)

-- Two alarms wait, one is raised and the other cleared, and the events say so.
evaluate_runs :
    (evaluate_once (λ fn ctx now. faulty) 5000 two_alarms).posted
    ≡ (EventId.alarm_condition_changed, 1000) ∷ (EventId.alarm_condition_changed, 1006) ∷ []
unfolding evaluate_once take_due reminder_due emit_each evaluate_from evaluate_slot sample commit
    advance announce emit_alarm_event note_alarm_notified find_slot_by_id
evaluate_runs = refl

reset_exact_example :
    ((reset 1000 7000 two_alarms).1 ≡ is_resettable 1000 two_alarms)
    × ((reset 1000 7000 two_alarms).0.slots ≡ map (clear_claimed 1000 7000) two_alarms.slots)
    × ((reset 1000 7000 two_alarms).0.posted ≡ (
        if is_resettable 1000 two_alarms && true
        then (EventId.alarm_reset, 1000) ∷ (EventId.alarm_cleared, 1000) ∷ []
        else []))
reset_exact_example = reset_exact 1000 7000 two_alarms two_alarms-IsTable

reset_runs : (reset 1000 7000 two_alarms).1 ≡ true
unfolding reset reset_slots find_slot_by_id
reset_runs = refl
