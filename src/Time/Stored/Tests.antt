-- ===== src/Time/Stored/Tests.antt =====
-- Tests of the stored schedule.
use flowio_waveshare_qwiic.Prelude.{
  ℕ, true, false, some, List, [], ◌∷◌, ◌++◌, ◌≡◌, refl, arith, replicate, length,
}
use flowio_waveshare_qwiic.Time.Types.{recurring_clock, Definition, Scheduler}
use flowio_waveshare_qwiic.Time.Table.{
  normalize, normalize_mode, normalize_days, set_slot, install, sanitize_label, sanitize_bytes,
}
use flowio_waveshare_qwiic.Time.System.{
  apply_system_slots, blank_from, clear_all_slots, label_of, sys_day_start,
}
use flowio_waveshare_qwiic.Time.Decimal.{print_number, scan_number}
use flowio_waveshare_qwiic.Time.Reserved.{clear_all-IsTable}
use flowio_waveshare_qwiic.Time.Stored.{
  text_of, pack_flags, printed_label, print_field, print_row, serialize_schedule, scan_set,
  scan_label, scan_comma, scan_field, scan_row, unpack, is_valid, load_row, load_rows,
  load_schedule, skip_separators, split_token, ◌>>=◌,
}
use flowio_waveshare_qwiic.Time.Stored.RoundTrip.{reloaded, load-serialize}
use flowio_waveshare_qwiic.Time.Stored.Storable.{set_slot-AreStorable, clear_all-AreStorable}

-- The module as it boots.
abbrev boot : Scheduler
boot = record {
  sched = blank_from 0 16;
  sched_initialized = true;
  active_mask_value = 4;
  week_start_monday = false;
}

abbrev fresh : Scheduler
fresh = (clear_all_slots true boot).0

-- 22:00 to 06:00 on Mondays, in slot 5, with a label.
abbrev night : Definition
night = record {
  slot = 5;
  event_id = 77;
  enabled = true;
  has_end = true;
  replay_start_on_boot = true;
  label = label_of sys_day_start;
  mode = recurring_clock;
  weekday_mask = 1;
  start_hour = 22;
  start_minute = 0;
  end_hour = 6;
  end_minute = 0;
  start_epoch_sec = 0;
  end_epoch_sec = 0;
}

-- `5,77,21,1,22,0,6,0,0,0,sys_day_start`
night_text : print_row night ≡ (
    b'5' ∷ b',' ∷ b'7' ∷ b'7' ∷ b',' ∷ b'2' ∷ b'1' ∷ b',' ∷ b'1' ∷ b',' ∷ b'2' ∷ b'2' ∷ b',' ∷ b'0'
    ∷ b',' ∷ b'6' ∷ b',' ∷ b'0' ∷ b',' ∷ b'0' ∷ b',' ∷ b'0' ∷ b',' ∷ sys_day_start)
unfolding print_row print_field print_number pack_flags printed_label text_of sanitize_label
    sanitize_bytes label_of
night_text = refl

-- A sign, white space and a number that is too large, as `strtoul` reads them.
signs :
    (scan_number 32 (b' ' ∷ b'+' ∷ b'7' ∷ b',' ∷ []) ≡ some (7, b',' ∷ []))
    × (scan_number 32 (b'-' ∷ b'1' ∷ []) ≡ some (4294967295, []))
    × (scan_number 32 (replicate 11 b'9') ≡ some (4294967295, []))
unfolding scan_number
signs = (refl, refl, refl)

-- A slot of a number over 15 is passed over, and the one behind it is read.
abbrev line : ℕ → List ℕ
line slot =
    slot ∷ b',' ∷ b'9' ∷ b',' ∷ b'1' ∷ b',' ∷ b'0' ∷ b',' ∷ b'8' ∷ b',' ∷ b'0' ∷ b',' ∷ b'0' ∷ b','
    ∷ b'0' ∷ b',' ∷ b'0' ∷ b',' ∷ b'0' ∷ b';' ∷ []

passed_over :
    load_rows 60 ((b'9' ∷ line b'9') ++ (10 ∷ line b'1')) (blank_from 0 2)
    ≡ load_rows 30 (line b'1') (blank_from 0 2)
unfolding load_rows load_row skip_separators split_token scan_row scan_field scan_comma scan_number
    scan_label scan_set unpack is_valid normalize_days
passed_over = refl

night_runs : (set_slot true night fresh).1 ≡ true
unfolding set_slot normalize normalize_mode clear_all_slots
night_runs = refl

fresh_size : length (set_slot true night fresh).0.sched ≡ 16
unfolding set_slot normalize normalize_mode clear_all_slots install
fresh_size = refl

load-serialize_example :
    (serialize_schedule 1536 (set_slot true night fresh).0 >>= λ text.
    some (load_schedule text boot))
    ≡ some (record boot {
      sched = apply_system_slots false (reloaded 0 (set_slot true night fresh).0.sched);
      sched_initialized = false;
      active_mask_value = 0;
    })
load-serialize_example = load-serialize (set_slot true night fresh).0 boot fresh_size (
    set_slot-AreStorable night fresh (clear_all-IsTable true boot)
      (record {
        event = omega arith;
        clock = omega arith;
        epochs = omega arith;
        text = sys_day_start;
        clean = ground arith;
        short = omega arith;
        labelled = refl;
      })
      night_runs (clear_all-AreStorable true boot))
