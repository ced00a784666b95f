-- ===== src/Time/Stored/Storable.antt =====
-- Where the tables that can be stored come from: `setSlot_`, `clearSlot_` and `clearAllSlots_`.
use flowio_waveshare_qwiic.Prelude.{
  ℕ, zero, suc, Bool, true, false, Bool-cases, if◌then◌else◌, some, List, [], ◌∷◌, ◌≡◌, ◌≤◌, ◌<◌,
  ◌^◌, ◌+◌, ◌∙◌, inl, inr, refl, arith, length, set, ap, sym, subst, ltb,
}
use flowio_waveshare_qwiic.Time.Types.{
  Mode, recurring_clock, one_shot_epoch, Definition, Runtime, Scheduler,
}
use flowio_waveshare_qwiic.Time.Table.{
  filled, install, normalize, normalize_days, normalize_mode, sanitize_label, set_slot,
}
use flowio_waveshare_qwiic.Time.System.{
  apply_system_slots, blank_from, clear_all_slots, label_of, sys_day_start, sys_week_start,
  sys_month_start, system_event,
}
use flowio_waveshare_qwiic.Time.TableLaws.{slot-normalize, set_slot-install, set_slot-valid}
use flowio_waveshare_qwiic.Time.Runs.{IsTable}
use flowio_waveshare_qwiic.Time.Stored.{is_valid}
use flowio_waveshare_qwiic.Time.Stored.Texts.{Letters, sanitize-label_of}
use flowio_waveshare_qwiic.Time.Stored.Row.{IsStorable}
use flowio_waveshare_qwiic.Time.Stored.RoundTrip.{AreStorable}

-- A request whose fields hold values of their types, with a clean label padded with NUL.
pub record IsRequest (d : Definition) : Type 0 where
  pub event : d.event_id < 65536
  pub clock :
      (d.start_hour < 256) × (d.start_minute < 256) × (d.end_hour < 256) × (d.end_minute < 256)
  pub epochs : (d.start_epoch_sec < 2 ^ 64) × (d.end_epoch_sec < 2 ^ 64)
  pub text : List ℕ
  pub clean : Letters text
  pub short : length text ≤ 23
  pub labelled : d.label ≡ label_of text

days-range : (m : ℕ) → (0 < normalize_days m) × (normalize_days m < 128)
unfolding normalize_days
days-range m = ground arith

mode-IsStorable :
    (mode : Mode) (d n : Definition)
    → d.mode ≡ mode
    → IsRequest d
    → normalize_mode mode d ≡ some n
    → IsStorable d.slot n
unfolding normalize_mode is_valid
mode-IsStorable recurring_clock d n e r h =
    let days = days-range d.weekday_mask in
    record {
      place = ground (arith, h);
      event = ground (arith, h, r.event);
      some_day = ground (arith, h, days);
      days = ground (arith, h, days);
      clock = ground (arith, h, r.clock);
      epochs = ground (arith, h);
      spare = inl (ground (arith, h));
      valid = ground (arith, h, e);
      text = r.text;
      clean = r.clean;
      short = r.short;
      labelled = ground (arith, h, r.labelled);
    }
mode-IsStorable one_shot_epoch d n e r h = record {
  place = ground (arith, h);
  event = ground (arith, h, r.event);
  some_day = ground (arith, h);
  days = ground (arith, h);
  clock = ground (arith, h);
  epochs = ground (arith, h, r.epochs);
  spare = inr (ground (arith, h));
  valid = ground (arith, h, e);
  text = r.text;
  clean = r.clean;
  short = r.short;
  labelled = ground (arith, h, r.labelled);
}

-- What `setSlot_` stores of a request can be written and read back.
normalize-IsStorable : (d n : Definition) → IsRequest d → normalize d ≡ some n → IsStorable d.slot n
unfolding normalize
normalize-IsStorable d n r h =
    let clean : sanitize_label d.label ≡ label_of r.text =
      ap sanitize_label r.labelled ∙ sanitize-label_of r.text r.clean r.short in
    mode-IsStorable d.mode (record d { label = sanitize_label d.label }) n refl
      (record {
        event = r.event;
        clock = r.clock;
        epochs = r.epochs;
        text = r.text;
        clean = r.clean;
        short = r.short;
        labelled = clean;
      })
      h

AreStorable-blank : (n i : ℕ) → AreStorable i (blank_from i n)
unfolding blank_from
AreStorable-blank zero i = tt
AreStorable-blank (suc n) i = (λ u. absurd (cc), AreStorable-blank n (suc i))

AreStorable-set :
    (ss : List Runtime) (i k : ℕ) (s : Runtime)
    → AreStorable i ss
    → (s.used ≡ true → IsStorable (i + k) s.def)
    → AreStorable i (set ss k s)
AreStorable-set [] i k s v h = tt
AreStorable-set (t ∷ ss) i zero s v h =
    (λ u. subst (λ (j : ℕ). IsStorable j s.def) (omega arith) (h u), v.1)
AreStorable-set (t ∷ ss) i (suc k) s v h = (
  v.0,
  AreStorable-set ss (suc i) k s v.1 λ u. subst (λ (j : ℕ). IsStorable j s.def) (omega arith) (h u),
)

-- A request that succeeds leaves a table that can be stored.
pub set_slot-AreStorable :
    (d : Definition) (m : Scheduler)
    → IsTable m
    → IsRequest d
    → (set_slot true d m).1 ≡ true
    → AreStorable 0 m.sched
    → AreStorable 0 (set_slot true d m).0.sched
unfolding install
set_slot-AreStorable d m t r done v =
    let (n, good, low, high) = set_slot-valid d m done in
    let place = slot-normalize d n good in
    subst (λ p. AreStorable 0 p.0.sched) (sym (set_slot-install d n m good low high t))
      (AreStorable-set m.sched 0 n.slot (filled n) v λ _.
        subst (λ (j : ℕ). IsStorable j n) (omega (arith, place)) (normalize-IsStorable d n r good))

event-IsStorable :
    (i e mask : ℕ) (t : List ℕ)
    → e < 65536
    → 0 < mask
    → mask < 128
    → Letters t
    → length t ≤ 23
    → IsStorable i (system_event i e mask (label_of t)).def
unfolding system_event is_valid
event-IsStorable i e mask t event some_day days clean short = record {
  place = refl;
  event = event;
  some_day = some_day;
  days = days;
  clock = omega arith;
  epochs = omega arith;
  spare = inl (refl, refl);
  valid = refl;
  text = t;
  clean = clean;
  short = short;
  labelled = refl;
}

week_day-range :
    (monday : Bool) → (0 < (if monday then 1 else 64)) × ((if monday then 1 else 64) < 128)
week_day-range true = omega arith
week_day-range false = omega arith

system-AreStorable :
    (monday : Bool) (ss : List Runtime)
    → AreStorable 0 ss
    → AreStorable 0 (apply_system_slots monday ss)
unfolding apply_system_slots
system-AreStorable monday ss v = elim (Bool-cases (ltb (length ss) 3)) [
  | inl few ↦ rw (few) v
  | inr enough ↦
      let (low, high) = week_day-range monday in
      rw (enough) (
        AreStorable-set _ 0 2 _
          (AreStorable-set _ 0 1 _
            (AreStorable-set ss 0 0 _ v λ _.
              event-IsStorable 0 0xF001 127 sys_day_start (omega arith) (omega arith) (omega arith)
                (ground arith) (omega arith))
            λ _.
              event-IsStorable 1 0xF002 _ sys_week_start (omega arith) low high (ground arith)
                (omega arith))
          λ _.
            event-IsStorable 2 0xF003 127 sys_month_start (omega arith) (omega arith) (omega arith)
              (ground arith) (omega arith))
]

-- So does the table of the reserved slots only.
pub clear_all-AreStorable :
    (persist : Bool) (m : Scheduler) → AreStorable 0 (clear_all_slots persist m).0.sched
unfolding clear_all_slots
clear_all-AreStorable persist m =
    system-AreStorable m.week_start_monday (blank_from 0 16) (AreStorable-blank 16 0)
