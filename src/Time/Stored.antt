-- ===== src/Time/Stored.antt =====
-- The stored form of the schedule: `serializeSchedule_` and `loadScheduleFromBlob_`. A text is the
-- list of its bytes without the NUL that ends it.
mod Texts
mod Row
pub mod RoundTrip
mod Storable
mod Loop
mod Tests
use flowio_waveshare_qwiic.Prelude.{
  ℕ, zero, suc, Bool, true, false, not, Option, none, some, List, [], ◌∷◌, ◌++◌, ◌+◌, ◌-◌, ◌%◌,
  ◌==◌, ◌&&◌, ◌||◌, leb, ltb, if◌then◌else◌, bit, length, set, take,
}
use flowio_waveshare_qwiic.Time.Types.{
  Mode, recurring_clock, one_shot_epoch, is_recurring, Definition, Runtime, Scheduler,
  time_sched_max_slots,
}
use flowio_waveshare_qwiic.Time.Table.{filled, normalize_days, sanitize_label}
use flowio_waveshare_qwiic.Time.System.{apply_system_slots, blank_from, label_of}
use flowio_waveshare_qwiic.Time.Decimal.{print_number, scan_number}

infixl 5 ◌>>=◌
abbrev pub ◌>>=◌ {ℓ κ} : {A : Type ℓ} {B : Type κ} → Option A → (A → Option B) → Option B
none >>= f = none
some a >>= f = f a

-- The text in an array.
unfoldable pub text_of : List ℕ → List ℕ
text_of [] = []
text_of (c ∷ cs) = let rest = text_of cs in if c == 0 then [] else c ∷ rest

-- The flags of a slot.
unfoldable pub pack_flags : Definition → ℕ
pack_flags d =
    (if d.enabled then 1 else 0)
    + (if d.has_end then 4 else 0)
    + (if is_recurring d.mode then 0 else 8)
    + (if d.replay_start_on_boot then 16 else 0)

-- The label that is written: at most 23 bytes, sanitised.
unfoldable pub printed_label : Definition → List ℕ
printed_label d = text_of (sanitize_label (label_of (take 23 (text_of d.label))))

-- A number and the comma behind it.
unfoldable pub print_field : ℕ → List ℕ → List ℕ
print_field n rest = print_number n ++ (b',' ∷ rest)

-- The text that the format `%u,%u,%u,%u,%u,%u,%u,%u,%llu,%llu,%s;` gives, without the `;`.
unfoldable pub print_row : Definition → List ℕ
print_row d = print_field d.slot (
    print_field d.event_id (
      print_field (pack_flags d) (
        print_field d.weekday_mask (
          print_field d.start_hour (
            print_field d.start_minute (
              print_field d.end_hour (
                print_field d.end_minute (
                  print_field d.start_epoch_sec
                    (print_field d.end_epoch_sec (printed_label d))))))))))

-- The loop of `serializeSchedule_` with `room` for `outLen - pos`; `none` is its result `false`.
unfoldable pub serialize_from : ℕ → List Runtime → Option (List ℕ)
serialize_from room [] = some []
serialize_from room (s ∷ ss) =
    let row = print_row s.def ++ (b';' ∷ []) in
    let skipped = serialize_from room ss in
    let rest = serialize_from (room - length row) ss in
    if not s.used
    then skipped
    else if leb room (length row)
    then none
    else do text ← rest; some (row ++ text)

-- `serializeSchedule_`
unfoldable pub serialize_schedule : ℕ → Scheduler → Option (List ℕ)
serialize_schedule out_len m = if out_len == 0 then none else serialize_from out_len m.sched

-- What `sscanf` finds in a token.
pub record Fields : Type 0 where
  pub slot : ℕ
  pub event_id : ℕ
  pub flags : ℕ
  pub weekday_mask : ℕ
  pub start_h : ℕ
  pub start_m : ℕ
  pub end_h : ℕ
  pub end_m : ℕ
  pub start_epoch : ℕ
  pub end_epoch : ℕ
  pub label : List ℕ

-- `%23[^;]`, with `k` for 23: the bytes before a `;`.
unfoldable pub scan_set : ℕ → List ℕ → List ℕ
scan_set zero cs = []
scan_set (suc k) [] = []
scan_set (suc k) (c ∷ cs) = let rest = scan_set k cs in if c == b';' then [] else c ∷ rest

-- `,%23[^;]`
unfoldable pub scan_label : List ℕ → List ℕ
scan_label [] = []
scan_label (c ∷ cs) = if c == b',' then scan_set 23 cs else []

-- `,`
unfoldable pub scan_comma : List ℕ → Option (List ℕ)
scan_comma [] = none
scan_comma (c ∷ cs) = if c == b',' then some cs else none

-- A number and the comma behind it.
unfoldable pub scan_field : ℕ → List ℕ → Option (ℕ × List ℕ)
scan_field w p = do (v, rest) ← scan_number w p; q ← scan_comma rest; some (v, q)

-- `sscanf`; `none` is a result below 10, and no label is a result of 10.
unfoldable pub scan_row : List ℕ → Option Fields
scan_row token = do
  (slot, p1) ← scan_field 32 token
  (event_id, p2) ← scan_field 32 p1
  (flags, p3) ← scan_field 32 p2
  (weekday_mask, p4) ← scan_field 32 p3
  (start_h, p5) ← scan_field 32 p4
  (start_m, p6) ← scan_field 32 p5
  (end_h, p7) ← scan_field 32 p6
  (end_m, p8) ← scan_field 32 p7
  (start_epoch, p9) ← scan_field 64 p8
  (end_epoch, p10) ← scan_number 64 p9
  some (record {
    slot = slot;
    event_id = event_id;
    flags = flags;
    weekday_mask = weekday_mask;
    start_h = start_h;
    start_m = start_m;
    end_h = end_h;
    end_m = end_m;
    start_epoch = start_epoch;
    end_epoch = end_epoch;
    label = scan_label p10;
  })

-- The bytes that are skipped in front of a token.
abbrev pub is_separator : ℕ → Bool
is_separator c = c == b';' || (c == b' ' || (c == 10 || (c == 13 || c == 9)))

unfoldable pub skip_separators : List ℕ → List ℕ
skip_separators [] = []
skip_separators (c ∷ cs) = let rest = skip_separators cs in if is_separator c then rest else c ∷ cs

-- The bytes up to the next `;`, and those behind it.
unfoldable pub split_token : List ℕ → List ℕ × List ℕ
split_token [] = ([], [])
split_token (c ∷ cs) =
    let rest = split_token cs in if c == b';' then ([], cs) else (c ∷ rest.0, rest.1)

-- The definition that the fields of a token stand for.
unfoldable pub unpack : Fields → Definition
unpack f = record {
  slot = f.slot % 256;
  event_id = f.event_id % 65536;
  enabled = bit f.flags 0;
  has_end = bit f.flags 2;
  replay_start_on_boot = bit f.flags 4;
  label = if length f.label == 0 then label_of [] else sanitize_label (label_of f.label);
  mode = if bit f.flags 3 then one_shot_epoch else recurring_clock;
  weekday_mask = normalize_days f.weekday_mask;
  start_hour = f.start_h % 256;
  start_minute = f.start_m % 256;
  end_hour = f.end_h % 256;
  end_minute = f.end_m % 256;
  start_epoch_sec = f.start_epoch;
  end_epoch_sec = f.end_epoch;
}

-- `valid`
unfoldable pub is_valid : Definition → Bool
is_valid d =
    if is_recurring d.mode
    then not (ltb 23 d.start_hour || ltb 59 d.start_minute)
      && not (d.has_end && (ltb 23 d.end_hour || ltb 59 d.end_minute))
    else not (ltb d.start_epoch_sec 1609459200)
      && not (d.has_end && leb d.end_epoch_sec d.start_epoch_sec)

-- One round of the loop of `loadScheduleFromBlob_`, once the token is read.
unfoldable pub load_row : List ℕ → List Runtime → List Runtime
load_row token slots = elim (scan_row token) [
  | none ↦ slots
  | some f ↦
      if leb time_sched_max_slots f.slot
      then slots
      else if is_valid (unpack f)
      then set slots (unpack f).slot (filled (unpack f))
      else slots
]

-- The loop; each round reads a byte at least, so the length of the text is fuel enough. A token
-- keeps its first 159 bytes.
unfoldable pub load_rows : ℕ → List ℕ → List Runtime → List Runtime
load_rows zero p slots = slots
load_rows (suc n) p slots = elim (skip_separators p) [
  | [] ↦ slots
  | c ∷ cs ↦
      load_rows n (split_token (c ∷ cs)).1 (load_row (take 159 (split_token (c ∷ cs)).0) slots)
]

-- `loadScheduleFromBlob_`, but for the flag `schedNeedsReload_`.
unfoldable pub load_schedule : List ℕ → Scheduler → Scheduler
load_schedule text m = record m {
  sched =
      apply_system_slots m.week_start_monday
        (load_rows (length text) text (blank_from 0 time_sched_max_slots));
  sched_initialized = false;
  active_mask_value = 0;
}

-- `persistSchedule_`: whether there is a configuration store, whether the buffer was allocated, and
-- what the store answers to a text.
unfoldable pub persist_schedule : Bool → Bool → (List ℕ → Bool) → Scheduler → Bool
persist_schedule has_store allocated store m =
    if not has_store || not allocated
    then false
    else elim (serialize_schedule 1536 m) [ none ↦ false | some text ↦ store text ]
