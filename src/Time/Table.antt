-- ===== src/Time/Table.antt =====
-- The operations on the slot table: `setSlot_`, `getSlot_`, `clearSlot_` and the others.
-- `persist` is the result of `persistSchedule_`: whether the table could be stored.
use flowio_waveshare_qwiic.Prelude.{
  ℕ, Bool, true, false, Option, none, some, List, [], ◌∷◌, ◌&&◌, ◌||◌, ◌==◌, ltb, leb, ◌+◌, ◌-◌,
  ◌%◌, ◌^◌, if◌then◌else◌, set, get_elem?, bit,
}
use flowio_waveshare_qwiic.Time.Types.{
  Mode, recurring_clock, one_shot_epoch, Definition, Runtime, Scheduler, blank_runtime,
  time_sched_max_slots, time_sched_label_max, time_weekday_all, invalid_minute_key,
}

-- `isSystemSlot_`
unfoldable pub is_system_slot : ℕ → Bool
is_system_slot slot = ltb slot 3

-- `m | (1u << i)` and `m & ~(1u << i)`
unfoldable pub set_bit : ℕ → ℕ → ℕ
set_bit m i = if bit m i then m else m + 2 ^ i

unfoldable pub clear_bit : ℕ → ℕ → ℕ
clear_bit m i = if bit m i then m - 2 ^ i else m

-- The bytes that a label may hold.
abbrev pub label_byte : ℕ → Bool
label_byte c =
    (leb b'a' c && leb c b'z')
    || ((leb b'A' c && leb c b'Z')
        || ((leb b'0' c && leb c b'9') || (c == b'_' || (c == b'-' || c == b'.'))))

-- The loop of `sanitizeLabel_`, up to the end of the text; `isprint` is true of every byte that
-- passes the first test.
unfoldable pub sanitize_bytes : List ℕ → List ℕ
sanitize_bytes [] = []
sanitize_bytes (c ∷ cs) =
    let rest = sanitize_bytes cs in
    if c == 0 then c ∷ cs else (if label_byte c then c else b'_') ∷ rest

-- `sanitizeLabel_`
unfoldable pub sanitize_label : List ℕ → List ℕ
sanitize_label label = set (sanitize_bytes label) (time_sched_label_max - 1) 0

-- `uint8_t & TIME_WEEKDAY_ALL`, and every day for none.
unfoldable pub normalize_days : ℕ → ℕ
normalize_days mask = if mask % 128 == 0 then time_weekday_all else mask % 128

unfoldable pub normalize_mode : Mode → Definition → Option Definition
unfolding normalize_days
normalize_mode recurring_clock d =
    if ltb 23 d.start_hour || ltb 59 d.start_minute
    then none
    else if d.has_end && (ltb 23 d.end_hour || ltb 59 d.end_minute)
    then none
    else some (record d {
      weekday_mask = normalize_days d.weekday_mask;
      start_epoch_sec = 0;
      end_epoch_sec = 0;
    })
normalize_mode one_shot_epoch d =
    if ltb d.start_epoch_sec 1609459200
    then none
    else if d.has_end && leb d.end_epoch_sec d.start_epoch_sec
    then none
    else some (record d {
      weekday_mask = time_weekday_all;
      start_hour = 0;
      start_minute = 0;
      end_hour = 0;
      end_minute = 0;
    })

-- The checks of `setSlot_` and the definition that it stores.
unfoldable pub normalize : Definition → Option Definition
unfolding normalize_mode
normalize d = normalize_mode d.mode (record d { label = sanitize_label d.label })

-- A slot as `setSlot_` fills it.
abbrev pub filled : Definition → Runtime
filled d = record {
  used = true;
  def = d;
  active = false;
  last_trigger_minute_key = invalid_minute_key;
}

-- The first critical section of `setSlot_`.
unfoldable pub install : Definition → Scheduler → Scheduler
install d m = record m {
  sched = set m.sched d.slot (filled d);
  sched_initialized = false;
  active_mask_value = clear_bit m.active_mask_value d.slot;
}

-- The second critical section of `setSlot_`, where the table could not be stored: what the first
-- one saved of `old` is put back.
unfoldable pub restore : ℕ → Runtime → Scheduler → Scheduler → Scheduler
restore slot previous old m = record m {
  sched = set m.sched slot previous;
  sched_initialized = old.sched_initialized;
  active_mask_value = old.active_mask_value;
}

-- `setSlot_`, as one step: its two critical sections and the store between them, where no other task
-- changes the table meanwhile.
unfoldable pub set_slot : Bool → Definition → Scheduler → Scheduler × Bool
unfolding is_system_slot
set_slot persist d m =
    if leb time_sched_max_slots d.slot
    then (m, false)
    else if is_system_slot d.slot
    then (m, false)
    else elim (normalize d) [
      | none ↦ (m, false)
      | some n ↦ elim (get_elem? m.sched n.slot) [
        | none ↦ (m, false)
        | some previous ↦
            if persist
            then (install n m, true)
            else (restore n.slot previous m (install n m), false)
      ]
    ]

-- `getSlot_`
unfoldable pub get_slot : ℕ → Scheduler → Option Definition
get_slot slot m = if leb time_sched_max_slots slot then none else elim (get_elem? m.sched slot) [
  | none ↦ none
  | some s ↦ if s.used then some s.def else none
]

-- `clearSlot_`
unfoldable pub clear_slot : Bool → ℕ → Scheduler → Scheduler × Bool
unfolding is_system_slot
clear_slot persist slot m =
    if leb time_sched_max_slots slot
    then (m, false)
    else if is_system_slot slot
    then (m, false)
    else (
      record m {
        sched = set m.sched slot (blank_runtime slot);
        active_mask_value = clear_bit m.active_mask_value slot;
      },
      persist,
    )
