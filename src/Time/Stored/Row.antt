-- ===== src/Time/Stored/Row.antt =====
-- One line of the stored schedule: what `snprintf` writes of a slot, `sscanf` reads again.
use native.Mathlib.Nat.{mod-eq_of_lt}
use flowio_waveshare_qwiic.Prelude.{
  ℕ, true, List, [], ◌∷◌, ◌≡◌, ◌≤◌, ◌<◌, ◌^◌, ◌+◌, ◌*◌, sym, subst, suc, if◌then◌else◌, ◌⊎◌, ◌==◌,
  inl, inr, some, refl, arith, length, All, ◌∙◌, bit, length-append, All-append,
}
use flowio_waveshare_qwiic.Time.Types.{recurring_clock, one_shot_epoch, Definition}
use flowio_waveshare_qwiic.Time.Table.{normalize_days, sanitize_label}
use flowio_waveshare_qwiic.Time.System.{label_of}
use flowio_waveshare_qwiic.Time.Decimal.{print_number, scan-print, length-print, All-print}
use flowio_waveshare_qwiic.Time.Stored.{
  pack_flags, printed_label, print_field, print_row, Fields, scan_comma, scan_field, scan_label,
  scan_row, unpack, is_valid,
}
use flowio_waveshare_qwiic.Time.Stored.Texts.{
  Letters, Inside, printed_label_lem, sanitize-label_of, Inside-Letters, scan_set-short,
}

-- What the fields of a slot's definition hold once `setSlot_` has stored it in slot `i`: values of
-- their types, those of the other mode 0, and a clean label padded with NUL.
pub record IsStorable (i : ℕ) (d : Definition) : Type 0 where
  pub place : d.slot ≡ i
  pub event : d.event_id < 65536
  pub some_day : 0 < d.weekday_mask
  pub days : d.weekday_mask < 128
  pub clock :
      (d.start_hour < 256) × (d.start_minute < 256) × (d.end_hour < 256) × (d.end_minute < 256)
  pub epochs : (d.start_epoch_sec < 2 ^ 64) × (d.end_epoch_sec < 2 ^ 64)
  pub spare :
      ((d.start_epoch_sec ≡ 0) × (d.end_epoch_sec ≡ 0))
      ⊎ ((d.start_hour ≡ 0) × (d.start_minute ≡ 0) × (d.end_hour ≡ 0) × (d.end_minute ≡ 0))
  pub valid : is_valid d ≡ true
  pub text : List ℕ
  pub clean : Letters text
  pub short : length text ≤ 23
  pub labelled : d.label ≡ label_of text

-- The fields of a definition as numbers.
abbrev pub fields_of : Definition → List ℕ → Fields
fields_of d t = record {
  slot = d.slot;
  event_id = d.event_id;
  flags = pack_flags d;
  weekday_mask = d.weekday_mask;
  start_h = d.start_hour;
  start_m = d.start_minute;
  end_h = d.end_hour;
  end_m = d.end_minute;
  start_epoch = d.start_epoch_sec;
  end_epoch = d.end_epoch_sec;
  label = t;
}

scan-field :
    (w n : ℕ) (rest : List ℕ)
    → n < 2 ^ w
    → n < 10 ^ 20
    → scan_field w (print_field n rest) ≡ some (n, rest)
unfolding scan_field print_field scan_comma
scan-field w n rest fits short = rw (scan-print w n b',' rest fits short refl) refl

pack_flags-lt : (d : Definition) → pack_flags d < 32
unfolding pack_flags
pack_flags-lt d = ground arith

scan_label-text : (t : List ℕ) → Letters t → length t ≤ 23 → scan_label (b',' ∷ t) ≡ t
unfolding scan_label
scan_label-text t h short = scan_set-short 23 t (Inside-Letters t h) short

pub scan-print_row :
    (i : ℕ) (d : Definition) (v : IsStorable i d)
    → i < 16
    → scan_row (print_row d) ≡ some (fields_of d v.text)
unfolding scan_row print_row print_field
scan-print_row i d v low =
    rw
      (
        scan-field 32 d.slot _ (omega (arith, v.place)) (omega (arith, v.place)),
        scan-field 32 d.event_id _ (omega (arith, v.event)) (omega (arith, v.event)),
        scan-field 32 (pack_flags d) _ (omega (arith, pack_flags-lt d))
            (omega (arith, pack_flags-lt d)),
        scan-field 32 d.weekday_mask _ (omega (arith, v.days)) (omega (arith, v.days)),
        scan-field 32 d.start_hour _ (omega (arith, v.clock)) (omega (arith, v.clock)),
        scan-field 32 d.start_minute _ (omega (arith, v.clock)) (omega (arith, v.clock)),
        scan-field 32 d.end_hour _ (omega (arith, v.clock)) (omega (arith, v.clock)),
        scan-field 32 d.end_minute _ (omega (arith, v.clock)) (omega (arith, v.clock)),
        scan-field 64 d.start_epoch_sec _ (omega (arith, v.epochs)) (omega (arith, v.epochs)),
        scan-print 64 d.end_epoch_sec b',' (printed_label d) (omega (arith, v.epochs))
            (omega (arith, v.epochs)) refl,
        printed_label_lem d v.text v.labelled v.clean v.short,
        scan_label-text v.text v.clean v.short,
      )
      refl

flags-enabled : (d : Definition) → bit (pack_flags d) 0 ≡ d.enabled
unfolding pack_flags
flags-enabled d = ground arith

flags-has_end : (d : Definition) → bit (pack_flags d) 2 ≡ d.has_end
unfolding pack_flags
flags-has_end d = ground arith

flags-mode :
    (d : Definition) → (if bit (pack_flags d) 3 then one_shot_epoch else recurring_clock) ≡ d.mode
unfolding pack_flags
flags-mode d = ground arith

flags-replay : (d : Definition) → bit (pack_flags d) 4 ≡ d.replay_start_on_boot
unfolding pack_flags
flags-replay d = ground arith

days-kept : (m : ℕ) → 0 < m → m < 128 → normalize_days m ≡ m
unfolding normalize_days
days-kept m some_day days = ground arith

reload-label :
    (t : List ℕ)
    → Letters t
    → length t ≤ 23
    → (if length t == 0 then label_of [] else sanitize_label (label_of t)) ≡ label_of t
reload-label [] h short = refl
reload-label (c ∷ t) h short = ground (arith, sanitize-label_of (c ∷ t) h short)

pub unpack-fields_of :
    (i : ℕ) (d : Definition) (v : IsStorable i d) → i < 16 → unpack (fields_of d v.text) ≡ d
unfolding unpack
unpack-fields_of i d v low =
    rw
      (
        mod-eq_of_lt {n = d.slot} {m = 256} (omega (arith, v.place)),
        mod-eq_of_lt {n = d.event_id} {m = 65536} v.event,
        mod-eq_of_lt {n = d.start_hour} {m = 256} v.clock.0,
        mod-eq_of_lt {n = d.start_minute} {m = 256} v.clock.1,
        mod-eq_of_lt {n = d.end_hour} {m = 256} v.clock.2,
        mod-eq_of_lt {n = d.end_minute} {m = 256} v.clock.3,
        flags-enabled d,
        flags-has_end d,
        flags-mode d,
        flags-replay d,
        days-kept d.weekday_mask v.some_day v.days,
        reload-label v.text v.clean v.short ∙ sym v.labelled,
      )
      refl

length-field :
    (n j k : ℕ) (rest : List ℕ)
    → n < 10 ^ suc j
    → length rest ≤ k
    → length (print_field n rest) ≤ k + (2 + j)
unfolding print_field
length-field n j k rest h le =
    omega (arith, length-append (print_number n) (b',' ∷ rest), length-print n j h)

-- Hours and minutes of `suc j` digits, and times of `suc e`.
length-widths :
    (i : ℕ) (d : Definition) (v : IsStorable i d) (j e : ℕ)
    → i < 16
    → (d.start_hour < 10 ^ suc j)
      × (d.start_minute < 10 ^ suc j)
      × (d.end_hour < 10 ^ suc j)
      × (d.end_minute < 10 ^ suc j)
    → (d.start_epoch_sec < 10 ^ suc e) × (d.end_epoch_sec < 10 ^ suc e)
    → length (print_row d) ≤ 39 + 2 * (2 + e) + 4 * (2 + j)
unfolding print_row
length-widths i d v j e low (sh, sm, eh, em) (se, ee) =
    let text : length (printed_label d) ≤ 23 =
      subst (λ t. length t ≤ 23) (sym (printed_label_lem d v.text v.labelled v.clean v.short))
        v.short in
    let times =
      length-field d.start_epoch_sec e _ _ se (length-field d.end_epoch_sec e _ _ ee text) in
    let ends = length-field d.end_hour j _ _ eh (length-field d.end_minute j _ _ em times) in
    let starts = length-field d.start_hour j _ _ sh (length-field d.start_minute j _ _ sm ends) in
    let days = length-field d.weekday_mask 2 _ _ (omega (arith, v.days)) starts in
    let flags = length-field (pack_flags d) 1 _ _ (omega (arith, pack_flags-lt d)) days in
    let ids = length-field d.event_id 4 _ _ (omega (arith, v.event)) flags in
    omega (arith, length-field d.slot 1 _ _ (omega (arith, v.place)) ids)

-- A line has 89 bytes at most.
pub length-print_row :
    (i : ℕ) (d : Definition) → IsStorable i d → i < 16 → length (print_row d) ≤ 89
length-print_row i d v low = elim v.spare [
  | inl epochs ↦
      omega (arith, length-widths i d v 2 0 low (ground (arith, v.clock)) (ground (arith, epochs)))
  | inr clock ↦
      omega (arith, length-widths i d v 0 19 low (ground (arith, clock)) (ground (arith, v.epochs)))
]

Inside-field : (n : ℕ) (rest : List ℕ) → All Inside rest → All Inside (print_field n rest)
unfolding print_field
Inside-field n rest h =
    All-append Inside (print_number n) (b',' ∷ rest) (All-print Inside n λ d lt. ground arith)
      (refl, h)

pub Inside-print_row : (i : ℕ) (d : Definition) → IsStorable i d → All Inside (print_row d)
unfolding print_row
Inside-print_row i d v =
    let t : All Inside (printed_label d) =
      subst (All Inside) (sym (printed_label_lem d v.text v.labelled v.clean v.short))
        (Inside-Letters v.text v.clean) in
    Inside-field _ _ (
      Inside-field _ _ (
        Inside-field _ _ (
          Inside-field _ _ (
            Inside-field _ _ (
              Inside-field _ _
                (Inside-field _ _ (Inside-field _ _ (Inside-field _ _ (Inside-field _ _ t)))))))))
