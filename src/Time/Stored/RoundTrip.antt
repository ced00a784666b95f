-- ===== src/Time/Stored/RoundTrip.antt =====
-- The whole stored schedule: what `serializeSchedule_` writes, `loadScheduleFromBlob_` reads again.
use mathlib.Core.List.{append_assoc}
use flowio_waveshare_qwiic.Prelude.{
  ℕ, zero, suc, Bool, true, false, some, List, [], ◌∷◌, ◌++◌, ◌≡◌, ◌≤◌, ◌<◌, ◌+◌, ◌*◌, ◌-◌, inl,
  inr, refl, arith, length, All, ap, sym, ◌∙◌, length-append, set, leb, if◌then◌else◌, Bool-cases,
}
use flowio_waveshare_qwiic.Time.Types.{Definition, Runtime, Scheduler, blank_runtime}
use flowio_waveshare_qwiic.Time.Table.{filled}
use flowio_waveshare_qwiic.Time.System.{apply_system_slots, blank_from}
use flowio_waveshare_qwiic.Time.Decimal.{Starts, starts, Starts-print}
use flowio_waveshare_qwiic.Time.Stored.{
  print_row, print_field, serialize_from, serialize_schedule, skip_separators, load_row, load_rows,
  load_schedule, persist_schedule, ◌>>=◌,
}
use flowio_waveshare_qwiic.Time.Stored.Texts.{Inside, take-short, split_token-row}
use flowio_waveshare_qwiic.Time.Stored.Row.{
  IsStorable, scan-print_row, unpack-fields_of, length-print_row, Inside-print_row,
}

-- The used slots, from number `i` on, hold what `setSlot_` stores.
abbrev pub AreStorable : ℕ → List Runtime → Type 0
AreStorable i [] = Unit
AreStorable i (s ∷ ss) = (s.used ≡ true → IsStorable i s.def) × AreStorable (suc i) ss

-- The slots after a reload: the used ones with their definitions and not on, the others blank.
unfoldable pub reloaded : ℕ → List Runtime → List Runtime
reloaded i [] = []
reloaded i (s ∷ ss) = (if s.used then filled s.def else blank_runtime i) ∷ reloaded (suc i) ss

load_row-print :
    (i : ℕ) (d : Definition) (slots : List Runtime)
    → IsStorable i d
    → i < 16
    → load_row (print_row d) slots ≡ set slots i (filled d)
unfolding load_row
load_row-print i d slots v low =
    ground (arith, scan-print_row i d v low, unpack-fields_of i d v low, v.valid, v.place)

Starts-print_row : (d : Definition) → Starts (print_row d)
unfolding print_row print_field
Starts-print_row d = Starts-print d.slot _

-- A round of the loop takes one line.
load_rows-line :
    (n : ℕ) (row rest : List ℕ) (slots : List Runtime)
    → Starts row
    → All Inside row
    → length row ≤ 89
    → load_rows (suc n) (row ++ (b';' ∷ rest)) slots ≡ load_rows n rest (load_row row slots)
unfolding load_rows skip_separators
load_rows-line n _ rest slots (starts c cs digit) inside short =
    ground
      (arith, digit, split_token-row (c ∷ cs) rest inside, take-short 159 (c ∷ cs) (omega arith))

set-append {ℓ} :
    {A : Type ℓ} (before after : List A) (a b : A)
    → set (before ++ (a ∷ after)) (length before) b ≡ before ++ (b ∷ after)
set-append [] after a b = refl
set-append (x ∷ before) after a b = ap (λ r. x ∷ r) (set-append before after a b)

-- What is left of the table is written, and read back behind the slots `before`.
record IsReadBack (room i : ℕ) (before ss : List Runtime) : Type 0 where
  text : List ℕ
  written : serialize_from room ss ≡ some text
  again :
      (n : ℕ)
      → length text ≤ n
      → load_rows n text (before ++ blank_from i (length ss)) ≡ before ++ reloaded i ss

serialize_from-line :
    (room : ℕ) (s : Runtime) (ss : List Runtime) (text : List ℕ)
    → s.used ≡ true
    → length (print_row s.def) ≤ 89
    → 90 < room
    → serialize_from (room - suc (length (print_row s.def))) ss ≡ some text
    → serialize_from room (s ∷ ss) ≡ some (print_row s.def ++ (b';' ∷ text))
unfolding serialize_from
serialize_from-line room s ss text used short space written =
    let row = print_row s.def in
    let width : length (row ++ (b';' ∷ [])) ≡ suc (length row) =
      omega (arith, length-append row (b';' ∷ [])) in
    let fits : leb room (length (row ++ (b';' ∷ []))) ≡ false = ground arith in
    rw (used, fits, ap (λ (k : ℕ). serialize_from (room - k) ss) width ∙ written)
      (ap some (append_assoc row (b';' ∷ []) text))

IsReadBack-used :
    (room i : ℕ) (before ss : List Runtime) (s : Runtime)
    → s.used ≡ true
    → IsStorable i s.def
    → i < 16
    → length before ≡ i
    → 90 < room
    → IsReadBack (room - suc (length (print_row s.def))) (suc i) (before ++ (filled s.def ∷ [])) ss
    → IsReadBack room i before (s ∷ ss)
unfolding serialize_from reloaded blank_from
IsReadBack-used room i before ss s used v low size space r =
    let row = print_row s.def in
    let short = length-print_row i s.def v low in
    let s' = filled s.def in
    let blanks = blank_from (suc i) (length ss) in
    let now = before ++ (blank_runtime i ∷ blanks) in
    let placed : load_row row now ≡ before ++ (s' ∷ []) ++ blanks =
      load_row-print i s.def now v low
      ∙ (ap (λ k. set now k s') (sym size)
          ∙ (set-append before blanks (blank_runtime i) s'
              ∙ sym (append_assoc before (s' ∷ []) blanks))) in
    let shown : before ++ (s' ∷ []) ++ reloaded (suc i) ss ≡ before ++ reloaded i (s ∷ ss) =
      append_assoc before (s' ∷ []) (reloaded (suc i) ss)
      ∙ ap (λ u. before ++ ((if u then s' else blank_runtime i) ∷ reloaded (suc i) ss))
          (sym used) in
    record {
      text = row ++ (b';' ∷ r.text);
      written = serialize_from-line room s ss r.text used short space r.written;
      again = λ n le.
          let all = length-append row (b';' ∷ r.text) in
          let more : n ≡ suc (n - 1) = omega arith in
          ap (λ k. load_rows k (row ++ (b';' ∷ r.text)) now) more
          ∙ (load_rows-line (n - 1) row r.text now (Starts-print_row s.def)
                (Inside-print_row i s.def v) short
              ∙ (ap (load_rows (n - 1) r.text) placed ∙ (r.again (n - 1) (omega arith) ∙ shown)));
    }

IsReadBack-unused :
    (room i : ℕ) (before ss : List Runtime) (s : Runtime)
    → s.used ≡ false
    → IsReadBack room (suc i) (before ++ (blank_runtime i ∷ [])) ss
    → IsReadBack room i before (s ∷ ss)
unfolding serialize_from reloaded blank_from
IsReadBack-unused room i before ss s unused r =
    let b = blank_runtime i in
    let shown : before ++ (b ∷ []) ++ reloaded (suc i) ss ≡ before ++ reloaded i (s ∷ ss) =
      append_assoc before (b ∷ []) (reloaded (suc i) ss)
      ∙ ap (λ u. before ++ ((if u then filled s.def else b) ∷ reloaded (suc i) ss)) (sym unused) in
    record {
      text = r.text;
      written = ground (arith, unused, r.written);
      again = λ n le.
          ap (load_rows n r.text)
            (sym (append_assoc before (b ∷ []) (blank_from (suc i) (length ss))))
          ∙ (r.again n le ∙ shown);
    }

pub load_rows-nil : (n : ℕ) (slots : List Runtime) → load_rows n [] slots ≡ slots
unfolding load_rows skip_separators
load_rows-nil zero slots = refl
load_rows-nil (suc n) slots = refl

-- A line takes 90 bytes of the room at most.
IsReadBack-slots :
    (ss : List Runtime) (room i : ℕ) (before : List Runtime)
    → AreStorable i ss
    → i + length ss ≤ 16
    → length before ≡ i
    → 90 * length ss < room
    → IsReadBack room i before ss
unfolding serialize_from reloaded blank_from
IsReadBack-slots [] room i before v low size space = record {
  text = [];
  written = refl;
  again = λ n le. load_rows-nil n _;
}
IsReadBack-slots (s ∷ ss) room i before v low size space = elim (Bool-cases s.used) [
  | inl used ↦
      let d = v.0 used in
      let width = length-print_row i s.def d (omega arith) in
      IsReadBack-used room i before ss s used d (omega arith) size (omega arith) (
        IsReadBack-slots ss _ (suc i) _ v.1 (omega arith)
          (omega (arith, length-append before (filled s.def ∷ []))) (omega arith))
  | inr unused ↦ IsReadBack-unused room i before ss s unused (
      IsReadBack-slots ss room (suc i) _ v.1 (omega arith)
        (omega (arith, length-append before (blank_runtime i ∷ []))) (omega arith))
]

-- Of a table of 16 slots whose used ones hold what `setSlot_` stores, `serializeSchedule_` writes a
-- text that fits the buffer of 1536 bytes, and `loadScheduleFromBlob_` makes of it a table with the
-- same definitions in the same slots, none of them on, the others blank, and the system's events in
-- the first three.
pub load-serialize :
    (m boot : Scheduler)
    → length m.sched ≡ 16
    → AreStorable 0 m.sched
    → (serialize_schedule 1536 m >>= λ text. some (load_schedule text boot))
      ≡ some (record boot {
        sched = apply_system_slots boot.week_start_monday (reloaded 0 m.sched);
        sched_initialized = false;
        active_mask_value = 0;
      })
unfolding serialize_schedule load_schedule
load-serialize m boot size v =
    let r = IsReadBack-slots m.sched 1536 0 [] v (omega arith) refl (omega arith) in
    let same = r.again (length r.text) (omega arith) in
    rw (r.written) (
      ap
        (λ ss. some (record boot {
          sched = apply_system_slots boot.week_start_monday ss;
          sched_initialized = false;
          active_mask_value = 0;
        }))
        (ap (λ k. load_rows (length r.text) r.text (blank_from 0 k)) (sym size) ∙ same))

-- Such a table is stored wherever there is a store that takes it and the buffer is allocated: its
-- text never fails to fit.
persist_schedule-stored :
    (store : List ℕ → Bool) (m : Scheduler)
    → ((text : List ℕ) → store text ≡ true)
    → length m.sched ≡ 16
    → AreStorable 0 m.sched
    → persist_schedule true true store m ≡ true
unfolding persist_schedule serialize_schedule
persist_schedule-stored store m takes size v =
    let r = IsReadBack-slots m.sched 1536 0 [] v (omega arith) refl (omega arith) in
    ground (arith, r.written, takes r.text)
