-- ===== src/Io/Tests.antt =====
-- A board with two inputs, two outputs and one analog input, over pins that hold what was written.
use flowio_waveshare_qwiic.Prelude.{
  ℕ, zero, suc, Bool, true, false, Option, none, some, List, [], ◌∷◌, ◌++◌, ◌≡◌, ◌<◌, ◌≤◌, ◌==◌,
  ◌⊎◌, if◌then◌else◌, get_elem?, set, replicate, refl, arith,
}
use flowio_waveshare_qwiic.Floats.{thousandths}
use flowio_waveshare_qwiic.Io.Types.{
  input, output, ok, Capacity, boolean, no_endpoint, sensor, actuator, Slot, AnalogSlot, Env, Io,
}
use flowio_waveshare_qwiic.Io.Table.{io_count, io_id_at, find_by_io_id, find_digital_slot_by_io_id}
use flowio_waveshare_qwiic.Io.Outputs.{write_digital_out, io_write_digital, io_read_digital}
use flowio_waveshare_qwiic.Io.Pulses.{polls, pulse_exact}
use flowio_waveshare_qwiic.Io.Edges.{sample, edges, latest, calls_of, shown, sample-edges}
use flowio_waveshare_qwiic.Io.Readback.{read-write_digital}
use flowio_waveshare_qwiic.Io.Touched.{cycle_seq}
use flowio_waveshare_qwiic.Io.Enumeration.{Fits, IsTable}
use flowio_waveshare_qwiic.Io.Exposure.{io_id_at_exact}
use flowio_waveshare_qwiic.Io.Known.{Known}
use flowio_waveshare_qwiic.Io.Definitions.{
  Definition, define_input, define_output, define_analog, define_all, define_all-IsTable,
}

abbrev small_board : Capacity
small_board = record { max_digital_inputs = 2; max_digital_outputs = 2; max_analog_endpoints = 1 }

abbrev pins : Env
pins = record {
  floats = thousandths;
  roundf = λ a. a;
  lroundf = λ a. a;
  World = List Bool;
  write_pin = λ w i on. (set w i on, true);
  read_pin = get_elem?;
  read_count = λ w i. (w, some 0);
  save_total = λ w i t. true;
}

abbrev empty_slot : Slot ℕ
empty_slot = record {
  used = false;
  io_id = 65535;
  kind = input;
  logical_idx = 0;
  counter_mode = false;
  momentary = false;
  pulse_ms = 0;
  bound = true;
  endpoint = no_endpoint;
  rt_idx = none;
  has_callback = false;
  pulse_armed = false;
  pulse_deadline_ms = 0;
  last_valid = false;
  last_value = false;
  counter_config = record { c0 = 1000; counter_total = 0; precision = 0; last_config_total = none };
  counter_scaled_total = 0;
  counter_last_persisted_total = 0;
  counter_last_raw_count = 0;
  counter_last_flushed_raw_count = 0;
  counter_last_persist_ms = 0;
}

abbrev blank : Io ℕ
blank = record {
  enabled = true;
  runtime_ready = true;
  slots = replicate 4 empty_slot;
  analog = record { used = false; io_id = 65535; endpoint = none } ∷ [];
  cycle = none;
  cycle_memory = true;
  has_store = true;
  has_config = true;
  effects = [];
}

abbrev definitions : List Definition
definitions =
    define_output true true 1 true 200
    ∷ define_input true true 64 false true
    ∷ define_output true true 1 false 0
    ∷ define_analog true 192
    ∷ []

small_board-Fits : Fits small_board
small_board-Fits = record { outputs = omega arith; inputs = omega arith; analogs = omega arith }

blank-IsTable : IsTable small_board blank
blank-IsTable = record {
  placed = λ k s e u. absurd (unused k s e u);
  single = λ j k s t e f u v. absurd (unused j s e u);
  analog_size = refl;
  analog_placed = λ k a e u. absurd (unused_analog k a e u);
}
  where
    unused : (k : ℕ) (s : Slot ℕ) → get_elem? blank.slots k ≡ some s → s.used ≡ true → ⊥
    unused zero s e u = ground arith
    unused (suc zero) s e u = ground arith
    unused (suc (suc zero)) s e u = ground arith
    unused (suc (suc (suc zero))) s e u = ground arith
    unused (suc (suc (suc (suc k)))) s e u = cc

    unused_analog :
        (k : ℕ) (a : AnalogSlot ℕ) → get_elem? blank.analog k ≡ some a → a.used ≡ true → ⊥
    unused_analog zero a e u = ground arith
    unused_analog (suc k) a e u = cc

define_all-IsTable_example : IsTable small_board (define_all small_board definitions blank)
define_all-IsTable_example =
    define_all-IsTable small_board definitions blank small_board-Fits blank-IsTable

abbrev defined : Io ℕ
defined = define_all small_board definitions blank

io_id_at_exact_example :
    ((1 < io_count small_board defined)
      × ((id : ℕ) × (io_id_at small_board 1 defined ≡ some id) × Known defined id))
    ⊎ ((io_count small_board defined ≤ 1) × (io_id_at small_board 1 defined ≡ none))
io_id_at_exact_example = io_id_at_exact small_board defined 1 define_all-IsTable_example

-- The momentary output, with an actuator, in the table.
abbrev pump : Slot ℕ
pump = record empty_slot {
  used = true;
  io_id = 1;
  kind = output;
  logical_idx = 1;
  momentary = true;
  pulse_ms = 200;
  endpoint = actuator (record { value = boolean false; valid = true; timestamp_ms = 0 });
}

abbrev button : Slot ℕ
button = record empty_slot {
  used = true;
  io_id = 64;
  has_callback = true;
  endpoint = sensor (record { value = boolean false; valid = false; timestamp_ms = 0 });
}

abbrev running : Io ℕ
running = record blank { slots = pump ∷ button ∷ empty_slot ∷ empty_slot ∷ [] }

abbrev low_pins : List Bool
low_pins = replicate 4 false

pump_done : (write_digital_out pins 0 4294967200 false pump low_pins running).2 ≡ true
unfolding write_digital_out
pump_done = refl

pulse_exact_example :
    ((write_digital_out pins 0 4294967200 false pump low_pins running).0 ≡ set low_pins 0 true)
    × ((s1 : Slot ℕ) × (get_elem?
            (write_digital_out pins 0 4294967200 false pump low_pins running).1.slots
            0
          ≡ some s1)
        × (polls pins 0 (4294967250 ∷ 100 ∷ []) (low_pins, s1) ≡ (low_pins, s1))
        × (polls pins 0 ((4294967250 ∷ 100 ∷ []) ++ (104 ∷ 300 ∷ [])) (low_pins, s1)
            ≡ (set low_pins 0 false, record s1 { pulse_armed = false })))
pulse_exact_example =
    pulse_exact pins 0 4294967200 false pump low_pins low_pins running (4294967250 ∷ 100 ∷ [])
      (300 ∷ []) 104 refl refl (omega arith) (omega arith) pump_done
      ((omega arith, omega arith), ((omega arith, omega arith), tt)) (omega arith) (omega arith)
      (omega arith)

pump_written : (io_write_digital pins 1 true 0 50 low_pins running).2 ≡ ok
unfolding io_write_digital write_digital_out find_digital_slot_by_io_id find_by_io_id
pump_written = refl

read-write_digital_example :
    io_read_digital pins 64 (io_write_digital pins 1 true 0 50 low_pins running).1 ≡ (
      if 64 == 1
      then (ok, some (true, (if 0 == 0 then 50 else 0), cycle_seq running))
      else io_read_digital pins 64 running)
read-write_digital_example = read-write_digital pins 1 64 true 0 50 low_pins running pump_written

abbrev readings : List (ℕ × Option Bool)
readings = (10, some false) ∷ (20, some true) ∷ (30, some true) ∷ (40, none) ∷ (50, some true) ∷ []

button_edges : edges none readings ≡ false ∷ true ∷ true ∷ []
unfolding edges
button_edges = refl

sample-edges_example :
    (calls_of 64 (sample pins 1 readings running).effects
      ≡ calls_of 64 running.effects ++ edges none readings)
    × ((s1 : Slot ℕ) × (get_elem? (sample pins 1 readings running).slots 1 ≡ some s1)
        × (shown s1.endpoint ≡ latest none readings))
sample-edges_example =
    sample-edges pins 1 none readings button running refl refl
      (record { known_value = refl; shown_value = refl })
