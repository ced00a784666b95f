-- ===== src/Io/Inputs.antt =====
-- `processDigitalInputDefinition_` and what it calls, without the logs.
use flowio_waveshare_qwiic.Prelude.{
  ℕ, zero, suc, Bool, true, false, not, Option, none, some, [], ◌∷◌, ◌++◌, ◌==◌, ◌!=◌, ◌-◌, ◌&&◌,
  ◌||◌, ltb, leb, get_elem?, set, if◌then◌else◌, sub32, differ,
}
use flowio_waveshare_qwiic.Io.Types.{
  input, same_kind, Value, boolean, number, int32, Endpoint, no_endpoint, sensor, actuator,
  CounterConfig, Slot, stored, called, Env, Io,
}
use flowio_waveshare_qwiic.Io.Cycle.{mark_io_cycle_changed}

module _ (E : Env) where
  open E use {
    F, World, feq, fadd, fmul, fdiv, of_ℕ, lit, roundf, lroundf, read_pin, read_count, save_total,
  }

  -- The loop of `ioRoundToPrecision` that makes the scale.
  unfoldable pub scale_of : ℕ → F → F
  scale_of zero scale = scale
  scale_of (suc n) scale = scale_of n (fmul scale (lit 10 0))

  -- `ioRoundToPrecision` for decimals of at least 0.
  unfoldable pub io_round_to_precision : F → ℕ → F
  io_round_to_precision v decimals =
      let scale = scale_of decimals (lit 1 0) in
      if decimals == 0 then lroundf v else fdiv (roundf (fmul v scale)) scale

  -- `sanitizeAnalogPrecision_` for a precision of at least 0.
  unfoldable pub sanitize_analog_precision : ℕ → ℕ
  sanitize_analog_precision p = if ltb 6 p then 6 else p

  unfoldable pub put_slot : ℕ → Slot F → Io F → Io F
  put_slot i s io = record io { slots = set io.slots i s }

  -- The writes to the data store, for an endpoint that is registered.
  unfoldable pub store_value : Option ℕ → Value F → ℕ → Io F → Io F
  store_value rt v now io =
      if io.has_store
      then elim rt [
        | none ↦ io
        | some r ↦ record io { effects = io.effects ++ (stored r v now ∷ []) }
      ]
      else io

  unfoldable pub call_back : Slot F → Bool → Io F → Io F
  call_back s on io =
      if s.has_callback then record io { effects = io.effects ++ (called s.io_id on ∷ []) } else io

  -- The part of the function for an input that is a state, from what the driver reads on.
  unfoldable pub process_state : ℕ → ℕ → Slot F → Option Bool → Io F → Io F × Bool
  process_state i now s reading io = elim reading [
    | none ↦
        if s.last_valid
        then (
          put_slot i
              (record s {
                endpoint =
                    sensor (record { value = boolean false; valid = false; timestamp_ms = now });
                last_valid = false;
              })
              io,
          false,
        )
        else (io, false)
    | some on ↦
        if not s.last_valid || differ s.last_value on
        then (let s1 : Slot F = record s {
          endpoint = sensor (record { value = boolean on; valid = true; timestamp_ms = now });
          last_value = on;
          last_valid = true;
        } in
            (
              call_back s on (
                  mark_io_cycle_changed s.io_id
                    (store_value s.rt_idx (boolean on) now (put_slot i s1 io))),
              true,
            ))
        else (io, true)
  ]

  -- A total that the configuration has changed is taken over.
  unfoldable pub adopt_config_total : ℕ → ℕ → Slot F → Slot F
  adopt_config_total now raw s =
      let cfg : CounterConfig F = s.counter_config in
      elim cfg.last_config_total [
        | none ↦ s
        | some last ↦ if feq last cfg.counter_total then s else record s {
          counter_scaled_total = cfg.counter_total;
          counter_last_persisted_total = cfg.counter_total;
          counter_config = record cfg { last_config_total = some cfg.counter_total };
          counter_last_raw_count = raw;
          counter_last_flushed_raw_count = raw;
          counter_last_persist_ms = now;
        }
      ]

  -- The pulses since the last reading, or a counter that has started again.
  unfoldable pub add_pulses : ℕ → Slot F → Slot F
  add_pulses raw s =
      let cfg : CounterConfig F = s.counter_config in
      if ltb s.counter_last_raw_count raw
      then record s {
        counter_scaled_total =
            fadd s.counter_scaled_total (fmul (of_ℕ (raw - s.counter_last_raw_count)) cfg.c0);
        counter_last_raw_count = raw;
      }
      else if ltb raw s.counter_last_raw_count
      then record s { counter_last_raw_count = raw; counter_last_flushed_raw_count = raw }
      else s

  -- Whether `persistCounterTotalIfNeeded_` stores the total of a counter.
  unfoldable pub should_persist : ℕ → ℕ → Slot F → Bool
  should_persist now raw s =
      leb s.counter_last_flushed_raw_count raw && leb 32 (raw - s.counter_last_flushed_raw_count)
      || s.counter_last_persist_ms != 0 && leb 180000 (sub32 now s.counter_last_persist_ms)

  -- `persistCounterTotalIfNeeded_` for a counter. The configured total is then the stored one.
  unfoldable pub persist_counter_total : World → ℕ → ℕ → ℕ → Bool → Slot F → Slot F
  persist_counter_total w i now raw has_config s =
      let cfg : CounterConfig F = s.counter_config in
      if has_config
        && (not (feq s.counter_scaled_total s.counter_last_persisted_total)
            && (should_persist now raw s && save_total w i s.counter_scaled_total))
      then record s {
        counter_config = record cfg {
          counter_total = s.counter_scaled_total;
          last_config_total = elim cfg.last_config_total [
            | none ↦ none
            | some t ↦ some s.counter_scaled_total
          ];
        };
        counter_last_persisted_total = s.counter_scaled_total;
        counter_last_flushed_raw_count = raw;
        counter_last_persist_ms = now;
      }
      else s

  -- The value of an endpoint reads as the float `v`.
  unfoldable pub shows_float : Endpoint F → F → Bool
  shows_float (sensor r) v =
      r.valid && elim r.value [ boolean b ↦ false | int32 z ↦ false | number x ↦ feq x v ]
  shows_float (actuator r) v = false
  shows_float no_endpoint v = false

  -- The part of the function for a counter, from what the driver counts on.
  unfoldable pub process_counter : World → ℕ → ℕ → Slot F → Option ℕ → Io F → Io F × Bool
  process_counter w i now s reading io =
      let decimals = sanitize_analog_precision s.counter_config.precision in
      elim reading [
        | none ↦
            if s.last_valid
            then (
              put_slot i
                  (record s {
                    endpoint = sensor (record {
                      value = number (io_round_to_precision s.counter_scaled_total decimals);
                      valid = false;
                      timestamp_ms = now;
                    });
                    last_valid = false;
                  })
                  io,
              false,
            )
            else (io, false)
        | some raw ↦
            let s1 : Slot F = adopt_config_total now raw s in
            let s2 : Slot F = add_pulses raw s1 in
            let s3 : Slot F = persist_counter_total w i now raw io.has_config s2 in
            let v = io_round_to_precision s3.counter_scaled_total decimals in
            if not s.last_valid
              || (raw != s1.counter_last_raw_count || not (shows_float s.endpoint v))
            then (let s4 : Slot F = record s3 {
              endpoint = sensor (record { value = number v; valid = true; timestamp_ms = now });
              last_valid = true;
            } in
                (
                  mark_io_cycle_changed s.io_id
                      (store_value s.rt_idx (number v) now (put_slot i s4 io)),
                  true,
                ))
            else (put_slot i s3 io, true)
      ]

  unfoldable pub is_sensor : Endpoint F → Bool
  is_sensor (sensor r) = true
  is_sensor (actuator r) = false
  is_sensor no_endpoint = false

  -- `processDigitalInputDefinition_`
  unfoldable pub process_digital_input : ℕ → ℕ → World → Io F → World × Io F × Bool
  process_digital_input i now w io = elim (get_elem? io.slots i) [
    | none ↦ (w, io, false)
    | some s ↦
        if s.used && (same_kind s.kind input && (is_sensor s.endpoint && s.bound))
        then if s.counter_mode
          then (let (w1, reading) = read_count w i in
              let (io1, done) = process_counter w1 i now s reading io in (w1, io1, done))
          else (let (io1, done) = process_state i now s (read_pin w i) io in (w, io1, done))
        else (w, io, false)
  ]
