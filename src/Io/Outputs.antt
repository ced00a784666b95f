-- ===== src/Io/Outputs.antt =====
-- Digital outputs: `writeDigitalOut_`, `pollPulseOutputs_`, `ioWriteDigital_`, `ioReadDigital_` and
-- `tickDigitalInputs_`.
use flowio_waveshare_qwiic.Prelude.{
  ℕ, zero, suc, Bool, true, false, Option, none, some, List, [], ◌∷◌, ◌==◌, ◌+◌, ◌&&◌, ltb, length,
  get_elem?, if◌then◌else◌, sub32, u32,
}
use flowio_waveshare_qwiic.Io.Types.{
  output, same_kind, Status, ok, unknown_id, type_mismatch, read_only, not_ready, hw, boolean,
  number, int32, EndpointValue, Endpoint, no_endpoint, sensor, actuator, Slot, Env, Io,
}
use flowio_waveshare_qwiic.Io.Cycle.{mark_io_cycle_changed}
use flowio_waveshare_qwiic.Io.Table.{find_digital_slot_by_io_id}
use flowio_waveshare_qwiic.Io.Inputs.{put_slot, store_value, process_digital_input}

module _ (E : Env) where
  open E use {F, World, write_pin}

  -- `writeDigitalOut_` for the slot `i`, at the time `clock` of its call of `millis`.
  unfoldable pub write_digital_out : ℕ → ℕ → Bool → Slot F → World → Io F → World × Io F × Bool
  write_digital_out i clock on s w io =
      if s.bound && (s.used && same_kind s.kind output)
      then if s.momentary
        then (let (w1, done) = write_pin w i true in
            let pulse : ℕ = if s.pulse_ms == 0 then 500 else s.pulse_ms in
            let s1 : Slot F = record s {
              pulse_deadline_ms = u32 (clock + pulse);
              pulse_armed = true;
            } in
            if done
            then (w1, mark_io_cycle_changed s.io_id (put_slot E i s1 io), true)
            else (w1, io, false))
        else (let (w1, done) = write_pin w i on in
            (w1, if done then mark_io_cycle_changed s.io_id io else io, done))
      else (w, io, false)

  -- The write of a `DigitalActuatorEndpoint` that has succeeded.
  unfoldable pub show_written : ℕ → Bool → ℕ → Io F → Io F
  show_written i on ts io = elim (get_elem? io.slots i) [
    | none ↦ io
    | some s ↦
        put_slot E i
          (record s {
            endpoint = actuator (record { value = boolean on; valid = true; timestamp_ms = ts });
          })
          io
  ]

  -- `ioWriteDigital_`, with the times of its calls of `millis`.
  unfoldable pub io_write_digital : ℕ → Bool → ℕ → ℕ → World → Io F → World × Io F × Status
  io_write_digital id on ts clock w io = elim (find_digital_slot_by_io_id id io.slots) [
    | none ↦ (w, io, unknown_id)
    | some i ↦ elim (get_elem? io.slots i) [
      | none ↦ (w, io, unknown_id)
      | some s ↦
          if s.used
          then if same_kind s.kind output
            then elim s.endpoint [
              | no_endpoint ↦ (w, io, not_ready)
              | sensor r ↦ (w, io, hw)
              | actuator r ↦
                  let stamp : ℕ = if ts == 0 then clock else ts in
                  let (w1, io1, done) = write_digital_out i clock on s w io in
                  if done
                  then (
                    w1,
                    mark_io_cycle_changed s.io_id
                        (store_value E s.rt_idx (boolean on) stamp (show_written i on stamp io1)),
                    ok,
                  )
                  else (w1, io1, hw)
            ]
            else (w, io, read_only)
          else (w, io, unknown_id)
    ]
  ]

  -- `read` of an endpoint: a sensor that is not valid cannot be read.
  unfoldable pub endpoint_value : Endpoint F → Option (EndpointValue F)
  endpoint_value no_endpoint = none
  endpoint_value (sensor r) = if r.valid then some r else none
  endpoint_value (actuator r) = if r.valid then some r else none

  -- `ioReadDigital_`: the value, its time and the number of the cycle.
  unfoldable pub io_read_digital : ℕ → Io F → Status × Option (Bool × ℕ × ℕ)
  io_read_digital id io = elim (find_digital_slot_by_io_id id io.slots) [
    | none ↦ (unknown_id, none)
    | some i ↦ elim (get_elem? io.slots i) [
      | none ↦ (unknown_id, none)
      | some s ↦
          if s.used
          then elim (endpoint_value s.endpoint) [
            | none ↦ (not_ready, none)
            | some r ↦ elim r.value [
              | boolean on ↦
                  (ok, some (on, r.timestamp_ms, elim io.cycle [ none ↦ 0 | some c ↦ c.seq ]))
              | int32 z ↦ (type_mismatch, none)
              | number x ↦ (type_mismatch, none)
            ]
          ]
          else (not_ready, none)
    ]
  ]

  -- The body of `pollPulseOutputs_` for the slot `i`: `(int32_t)(now - deadline) < 0` is a difference
  -- of at least 2 ^ 31.
  unfoldable pub poll_pulse : ℕ → ℕ → Slot F → World → World × Slot F
  poll_pulse now i s w =
      if s.used
        && (same_kind s.kind output
            && (s.momentary
                && (s.pulse_armed && (s.bound && ltb (sub32 now s.pulse_deadline_ms) 2147483648))))
      then ((write_pin w i false).0, record s { pulse_armed = false })
      else (w, s)

  -- Its loop, from the slot `i` on.
  unfoldable pub poll_pulses : ℕ → ℕ → List (Slot F) → World → World × List (Slot F)
  poll_pulses now i [] w = (w, [])
  poll_pulses now i (s ∷ ss) w =
      let (w1, s1) = poll_pulse now i s w in
      let (w2, ss1) = poll_pulses now (suc i) ss w1 in (w2, s1 ∷ ss1)

  unfoldable pub poll_pulse_outputs : ℕ → World → Io F → World × Io F
  poll_pulse_outputs now w io =
      let (w1, ss) = poll_pulses now 0 io.slots w in (w1, record io { slots = ss })

  -- The loop of `tickDigitalInputs_` over `n` slots from `i` on.
  unfoldable pub process_inputs : ℕ → ℕ → ℕ → World → Io F → World × Io F
  process_inputs now i zero w io = (w, io)
  process_inputs now i (suc n) w io =
      let (w1, io1, done) = process_digital_input E i now w io in
      process_inputs now (suc i) n w1 io1

  unfoldable pub tick_digital_inputs : ℕ → World → Io F → World × Io F × Bool
  tick_digital_inputs now w io =
      if io.runtime_ready
      then (let (w1, io1) = process_inputs now 0 (length io.slots) w io in
          let (w2, io2) = poll_pulse_outputs now w1 io1 in (w2, io2, true))
      else (w, io, false)
