-- ===== src/Io/Pulses.antt =====
-- The pulse of a momentary output.
use flowio_waveshare_qwiic.Prelude.{
  ℕ, Bool, true, false, some, List, [], ◌∷◌, ◌++◌, ◌≡◌, ◌≤◌, ◌<◌, ◌+◌, ◌==◌, ltb, if◌then◌else◌,
  get_elem?, All, sub32, u32, refl, sym, ap, subst, ◌∙◌, arith, get_elem?-lt, get_elem?-set_self,
}
use flowio_waveshare_qwiic.Io.Types.{output, same_kind, Slot, Env, Io}
use flowio_waveshare_qwiic.Io.Cycle.{ensure_last_cycle_state, mark_io_cycle_changed}
use flowio_waveshare_qwiic.Io.Inputs.{put_slot}
use flowio_waveshare_qwiic.Io.Outputs.{write_digital_out, poll_pulse}

pub mark-slots : {F : Type 0} (id : ℕ) (io : Io F) → (mark_io_cycle_changed id io).slots ≡ io.slots
unfolding mark_io_cycle_changed ensure_last_cycle_state
mark-slots id io = ground arith

-- The duration of a pulse.
abbrev pub pulse : {F : Type 0} → Slot F → ℕ
pulse s = if s.pulse_ms == 0 then 500 else s.pulse_ms

module _ (E : Env) where
  open E use {F, World, write_pin}

  -- The slot `i` at polls at these times, with nothing between them.
  unfoldable pub polls : ℕ → List ℕ → World × Slot F → World × Slot F
  polls i [] p = p
  polls i (t ∷ ts) (w, s) = polls i ts (poll_pulse E t i s w)

  polls-append :
      (i : ℕ) (ts us : List ℕ) (p : World × Slot F)
      → polls i (ts ++ us) p ≡ polls i us (polls i ts p)
  unfolding polls
  polls-append i [] us p = refl
  polls-append i (t ∷ ts) us (w, s) = polls-append i ts us (poll_pulse E t i s w)

  -- The slot after a write that started a pulse.
  record Armed (clock : ℕ) (s s1 : Slot F) : Type 0 where
    used : s1.used ≡ true
    kind : same_kind s1.kind output ≡ true
    momentary : s1.momentary ≡ true
    armed : s1.pulse_armed ≡ true
    bound : s1.bound ≡ true
    deadline : s1.pulse_deadline_ms ≡ u32 (clock + pulse s)

  poll_early :
      (i clock t : ℕ) (s s1 : Slot F) (v : World)
      → Armed clock s s1
      → s.pulse_ms < 65536
      → clock < 4294967296
      → t < 4294967296
      → sub32 t clock < pulse s
      → poll_pulse E t i s1 v ≡ (v, s1)
  unfolding poll_pulse
  poll_early i clock t s s1 v a small hc ht early =
      let e : ltb (sub32 t s1.pulse_deadline_ms) 2147483648 ≡ false =
        subst (λ (d : ℕ). ltb (sub32 t d) 2147483648 ≡ false) (sym a.deadline) (ground arith) in
      ground (arith, e)

  poll_due :
      (i clock t : ℕ) (s s1 : Slot F) (v : World)
      → Armed clock s s1
      → s.pulse_ms < 65536
      → clock < 4294967296
      → t < 4294967296
      → pulse s ≤ sub32 t clock
      → sub32 t clock < 2147483648
      → poll_pulse E t i s1 v ≡ ((write_pin v i false).0, record s1 { pulse_armed = false })
  unfolding poll_pulse
  poll_due i clock t s s1 v a small hc ht due soon =
      let e : ltb (sub32 t s1.pulse_deadline_ms) 2147483648 ≡ true =
        subst (λ (d : ℕ). ltb (sub32 t d) 2147483648 ≡ true) (sym a.deadline) (ground arith) in
      ground (arith, e, a.used, a.kind, a.momentary, a.armed, a.bound)

  polls_early :
      (i clock : ℕ) (ts : List ℕ) (s s1 : Slot F) (v : World)
      → Armed clock s s1
      → s.pulse_ms < 65536
      → clock < 4294967296
      → All (λ t. (t < 4294967296) × (sub32 t clock < pulse s)) ts
      → polls i ts (v, s1) ≡ (v, s1)
  unfolding polls
  polls_early i clock [] s s1 v a small hc h = refl
  polls_early i clock (t ∷ ts) s s1 v a small hc h =
      ap (polls i ts) (poll_early i clock t s s1 v a small hc h.0.0 h.0.1)
      ∙ polls_early i clock ts s s1 v a small hc h.1

  polls_disarmed :
      (i : ℕ) (ts : List ℕ) (s : Slot F) (v : World)
      → s.pulse_armed ≡ false
      → polls i ts (v, s) ≡ (v, s)
  unfolding polls poll_pulse
  polls_disarmed i [] s v h = refl
  polls_disarmed i (t ∷ ts) s v h =
      let e : poll_pulse E t i s v ≡ (v, s) = ground (arith, h) in
      ap (polls i ts) e ∙ polls_disarmed i ts s v h

  write-Armed :
      (i clock : ℕ) (on : Bool) (s : Slot F) (w : World) (io : Io F)
      → get_elem? io.slots i ≡ some s
      → s.momentary ≡ true
      → (write_digital_out E i clock on s w io).2 ≡ true
      → (s1 : Slot F) × (get_elem? (write_digital_out E i clock on s w io).1.slots i ≡ some s1)
        × Armed clock s s1
        × ((write_digital_out E i clock on s w io).0 ≡ (write_pin w i true).0)
  unfolding write_digital_out put_slot
  write-Armed i clock on s w io found m done =
      let s1 : Slot F = record s {
        pulse_deadline_ms = u32 (clock + pulse s);
        pulse_armed = true;
      } in
      (
        s1,
        ground (
          arith,
          mark-slots s.io_id (put_slot E i s1 io),
          get_elem?-set_self io.slots i s1 (get_elem?-lt io.slots i s found),
        ),
        record {
          used = ground arith;
          kind = ground arith;
          momentary = m;
          armed = refl;
          bound = ground arith;
          deadline = refl;
        },
        ground arith,
      )

  -- A command to a momentary output that succeeds switches it on, whatever the command is; polls
  -- before the pulse is over leave it so, the first poll at or past its end writes it off, and no
  -- later poll writes it again, whether or not that write succeeds. (Polls are less than 2 ^ 31 ms
  -- after the command, on a clock of 32 bits that may wrap.)
  pub pulse_exact :
      (i clock : ℕ) (on : Bool) (s : Slot F) (w v : World) (io : Io F) (early later : List ℕ)
      (late : ℕ)
      → get_elem? io.slots i ≡ some s
      → s.momentary ≡ true
      → s.pulse_ms < 65536
      → clock < 4294967296
      → (write_digital_out E i clock on s w io).2 ≡ true
      → All (λ t. (t < 4294967296) × (sub32 t clock < pulse s)) early
      → late < 4294967296
      → pulse s ≤ sub32 late clock
      → sub32 late clock < 2147483648
      → ((write_digital_out E i clock on s w io).0 ≡ (write_pin w i true).0)
        × ((s1 : Slot F) × (get_elem? (write_digital_out E i clock on s w io).1.slots i ≡ some s1)
            × (polls i early (v, s1) ≡ (v, s1))
            × (polls i (early ++ (late ∷ later)) (v, s1)
                ≡ ((write_pin v i false).0, record s1 { pulse_armed = false })))
  unfolding polls
  pulse_exact i clock on s w v io early later late found m small hc done he hl due soon =
      let (s1, there, a, wrote) = write-Armed i clock on s w io found m done in
      let quiet = polls_early i clock early s s1 v a small hc he in
      let off = poll_due i clock late s s1 v a small hc hl due soon in
      (
        wrote,
        (
          s1,
          there,
          quiet,
          polls-append i early (late ∷ later) (v, s1)
              ∙ (ap (polls i (late ∷ later)) quiet
                  ∙ (ap (polls i later) off
                      ∙ polls_disarmed i later (record s1 { pulse_armed = false })
                          (write_pin v i false).0 refl)),
        ),
      )
