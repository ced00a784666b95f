-- ===== src/Io/Readback.antt =====
-- What `ioReadDigital_` reads after `ioWriteDigital_`.
use mathlib.Core.Option.{some-injective}
use flowio_waveshare_qwiic.Prelude.{
  ℕ, Bool, true, some, ◌≡◌, ◌==◌, if◌then◌else◌, get_elem?, refl, sym, ap, subst, ◌∙◌, inl, inr,
  arith, Bool-cases, Option-cases, get_elem?-lt, get_elem?-set_self,
}
use flowio_waveshare_qwiic.Io.Types.{ok, boolean, actuator, Slot, Env, Io}
use flowio_waveshare_qwiic.Io.Cycle.{mark_io_cycle_changed}
use flowio_waveshare_qwiic.Io.Table.{find_by_io_id, find_digital_slot_by_io_id}
use flowio_waveshare_qwiic.Io.Inputs.{put_slot, store_value}
use flowio_waveshare_qwiic.Io.Outputs.{
  write_digital_out, show_written, io_write_digital, endpoint_value, io_read_digital,
}
use flowio_waveshare_qwiic.Io.Touched.{
  cycle_seq, find_digital-get, Touched, settle, put_slot-Touched, ReadsAs-Touched, Touched-trans,
  write_digital_out-Touched,
}

module _ (E : Env) where
  open E use {F, World, write_pin}

  -- A write that succeeds finds an output, and ends by showing the value in its endpoint.
  abbrev stamp_of : ℕ → ℕ → ℕ
  stamp_of ts clock = if ts == 0 then clock else ts

  record Written (id : ℕ) (on : Bool) (ts clock : ℕ) (w : World) (io : Io F) (i : ℕ) (s : Slot F)
      : Type 0 where
    found : find_digital_slot_by_io_id id io.slots ≡ some i
    there : get_elem? io.slots i ≡ some s
    used : s.used ≡ true
    done : (write_digital_out E i clock on s w io).2 ≡ true
    after :
        (io_write_digital E id on ts clock w io).1
        ≡ mark_io_cycle_changed s.io_id (
            store_value E s.rt_idx
              (boolean on)
              (stamp_of ts clock)
              (show_written E i on (stamp_of ts clock) (write_digital_out E i clock on s w io).1))

  io_write_digital-Written :
      (id : ℕ) (on : Bool) (ts clock : ℕ) (w : World) (io : Io F) (i : ℕ) (s : Slot F)
      → find_digital_slot_by_io_id id io.slots ≡ some i
      → get_elem? io.slots i ≡ some s
      → s.used ≡ true
      → (io_write_digital E id on ts clock w io).2 ≡ ok
      → Written id on ts clock w io i s
  unfolding io_write_digital
  io_write_digital-Written id on ts clock w io i s found there used e = record {
    found = found;
    there = there;
    used = used;
    done = ground (arith, found, there, e);
    after = ground (arith, found, there, e);
  }

  -- Readings that agree on the slot that is found, and on the cycle.
  read-eq :
      (j : ℕ) (a b : Io F)
      → find_by_io_id j 0 b.slots ≡ find_by_io_id j 0 a.slots
      → ((k : ℕ) → find_by_io_id j 0 a.slots ≡ some k → get_elem? b.slots k ≡ get_elem? a.slots k)
      → cycle_seq b ≡ cycle_seq a
      → io_read_digital E j b ≡ io_read_digital E j a
  unfolding io_read_digital find_digital_slot_by_io_id
  read-eq j a b f g h = elim (Option-cases (find_by_io_id j 0 a.slots)) [
    | inl missing ↦ ground (arith, f, missing)
    | inr (k, found) ↦ ground (arith, f, found, g k found, h)
  ]

  read-shown :
      (id : ℕ) (on : Bool) (ts : ℕ) (b : Io F) (i : ℕ) (t : Slot F)
      → find_by_io_id id 0 b.slots ≡ some i
      → get_elem? b.slots i ≡ some t
      → t.used ≡ true
      → t.endpoint ≡ actuator (record { value = boolean on; valid = true; timestamp_ms = ts })
      → io_read_digital E id b ≡ (ok, some (on, ts, cycle_seq b))
  unfolding io_read_digital find_digital_slot_by_io_id endpoint_value
  read-shown id on ts b i t found there used shows = ground (arith, found, there, used, shows)

  -- What is left of a write that succeeds.
  Written-lem :
      (id : ℕ) (on : Bool) (ts clock : ℕ) (w : World) (io : Io F) (i : ℕ) (s : Slot F)
      → Written id on ts clock w io i s
      → Touched E i io (io_write_digital E id on ts clock w io).1
        × ((t : Slot F) × (get_elem? (io_write_digital E id on ts clock w io).1.slots i ≡ some t)
            × (t.used ≡ true)
            × (t.endpoint
                ≡ actuator (record {
                  value = boolean on;
                  valid = true;
                  timestamp_ms = stamp_of ts clock;
                })))
  unfolding show_written put_slot
  Written-lem id on ts clock w io i s h =
      let io1 = (write_digital_out E i clock on s w io).1 in
      let (touched, (t, at_i, used, same)) =
        write_digital_out-Touched E i clock on s w io h.there h.done in
      let t1 : Slot F = record t {
        endpoint =
            actuator
              (record { value = boolean on; valid = true; timestamp_ms = stamp_of ts clock });
      } in
      let io2 = show_written E i on (stamp_of ts clock) io1 in
      let e : io2 ≡ put_slot E i t1 io1 = ground (arith, at_i) in
      let final = settle E s.io_id s.rt_idx (boolean on) (stamp_of ts clock) io2 in
      let put = subst (Touched E i io1) (sym e) (put_slot-Touched E i t t1 io1 at_i refl refl) in
      (
        subst (Touched E i io) (sym h.after) (
            Touched-trans E i io io1 _ touched
              (Touched-trans E i io1 io2 _ put (ReadsAs-Touched E i io2 _ final))),
        (
          t1,
          ap (λ (a : Io F). get_elem? a.slots i) h.after
              ∙ (ap (λ l. get_elem? l i) final.slots
                  ∙ (ap (λ (a : Io F). get_elem? a.slots i) e
                      ∙ get_elem?-set_self io1.slots i t1 (get_elem?-lt io1.slots i t at_i))),
          used ∙ h.used,
          refl,
        ),
      )

  -- The slot of a write that succeeds.
  write-found :
      (id : ℕ) (on : Bool) (ts clock : ℕ) (w : World) (io : Io F)
      → (io_write_digital E id on ts clock w io).2 ≡ ok
      → (i : ℕ) × ((s : Slot F) × Written id on ts clock w io i s × (s.io_id ≡ id))
  unfolding io_write_digital find_digital_slot_by_io_id
  write-found id on ts clock w io e = elim (Option-cases (find_by_io_id id 0 io.slots)) [
    | inl missing ↦ absurd (ground (arith, e, missing))
    | inr (i, found) ↦
        let (s, there, used, same) = find_digital-get id io.slots i found in
        (i, (s, io_write_digital-Written id on ts clock w io i s found there used e, same))
  ]

  -- After a write that succeeds the id reads as what was written, with the time given, or that of the
  -- clock for a time of 0; every other id reads as before.
  pub read-write_digital :
      (id j : ℕ) (on : Bool) (ts clock : ℕ) (w : World) (io : Io F)
      → (io_write_digital E id on ts clock w io).2 ≡ ok
      → io_read_digital E j (io_write_digital E id on ts clock w io).1 ≡ (
          if j == id
          then (ok, some (on, (if ts == 0 then clock else ts), cycle_seq io))
          else io_read_digital E j io)
  unfolding io_read_digital find_digital_slot_by_io_id
  read-write_digital id j on ts clock w io e =
      let (i, (s, h, mine)) = write-found id on ts clock w io e in
      let (touched, (t, there, used, shows)) = Written-lem id on ts clock w io i s h in
      let b = (io_write_digital E id on ts clock w io).1 in
      elim (Bool-cases (j == id)) [
        | inl same ↦
            let at_id : j ≡ id = ground (arith, same) in
            let shown =
              read-shown id on (stamp_of ts clock) b i t (touched.finds id ∙ h.found) there used
                shows in
            subst
              (λ (k : ℕ). io_read_digital E k b ≡ (
                if k == id
                then (ok, some (on, stamp_of ts clock, cycle_seq io))
                else io_read_digital E k io))
              (sym at_id)
              (shown
                ∙ (ap (λ (n : ℕ). (ok, some (on, stamp_of ts clock, n))) touched.seq
                    ∙ ground arith))
        | inr other ↦
            let apart =
              read-eq j io b (touched.finds j)
                (λ k found. touched.others k (λ (same : i ≡ k).
                  let (u, at_k, _, name) = find_digital-get j io.slots k found in
                  let both : u ≡ s =
                    some-injective _ _
                      (sym at_k ∙ (ap (get_elem? io.slots) (sym same) ∙ h.there)) in
                  absurd (ground (arith, other, name, mine, ap (λ (v : Slot F). v.io_id) both))))
                touched.seq in
            ground (arith, other, apart)
      ]
