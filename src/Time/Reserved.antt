-- ===== src/Time/Reserved.antt =====
-- The reserved slots under every operation of the scheduler, in any order.
use flowio_waveshare_qwiic.Time.Bits.{bit-zero}
use flowio_waveshare_qwiic.Prelude.{
  ℕ, zero, suc, Bool, true, false, Option, some, List, [], ◌∷◌, ◌≡◌, ◌+◌, ◌<◌, ◌≤◌, leb, ltb, set,
  get_elem?-set_ne, refl, sym, subst, ◌∙◌, arith, get_elem?, Bool-cases, ◌||◌, inl, inr, All-get,
}
use flowio_waveshare_qwiic.Time.Types.{
  recurring_clock, Definition, Runtime, Scheduler, LocalTime, blank_runtime,
}
use flowio_waveshare_qwiic.Time.System.{clear_all_slots, system_event}
use flowio_waveshare_qwiic.Time.Table.{install, set_slot, clear_slot, filled}
use flowio_waveshare_qwiic.Time.Tick.{
  Now, follow_window, fire_once, visit_recurring, visit, tick_scheduler,
}
use flowio_waveshare_qwiic.Time.Listen.{visited}
use flowio_waveshare_qwiic.Time.Runs.{
  IsTable, tick-cases, tick-IsTable, evaluate_lem, get_elem?-visited,
}
use flowio_waveshare_qwiic.Time.TableLaws.{
  slot-normalize, set_slot_rollback, set_slot-refused, set_slot-valid, set_slot-install,
  set_slot-IsTable, clear_slot-IsTable,
}

-- Slot `k` is an enabled recurring event at midnight with the id reserved for it.
abbrev pub IsReserved : ℕ → Runtime → Type 0
IsReserved k s =
    (s.used ≡ true)
    × (s.def.enabled ≡ true)
    × (s.def.has_end ≡ false)
    × (s.def.mode ≡ recurring_clock)
    × (s.def.slot ≡ k)
    × (s.def.event_id ≡ 0xF001 + k)
    × (s.def.start_hour ≡ 0)
    × (s.def.start_minute ≡ 0)

abbrev pub HasReserved : List Runtime → Type 0
HasReserved ss = (k : ℕ) → k < 3 → (s : Runtime) × (get_elem? ss k ≡ some s) × IsReserved k s

visit-IsReserved : (c : Now) (k : ℕ) (s : Runtime) → IsReserved k s → IsReserved k (visit c s).0
unfolding visit visit_recurring follow_window fire_once
visit-IsReserved c k s r = ground arith

visited-HasReserved : (c : Now) (ss : List Runtime) → HasReserved ss → HasReserved (visited c ss)
visited-HasReserved c ss r k h =
    let (s, e, p) = r k h in ((visit c s).0, get_elem?-visited c ss k s e, visit-IsReserved c k s p)

set-HasReserved :
    (ss : List Runtime) (i : ℕ) (s : Runtime) → 3 ≤ i → HasReserved ss → HasReserved (set ss i s)
set-HasReserved ss i s h r k low =
    let (t, e, p) = r k low in (t, get_elem?-set_ne ss i k s (λ q. omega arith) ∙ e, p)

tick-HasReserved :
    (has_bus synced : Bool) (now : ℕ) (local : Option LocalTime) (m : Scheduler)
    → IsTable m
    → HasReserved m.sched
    → HasReserved (tick_scheduler has_bus synced now local m).0.sched
tick-HasReserved has_bus synced now local m v r = elim (tick-cases has_bus synced now local m) [
  | inl stay ↦ subst (λ p. HasReserved p.0.sched) (sym stay) r
  | inr (c, same, go) ↦
      subst (λ p. HasReserved p.0.sched) (sym go)
        (subst HasReserved (sym (evaluate_lem c m v.size).0) (visited-HasReserved c m.sched r))
]

-- A request to the scheduler's service, or a tick.
pub data Request : Type 0 where
  set_it : Bool → Definition → Request
  clear_it : Bool → ℕ → Request
  clear_all : Bool → Request
  tick : Bool → Bool → ℕ → Option LocalTime → Request

unfoldable pub perform : Request → Scheduler → Scheduler
perform (set_it persist d) m = (set_slot persist d m).0
perform (clear_it persist slot) m = (clear_slot persist slot m).0
perform (clear_all persist) m = (clear_all_slots persist m).0
perform (tick has_bus synced now local) m = (tick_scheduler has_bus synced now local m).0

unfoldable pub perform_all : List Request → Scheduler → Scheduler
perform_all [] m = m
perform_all (r ∷ rs) m = perform_all rs (perform r m)

set_slot-HasReserved :
    (persist : Bool) (d : Definition) (m : Scheduler)
    → IsTable m
    → HasReserved m.sched
    → HasReserved (set_slot persist d m).0.sched
unfolding install
set_slot-HasReserved false d m v r =
    subst (λ p. HasReserved p.0.sched) (sym (set_slot_rollback d m)) r
set_slot-HasReserved true d m v r = elim (Bool-cases (set_slot true d m).1) [
  | inl done ↦
      let (n, good, low, high) = set_slot-valid d m done in
      subst (λ p. HasReserved p.0.sched) (sym (set_slot-install d n m good low high v))
        (set-HasReserved m.sched n.slot (filled n) (omega (arith, slot-normalize d n good)) r)
  | inr refused ↦ subst (λ x. HasReserved x.sched) (sym (set_slot-refused d m refused)) r
]

clear_slot-HasReserved :
    (persist : Bool) (slot : ℕ) (m : Scheduler)
    → HasReserved m.sched
    → HasReserved (clear_slot persist slot m).0.sched
unfolding clear_slot
clear_slot-HasReserved persist slot m r = elim (Bool-cases (leb 16 slot || ltb slot 3)) [
  | inl refused ↦
      let same : (clear_slot persist slot m).0 ≡ m = ground arith in
      subst (λ x. HasReserved x.sched) (sym same) r
  | inr go ↦
      let same : (clear_slot persist slot m).0.sched ≡ set m.sched slot (blank_runtime slot) =
        ground arith in
      subst HasReserved (sym same)
        (set-HasReserved m.sched slot (blank_runtime slot) (ground arith) r)
]

pub clear_all-HasReserved :
    (persist : Bool) (m : Scheduler) → HasReserved (clear_all_slots persist m).0.sched
unfolding clear_all_slots system_event
clear_all-HasReserved persist m zero h = (_, refl, (refl, refl, refl, refl, refl, refl, refl, refl))
clear_all-HasReserved persist m (suc zero) h =
    (_, refl, (refl, refl, refl, refl, refl, refl, refl, refl))
clear_all-HasReserved persist m (suc (suc zero)) h =
    (_, refl, (refl, refl, refl, refl, refl, refl, refl, refl))
clear_all-HasReserved persist m (suc (suc (suc k))) h = absurd (omega arith)

pub clear_all-IsTable : (persist : Bool) (m : Scheduler) → IsTable (clear_all_slots persist m).0
unfolding clear_all_slots system_event
clear_all-IsTable persist m = record {
  size = refl;
  sound = ground arith;
  masked = λ k s e.
      bit-zero k
      ∙ sym (
          All-get (λ x. x.active ≡ false) (clear_all_slots persist m).0.sched k s (ground arith) e);
}

perform-IsTable : (r : Request) (m : Scheduler) → IsTable m → IsTable (perform r m)
unfolding perform
perform-IsTable (set_it persist d) m v = set_slot-IsTable persist d m v
perform-IsTable (clear_it persist slot) m v = clear_slot-IsTable persist slot m v
perform-IsTable (clear_all persist) m v = clear_all-IsTable persist m
perform-IsTable (tick has_bus synced now local) m v = tick-IsTable has_bus synced now local m v

perform-HasReserved :
    (r : Request) (m : Scheduler)
    → IsTable m
    → HasReserved m.sched
    → HasReserved (perform r m).sched
unfolding perform
perform-HasReserved (set_it persist d) m v h = set_slot-HasReserved persist d m v h
perform-HasReserved (clear_it persist slot) m v h = clear_slot-HasReserved persist slot m h
perform-HasReserved (clear_all persist) m v h = clear_all-HasReserved persist m
perform-HasReserved (tick has_bus synced now local) m v h =
    tick-HasReserved has_bus synced now local m v h

-- Requests to set or clear slots, to clear all of them, and ticks, in any order and whether or not
-- the table can be stored: the table keeps its size, only used windows are on, the mask says
-- which slots are on, and the day, week and month events stay in their slots and enabled.
pub perform_all-IsTable :
    (rs : List Request) (m : Scheduler)
    → IsTable m
    → HasReserved m.sched
    → IsTable (perform_all rs m) × HasReserved (perform_all rs m).sched
unfolding perform_all
perform_all-IsTable [] m v h = (v, h)
perform_all-IsTable (r ∷ rs) m v h =
    perform_all-IsTable rs (perform r m) (perform-IsTable r m v) (perform-HasReserved r m v h)
