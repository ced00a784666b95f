-- ===== src/Time/Listen.antt =====
-- What a listener of the scheduler's events learns of a slot, and the bits of the mask.
use flowio_waveshare_qwiic.Prelude.{
  ℕ, suc, Bool, true, false, none, some, List, [], ◌∷◌, ◌++◌, map, ◌≡◌, ◌+◌, ◌<◌, ◌≤◌, ◌&&◌, ◌==◌,
  refl, arith, if◌then◌else◌, length, length-append, leb,
}
use flowio_waveshare_qwiic.Time.Types.{Runtime, Edge, trigger, start, stop, Pending, Payload}
use flowio_waveshare_qwiic.Time.Tick.{Now, Post, visit, push_pending, tick_from}
use mathlib.Core.List.{append_assoc, append-nil}
use flowio_waveshare_qwiic.Time.Table.{set_bit}

-- A listener that takes a slot for on from a Start edge to a Stop edge.
abbrev pub after_edge : Edge → Bool → Bool
after_edge start on = true
after_edge stop on = false
after_edge trigger on = on

-- What it takes slot `k` for after the events.
unfoldable pub heard : ℕ → List Payload → Bool → Bool
heard k [] on = on
heard k (p ∷ ps) on = heard k ps (if p.slot == k then after_edge p.edge on else on)

-- Only a used slot with an end is on.
abbrev pub IsSound : Runtime → Type 0
IsSound s = s.active ≡ true → (s.used && s.def.has_end) ≡ true

abbrev pub after_post : Post → Bool → Bool
after_post none on = on
after_post (some (e, r)) on = after_edge e on

-- The events of a loop without the limit on their number.
unfoldable pub post_one : Now → ℕ → Runtime → Post → List Pending → List Pending
post_one c i s none ps = ps
post_one c i s (some (e, r)) ps =
    record { slot = i; edge = e; replayed = r; event_id = s.def.event_id; epoch_sec = c.epoch } ∷ ps

unfoldable pub posts : Now → ℕ → List Runtime → List Pending
posts c i [] = []
posts c i (s ∷ ss) = post_one c i s (visit c s).1 (posts c (suc i) ss)

unfoldable pub mask_from : Now → ℕ → List Runtime → ℕ → ℕ
mask_from c i [] mask = mask
mask_from c i (s ∷ ss) mask =
    mask_from c (suc i) ss (if (visit c s).2 then set_bit mask i else mask)

unfoldable pub visited : Now → List Runtime → List Runtime
visited c = map (λ s. (visit c s).0)

push_pending-append :
    (c : Now) (i : ℕ) (s : Runtime) (p : Post) (ps rest : List Pending)
    → length ps < 32
    → push_pending c.epoch i s.def.event_id p ps ++ rest ≡ ps ++ post_one c i s p rest
unfolding push_pending post_one
push_pending-append c i s none ps rest h = refl
push_pending-append c i s (some (e, r)) ps rest h =
    let room : leb 32 (length ps) ≡ false = ground arith in
    rw room (append_assoc ps (post_one c i s (some (e, r)) []) rest)

length-push_pending :
    (epoch i event_id : ℕ) (p : Post) (ps : List Pending)
    → length (push_pending epoch i event_id p ps) ≤ length ps + 1
unfolding push_pending
length-push_pending epoch i event_id none ps = omega arith
length-push_pending epoch i event_id (some (e, r)) ps = ground (
  arith,
  length-append ps
      (record { slot = i; edge = e; replayed = r; event_id = event_id; epoch_sec = epoch } ∷ []),
)

-- The loop does the three things side by side.
pub tick_from_lem :
    (c : Now) (i : ℕ) (ss : List Runtime) (ps : List Pending) (mask : ℕ)
    → length ps + length ss ≤ 32
    → tick_from c i ss ps mask ≡ (visited c ss, ps ++ posts c i ss, mask_from c i ss mask)
unfolding tick_from posts mask_from visited
tick_from_lem c i [] ps mask h = rw (append-nil ps) refl
tick_from_lem c i (s ∷ ss) ps mask h =
    let ps1 = push_pending c.epoch i s.def.event_id (visit c s).1 ps in
    let mask1 = if (visit c s).2 then set_bit mask i else mask in
    let ih =
      tick_from_lem c (suc i) ss ps1 mask1
        (omega (arith, length-push_pending c.epoch i s.def.event_id (visit c s).1 ps)) in
    ground (arith, ih, push_pending-append c i s (visit c s).1 ps (posts c (suc i) ss))
