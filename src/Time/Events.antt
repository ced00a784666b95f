-- ===== src/Time/Events.antt =====
-- Any sequence of ticks, followed through its events.
use mathlib.Core.Option.{some-injective}
use flowio_waveshare_qwiic.Prelude.{
  ℕ, zero, suc, Bool, true, false, none, some, List, [], ◌∷◌, map, ◌≡◌, ◌+◌, ◌<◌, ◌||◌, ◌==◌, refl,
  ap, subst, ◌∙◌, arith, if◌then◌else◌, get_elem?, bit,
}
use flowio_waveshare_qwiic.Time.Types.{Runtime, Pending}
use flowio_waveshare_qwiic.Time.Bits.{bit-set_bit}
use flowio_waveshare_qwiic.Time.Table.{set_bit}
use flowio_waveshare_qwiic.Time.Tick.{
  Now, Post, follow_window, fire_once, visit_one_shot, visit_recurring, visit, payload,
}
use flowio_waveshare_qwiic.Time.Listen.{heard, after_post, IsSound, post_one, posts, mask_from}

-- One slot: the edge says how `active` changes, and the mask has it.
pub visit_edge :
    (c : Now) (s : Runtime)
    → IsSound s
    → c.initialized ≡ true
    → after_post (visit c s).1 s.active ≡ (visit c s).0.active
unfolding visit visit_one_shot visit_recurring follow_window fire_once
visit_edge c s v run = ground arith

pub visit_on : (c : Now) (s : Runtime) → IsSound s → (visit c s).2 ≡ (visit c s).0.active
unfolding visit visit_one_shot visit_recurring follow_window fire_once
visit_on c s v = ground arith

pub visit-IsSound : (c : Now) (s : Runtime) → IsSound s → IsSound (visit c s).0
unfolding visit visit_one_shot visit_recurring follow_window fire_once
visit-IsSound c s v = λ h. ground arith

heard-post_one :
    (c : Now) (i : ℕ) (s : Runtime) (p : Post) (rest : List Pending) (k mask : ℕ) (on : Bool)
    → heard k (map (payload mask) (post_one c i s p rest)) on
      ≡ heard k (map (payload mask) rest) (if i == k then after_post p on else on)
unfolding heard post_one payload
heard-post_one c i s none rest k mask on = ground arith
heard-post_one c i s (some (e, r)) rest k mask on = ground arith

heard-later :
    (c : Now) (i : ℕ) (ss : List Runtime) (k mask : ℕ) (on : Bool)
    → k < i
    → heard k (map (payload mask) (posts c i ss)) on ≡ on
unfolding posts heard
heard-later c i [] k mask on h = refl
heard-later c i (s ∷ ss) k mask on h =
    let rest = heard-later c (suc i) ss k mask on (omega arith) in
    ground (arith, heard-post_one c i s (visit c s).1 (posts c (suc i) ss) k mask on, rest)

pub heard-at :
    (c : Now) (i : ℕ) (ss : List Runtime) (j k mask : ℕ) (on : Bool) (s : Runtime)
    → k ≡ i + j
    → get_elem? ss j ≡ some s
    → heard k (map (payload mask) (posts c i ss)) on ≡ after_post (visit c s).1 on
unfolding posts
heard-at c i [] j k mask on s at e = absurd (cc)
heard-at c i (t ∷ ss) zero k mask on s at e =
    let here = heard-post_one c i t (visit c t).1 (posts c (suc i) ss) k mask on in
    let same : t ≡ s = some-injective _ _ e in
    subst (λ x. heard k (map (payload mask) (posts c i (t ∷ ss))) on ≡ after_post (visit c x).1 on)
      same (here ∙ (heard-later c (suc i) ss k mask _ (omega arith) ∙ ground arith))
heard-at c i (t ∷ ss) (suc j) k mask on s at e =
    let here = heard-post_one c i t (visit c t).1 (posts c (suc i) ss) k mask on in
    let other : (i == k) ≡ false = ground arith in
    here
    ∙ (ap
          (λ b.
            heard k (map (payload mask) (posts c (suc i) ss))
              (if b then after_post (visit c t).1 on else on))
          other
        ∙ heard-at c (suc i) ss j k mask on s (omega arith) e)

mask-later :
    (c : Now) (i : ℕ) (ss : List Runtime) (mask k : ℕ)
    → k < i
    → bit (mask_from c i ss mask) k ≡ bit mask k
unfolding mask_from
mask-later c i [] mask k h = refl
mask-later c i (s ∷ ss) mask k h =
    let mask1 : ℕ = if (visit c s).2 then set_bit mask i else mask in
    let here : bit mask1 k ≡ bit mask k = ground (arith, bit-set_bit i k mask) in
    mask-later c (suc i) ss mask1 k (omega arith) ∙ here

pub mask-at :
    (c : Now) (i : ℕ) (ss : List Runtime) (mask j k : ℕ) (s : Runtime)
    → k ≡ i + j
    → get_elem? ss j ≡ some s
    → bit (mask_from c i ss mask) k ≡ ((visit c s).2 || bit mask k)
unfolding mask_from
mask-at c i [] mask j k s at e = absurd (cc)
mask-at c i (t ∷ ss) mask zero k s at e =
    let same : t ≡ s = some-injective _ _ e in
    let mask1 : ℕ = if (visit c t).2 then set_bit mask i else mask in
    subst (λ x. bit (mask_from c i (t ∷ ss) mask) k ≡ ((visit c x).2 || bit mask k)) same
      (mask-later c (suc i) ss mask1 k (omega arith) ∙ ground (arith, bit-set_bit i k mask))
mask-at c i (t ∷ ss) mask (suc j) k s at e =
    let mask1 : ℕ = if (visit c t).2 then set_bit mask i else mask in
    mask-at c (suc i) ss mask1 j k s (omega arith) e ∙ ground (arith, bit-set_bit i k mask)
