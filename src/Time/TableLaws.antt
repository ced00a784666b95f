-- ===== src/Time/TableLaws.antt =====
-- `setSlot_`, `clearSlot_` and `clearAllSlots_` against the table that a reader sees.
use mathlib.Core.Option.{some-injective}
use flowio_waveshare_qwiic.Prelude.{
  ℕ, zero, suc, Bool, true, false, some, List, [], ◌∷◌, ◌≡◌, ◌<◌, ◌≤◌, ◌&&◌, ◌||◌, ◌==◌, leb, ltb,
  not, set, length-set, get_elem?-set_self, get_elem?-set_ne, refl, sym, ap, subst, ◌∙◌, arith,
  if◌then◌else◌, length, get_elem?, get_elem?-lt, All, Option-cases, Bool-cases, bit, inl, inr,
  All-set, get_elem?-some,
}
use flowio_waveshare_qwiic.Time.Types.{
  Mode, recurring_clock, one_shot_epoch, Definition, Runtime, Scheduler, blank_runtime,
}
use flowio_waveshare_qwiic.Time.Bits.{bit-clear_bit}
use flowio_waveshare_qwiic.Time.System.{is_active}
use flowio_waveshare_qwiic.Time.Table.{
  normalize, install, restore, set_slot, get_slot, clear_slot, clear_bit, filled, normalize_mode,
}
use flowio_waveshare_qwiic.Time.Listen.{IsSound}
use flowio_waveshare_qwiic.Time.Runs.{IsTable}

slot-normalize_mode :
    (mode : Mode) (d n : Definition) → normalize_mode mode d ≡ some n → n.slot ≡ d.slot
unfolding normalize_mode
slot-normalize_mode recurring_clock d n h = ground arith
slot-normalize_mode one_shot_epoch d n h = ground arith

-- What is stored keeps its slot number.
pub slot-normalize : (d n : Definition) → normalize d ≡ some n → n.slot ≡ d.slot
unfolding normalize
slot-normalize d n h = slot-normalize_mode d.mode _ n h

set-set {ℓ} :
    {A : Type ℓ} (xs : List A) (i : ℕ) (a b : A)
    → get_elem? xs i ≡ some a
    → set (set xs i b) i a ≡ xs
set-set [] i a b e = refl
set-set (x ∷ xs) zero a b e = ap (λ y. y ∷ xs) (sym (some-injective _ _ e))
set-set (x ∷ xs) (suc i) a b e = ap (λ y. x ∷ y) (set-set xs i a b e)

-- A table that cannot be stored is left as it was: the request fails and no field has changed.
pub set_slot_rollback : (d : Definition) (m : Scheduler) → set_slot false d m ≡ (m, false)
unfolding set_slot restore install
set_slot_rollback d m = elim (Option-cases (normalize d)) [
  | inl bad ↦ ground (arith, bad)
  | inr (n, good) ↦ elim (Option-cases (get_elem? m.sched n.slot)) [
    | inl gone ↦ ground (arith, good, gone)
    | inr (s, found) ↦ ground (arith, good, found, set-set m.sched n.slot s (filled n))
  ]
]

module _ (d n : Definition) (m : Scheduler) (good : normalize d ≡ some n) (low : 3 ≤ d.slot)
    (high : d.slot < 16) (v : IsTable m) where
  pub set_slot-install : set_slot true d m ≡ (install n m, true)
  unfolding set_slot
  set_slot-install =
      let same = slot-normalize d n good in
      let (s, found) = get_elem?-some m.sched n.slot (omega (arith, v.size)) in
      ground (arith, good, found)

  get-install : (k : ℕ) → get_slot k (install n m) ≡ (if k == d.slot then some n else get_slot k m)
  unfolding get_slot install
  get-install k =
      let same = slot-normalize d n good in
      elim (Bool-cases (k == d.slot)) [
        | inl here ↦
            let at : n.slot ≡ k = ground arith in
            ground (arith, get_elem?-set_self m.sched n.slot (filled n), v.size)
        | inr there ↦ ground (arith, get_elem?-set_ne m.sched n.slot k (filled n), v.size)
      ]

  active-install : (k : ℕ) → is_active k (install n m) ≡ (not (k == d.slot) && is_active k m)
  unfolding is_active install
  active-install k =
      ground (arith, slot-normalize d n good, bit-clear_bit n.slot k m.active_mask_value)

pub set_slot-valid :
    (d : Definition) (m : Scheduler)
    → (set_slot true d m).1 ≡ true
    → (n : Definition) × (normalize d ≡ some n) × (3 ≤ d.slot) × (d.slot < 16)
unfolding set_slot
set_slot-valid d m h = elim (Option-cases (normalize d)) [
  | inl bad ↦ absurd (ground (arith, bad))
  | inr (n, good) ↦ (n, good, ground (arith, good), ground (arith, good))
]

-- After a request that succeeds, the slot asked for reads as the normalised definition and is not
-- on, and every other slot reads as before and is on as before.
pub get-set_slot :
    (d : Definition) (m : Scheduler) (k : ℕ)
    → IsTable m
    → (set_slot true d m).1 ≡ true
    → (get_slot k (set_slot true d m).0 ≡ (if k == d.slot then normalize d else get_slot k m))
      × (is_active k (set_slot true d m).0 ≡ (not (k == d.slot) && is_active k m))
get-set_slot d m k v done =
    let (n, good, low, high) = set_slot-valid d m done in
    let whole = set_slot-install d n m good low high v in
    rw (whole, good) (get-install d n m good low high v k, active-install d n m good low high v k)

off_or_same :
    (ss : List Runtime) (i k : ℕ) (s t : Runtime) (on : Bool)
    → s.active ≡ false
    → get_elem? (set ss i s) k ≡ some t
    → ((u : Runtime) → get_elem? ss k ≡ some u → on ≡ u.active)
    → (not (i == k) && on) ≡ t.active
off_or_same ss i k s t on off e before = elim (Bool-cases (i == k)) [
  | inl here ↦
      let at : i ≡ k = ground arith in
      let low = get_elem?-lt (set ss i s) k t e in
      ground (arith, get_elem?-set_self ss i s, length-set ss i s)
  | inr there ↦ ground (arith, get_elem?-set_ne ss i k s, before t)
]

-- A slot changed in a table with its bit of the mask cleared.
IsTable-off :
    (m m' : Scheduler) (i : ℕ) (s : Runtime)
    → IsTable m
    → s.active ≡ false
    → m'.sched ≡ set m.sched i s
    → m'.active_mask_value ≡ clear_bit m.active_mask_value i
    → IsTable m'
IsTable-off m m' i s v off slots mask = record {
  size = ap length slots ∙ (length-set m.sched i s ∙ v.size);
  sound = subst (All IsSound) (sym slots) (All-set IsSound m.sched i s v.sound (λ e. absurd (cc)));
  masked = λ k t e.
      ap (λ w. bit w k) mask
      ∙ (bit-clear_bit i k m.active_mask_value
          ∙ off_or_same m.sched i k s t (bit m.active_mask_value k) off
              (subst (λ ss. get_elem? ss k ≡ some t) slots e) (v.masked k));
}

install-IsTable : (n : Definition) (m : Scheduler) → IsTable m → IsTable (install n m)
unfolding install
install-IsTable n m v = IsTable-off m _ n.slot (filled n) v refl refl refl

pub set_slot-refused :
    (d : Definition) (m : Scheduler) → (set_slot true d m).1 ≡ false → (set_slot true d m).0 ≡ m
unfolding set_slot
set_slot-refused d m h = elim (Option-cases (normalize d)) [
  | inl bad ↦ ground (arith, bad)
  | inr (n, good) ↦ elim (Option-cases (get_elem? m.sched n.slot)) [
    | inl gone ↦ ground (arith, good, gone)
    | inr (s, found) ↦ ground (arith, good, found)
  ]
]

-- `setSlot_` and `clearSlot_` keep a table, whether or not it could be stored.
pub set_slot-IsTable :
    (persist : Bool) (d : Definition) (m : Scheduler) → IsTable m → IsTable (set_slot persist d m).0
set_slot-IsTable false d m v = subst (λ p. IsTable p.0) (sym (set_slot_rollback d m)) v
set_slot-IsTable true d m v = elim (Bool-cases (set_slot true d m).1) [
  | inl done ↦
      let (n, good, low, high) = set_slot-valid d m done in
      subst (λ p. IsTable p.0) (sym (set_slot-install d n m good low high v))
        (install-IsTable n m v)
  | inr refused ↦ subst IsTable (sym (set_slot-refused d m refused)) v
]

pub clear_slot-IsTable :
    (persist : Bool) (slot : ℕ) (m : Scheduler) → IsTable m → IsTable (clear_slot persist slot m).0
unfolding clear_slot
clear_slot-IsTable persist slot m v = elim (Bool-cases (leb 16 slot || ltb slot 3)) [
  | inl refused ↦
      let same : (clear_slot persist slot m).0 ≡ m = ground arith in subst IsTable (sym same) v
  | inr go ↦ IsTable-off m _ slot (blank_runtime slot) v refl (ground arith) (ground arith)
]
