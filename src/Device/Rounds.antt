-- ===== src/Device/Rounds.antt =====
-- One round of the loop of `tickDevices_` in the module: what it may leave on, with the slots that
-- the device depends on.
use flowio_waveshare_qwiic.Prelude.{
  ℕ, suc, ◌*◌, ◌<◌, ◌≡◌, ◌⊎◌, inl, inr, sym, subst, ◌∙◌, Bool, true, false, ◌==◌, List, [], ◌∷◌,
  some, arith, Bool-cases, bit, get_elem?,
}
use mathlib.Core.Option.{some-injective}
use flowio_waveshare_qwiic.Time.Bits.{bit-zero}
use flowio_waveshare_qwiic.Device.Types.{io_error, Slot, Env}
use flowio_waveshare_qwiic.Device.Slots.{tick_slot}
use flowio_waveshare_qwiic.Device.Control.{all_on, dependencies_satisfied, max_uptime_reached}
use flowio_waveshare_qwiic.Device.Module.{Module, tick_at}
use flowio_waveshare_qwiic.Device.Safety.{MayRun, tick_slot-MayRun}
use flowio_waveshare_qwiic.Device.Recovery.{tick_at_self}

module _ {F : Type 0} where
  -- Of the slots from number `i` on, those in the mask are in use and on, but for `self`.
  abbrev pub AreOn : ℕ → ℕ → ℕ → List (Slot F) → Type 0
  AreOn mask self i [] = Unit
  AreOn mask self i (d ∷ ds) =
      ((bit mask i ≡ false) ⊎ ((i ≡ self) ⊎ ((d.used ≡ true) × (d.actual_on ≡ true))))
      × AreOn mask self (suc i) ds

  -- No limit is set, or the running time of the day is below it.
  abbrev pub IsBelowLimit : Slot F → Type 0
  IsBelowLimit s =
      (s.def.max_uptime_day_sec ≡ 0) ⊎ (s.running_ms_day < s.def.max_uptime_day_sec * 1000)

  all_on-AreOn :
      (mask self i : ℕ) (ds : List (Slot F)) → all_on mask self i ds ≡ true → AreOn mask self i ds
  unfolding all_on
  all_on-AreOn mask self i [] h = tt
  all_on-AreOn mask self i (d ∷ ds) h = (
    elim (Bool-cases (bit mask i)) [
      | inr out ↦ inl out
      | inl dep ↦ elim (Bool-cases (i == self)) [
        | inl same ↦ inr (inl (ground (arith, same)))
        | inr other ↦ inr (inr (ground (arith, dep, other)))
      ]
    ],
    all_on-AreOn mask self (suc i) ds (ground (arith, h)),
  )

  all_on-empty : (self i : ℕ) (ds : List (Slot F)) → AreOn 0 self i ds
  all_on-empty self i [] = tt
  all_on-empty self i (d ∷ ds) = (inl (bit-zero i), all_on-empty self (suc i) ds)

  dependencies-AreOn :
      (i : ℕ) (ss : List (Slot F)) (s : Slot F)
      → get_elem? ss i ≡ some s
      → dependencies_satisfied i ss ≡ true
      → AreOn s.def.depends_on_mask i 0 ss
  unfolding dependencies_satisfied
  dependencies-AreOn i ss s e h = elim (Bool-cases (s.def.depends_on_mask == 0)) [
    | inl none_set ↦
        let zero_mask : 0 ≡ s.def.depends_on_mask = ground arith in
        subst (λ (k : ℕ). AreOn k i 0 ss) zero_mask (all_on-empty i 0 ss)
    | inr some_set ↦ all_on-AreOn s.def.depends_on_mask i 0 ss (ground (arith, e, some_set))
  ]

  below-limit : (s : Slot F) → max_uptime_reached s ≡ false → IsBelowLimit s
  unfolding max_uptime_reached
  below-limit s h = elim (Bool-cases (s.def.max_uptime_day_sec == 0)) [
    | inl free ↦ inl (ground (arith, free))
    | inr set ↦ inr (ground (arith, set))
  ]

module _ (e : Env) where
  open e use {F}

  -- After the round of `tickDevices_` for a used slot, an output that is on was left on by a failed
  -- write (the block reason says so), or the device is asked for, is enabled, was below its daily
  -- limit when the round began, every other slot in its mask of dependencies is in use and on, and
  -- no physical recovery is in progress.
  pub tick_at-MayRun :
      (now : ℕ) (allow pending locked : Bool) (i : ℕ) (m : Module e) (s t : Slot F)
      → get_elem? m.slots i ≡ some s
      → s.used ≡ true
      → get_elem? (tick_at e now allow pending locked i m).slots i ≡ some t
      → t.actual_on ≡ true
      → (t.block_reason ≡ io_error)
        ⊎ ((t.desired_on ≡ true)
            × (s.def.enabled ≡ true)
            × IsBelowLimit s
            × AreOn s.def.depends_on_mask i 0 m.slots
            × (locked ≡ false))
  tick_at-MayRun now allow pending locked i m s t g u after on =
      let deps = dependencies_satisfied i m.slots in
      let r = (tick_slot e i now allow pending locked deps m.store s m.world).slot in
      let same : r ≡ t =
        some-injective _ _ (sym (tick_at_self e now allow pending locked i s m g u) ∙ after) in
      let may : MayRun e locked deps s t = subst (MayRun e locked deps s) same (
        tick_slot-MayRun e i now allow pending locked deps m.store s m.world
          (subst (λ x. x.actual_on ≡ true) (sym same) on)) in
      elim may [
        | inl failed ↦ inl failed
        | inr (asked, enabled, below, ready, free) ↦
            inr (asked, enabled, below-limit s below, dependencies-AreOn i m.slots s g ready, free)
      ]
