-- ===== src/Device/Recovery.antt =====
-- The loop of `tickDevices_` over the slots, and the physical recovery lock.
use flowio_waveshare_qwiic.Prelude.{
  ℕ, zero, suc, ◌+◌, ◌≤◌, ◌<◌, ◌≡◌, ◌≢◌, inl, inr, refl, sym, subst, ◌∙◌, Bool, true, some, arith,
  Bool-cases, Option-cases, get_elem?, get_elem?-set_self, get_elem?-set_ne, get_elem?-lt,
}
use native.Mathlib.Decide.{ℕ_discrete}
use flowio_waveshare_qwiic.Device.Types.{Slot, Env}
use flowio_waveshare_qwiic.Device.Slots.{tick_slot}
use flowio_waveshare_qwiic.Device.Control.{dependencies_satisfied}
use flowio_waveshare_qwiic.Device.Module.{Module, tick_at, tick_from}

module _ (e : Env) where
  open e use {F}

  -- What the resets of counters keep of a slot.
  record Kept (s t : Slot F) : Type 0 where
    pub used : t.used ≡ s.used
    pub def : t.def ≡ s.def

  module _ (now : ℕ) (allow pending locked : Bool) where
    -- A round for one slot leaves the others alone.
    tick_at_ne :
        (i j : ℕ) (m : Module e)
        → i ≢ j
        → get_elem? (tick_at e now allow pending locked i m).slots j ≡ get_elem? m.slots j
    unfolding tick_at
    tick_at_ne i j m h = elim (Option-cases (get_elem? m.slots i)) [
      | inl n ↦ rw (n, tick_at)
      | inr (s, g) ↦ elim (Bool-cases s.used) [
        | inl u ↦ rw (g, u, tick_at) (get_elem?-set_ne m.slots i j _ h)
        | inr u ↦ rw (g, u, tick_at)
      ]
    ]

    tick_from_before :
        (n i j : ℕ) (m : Module e)
        → j < i
        → get_elem? (tick_from e now allow pending locked n i m).slots j ≡ get_elem? m.slots j
    unfolding tick_from
    tick_from_before zero i j m h = refl
    tick_from_before (suc n) i j m h =
        tick_from_before n (suc i) j (tick_at e now allow pending locked i m) (omega arith)
        ∙ tick_at_ne i j m (omega arith)

    -- The slot that round `j` makes of `s`, when the module is `m`.
    abbrev pub ticked : ℕ → Slot F → Module e → Slot F
    ticked j s m =
        (tick_slot e j now allow pending locked (dependencies_satisfied j m.slots) m.store s
          m.world).slot

    pub tick_at_self :
        (i : ℕ) (s : Slot F) (m : Module e)
        → get_elem? m.slots i ≡ some s
        → s.used ≡ true
        → get_elem? (tick_at e now allow pending locked i m).slots i ≡ some (ticked i s m)
    unfolding tick_at
    tick_at_self i s m g u =
        rw (g, u, tick_at) (get_elem?-set_self m.slots i _ (get_elem?-lt m.slots i s g))

    -- Each used slot goes through one round, of a module in which it is still as it was.
    pub tick_from_slot :
        (n i j : ℕ) (s : Slot F) (m : Module e)
        → i ≤ j
        → j < i + n
        → get_elem? m.slots j ≡ some s
        → s.used ≡ true
        → (k : Module e) × (get_elem? k.slots j ≡ some s)
          × (get_elem? (tick_from e now allow pending locked n i m).slots j ≡ some (ticked j s k))
    unfolding tick_from
    tick_from_slot zero i j s m h k g u = absurd (omega arith)
    tick_from_slot (suc n) i j s m h k g u = elim (ℕ_discrete i j) [
      | yes same ↦ (
        m,
        g,
        tick_from_before n (suc i) j (tick_at e now allow pending locked i m) (omega arith)
            ∙ subst
                (λ x.
                  get_elem? (tick_at e now allow pending locked x m).slots j ≡ some (ticked j s m))
                (sym same) (tick_at_self j s m g u),
      )
      | no d ↦
          tick_from_slot n (suc i) j s (tick_at e now allow pending locked i m) (omega arith)
            (omega arith) (tick_at_ne i j m d ∙ g) u
    ]
