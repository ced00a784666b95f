-- ===== src/Alarm/Timers.antt =====
-- The on and off delays of one slot under a sequence of samples.
use flowio_waveshare_qwiic.Prelude.{
  ℕ, ◌≡◌, ◌≢◌, ◌≤◌, ◌<◌, true, false, List, [], ◌∷◌, arith, All, sub32,
}
use flowio_waveshare_qwiic.Alarm.Types.{CondState, faulty, Slot}
use flowio_waveshare_qwiic.Alarm.Engine.{advance}

-- A slot under successive samples: the condition's value and the time of each.
unfoldable pub samples : List (CondState × ℕ) → Slot → Slot
samples [] s = s
samples ((cond, now) ∷ cs) s = samples cs (advance cond now s).0

-- The samples all say `cond`, each sooner than `delay` after `since`.
abbrev pub Steady : CondState → ℕ → ℕ → List (CondState × ℕ) → Type 0
Steady cond since delay = All (λ c. (c.0 ≡ cond) × (sub32 c.1 since < delay))

-- An inactive slot whose on timer runs since `since`.
pub record Arming (since : ℕ) (delay : ℕ) (s : Slot) : Type 0 where
  pub idle : s.active ≡ false
  pub started : s.on_since_ms ≡ since
  pub wait : s.def.on_delay_ms ≡ delay

advance-Arming :
    (since delay now : ℕ) (s : Slot)
    → since ≢ 0
    → Arming since delay s
    → sub32 now since < delay
    → Arming since delay (advance faulty now s).0
unfolding advance
advance-Arming since delay now s h v l = ground arith

samples-Arming :
    (since delay : ℕ) (cs : List (CondState × ℕ)) (s : Slot)
    → since ≢ 0
    → Steady faulty since delay cs
    → Arming since delay s
    → Arming since delay (samples cs s)
unfolding samples
samples-Arming since delay [] s h st v = v
samples-Arming since delay ((cond, now) ∷ cs) s h st v =
    samples-Arming since delay cs _ h st.1 (rw st.0.0 (advance-Arming since delay now s h v st.0.1))

starts :
    (since delay : ℕ) (s : Slot)
    → since ≢ 0
    → 0 < delay
    → s.active ≡ false
    → s.on_since_ms ≡ 0
    → s.def.on_delay_ms ≡ delay
    → Arming since delay (advance faulty since s).0
unfolding advance
starts since delay s h p a z d = ground arith

fires :
    (since delay now : ℕ) (s : Slot)
    → since ≢ 0
    → Arming since delay s
    → delay ≤ sub32 now since
    → ((advance faulty now s).0.active ≡ true) × ((advance faulty now s).1.raised ≡ true)
unfolding advance
fires since delay now s h v l = ground arith

-- The on delay is exact. An idle slot first finds its condition true at `since`. While every
-- later sample finds it true sooner than the delay after that, the alarm stays off; the first
-- sample at or past the delay raises it. (Times are readings of a 32-bit clock that wraps; a
-- reading of 0 does not start the timer.)
pub on_delay_exact :
    (since delay now : ℕ) (cs : List (CondState × ℕ)) (s : Slot)
    → since ≢ 0
    → 0 < delay
    → s.active ≡ false
    → s.on_since_ms ≡ 0
    → s.def.on_delay_ms ≡ delay
    → Steady faulty since delay cs
    → delay ≤ sub32 now since
    → ((samples ((faulty, since) ∷ cs) s).active ≡ false)
      × ((advance faulty now (samples ((faulty, since) ∷ cs) s)).0.active ≡ true)
      × ((advance faulty now (samples ((faulty, since) ∷ cs) s)).1.raised ≡ true)
unfolding samples
on_delay_exact since delay now cs s h p a z d st l =
    let still = samples-Arming since delay cs _ h st (starts since delay s h p a z d) in
    let up = fires since delay now _ h still l in (still.idle, up.0, up.1)

-- An active alarm that is not latched, whose off timer runs since `since`.
pub record Leaving (since : ℕ) (delay : ℕ) (s : Slot) : Type 0 where
  pub busy : s.active ≡ true
  pub started : s.off_since_ms ≡ since
  pub wait : s.def.off_delay_ms ≡ delay
  pub free : s.def.latched ≡ false
