-- ===== src/Logic/Plan.antt =====
-- PoolLogicScheduler.cpp: the next filtration plan and its measurement.
use flowio_waveshare_qwiic.Prelude.{
  ℕ, ◌+◌, ◌/◌, ◌%◌, Bool, true, false, not, ◌&&◌, ◌||◌, none, some, ltb, leb, ◌==◌, if◌then◌else◌,
  sub32,
}
use flowio_waveshare_qwiic.Logic.Types.{DeviceFsm, Plan, Services, slot_filtration_window}
use flowio_waveshare_qwiic.Logic.Window.{minutes_per_day, compute_window}

module _ (v : Services) where
  open v use {F, fadd, fdiv, finite, of_ℕ, World, slot_active, set_slot, store_plan, part_stored}

  -- `applyFiltrationWindowSlot_`
  unfoldable pub apply_window : ℕ → ℕ → ℕ → Plan F → World → Plan F × World × Bool
  apply_window start stop duration p w =
      if ltb duration 120
        || (ltb minutes_per_day duration || (leb minutes_per_day start || leb minutes_per_day stop))
      then (p, w, false)
      else (let continuous : Bool = duration == minutes_per_day in
          let (done, w1) = set_slot w (record {
            slot = slot_filtration_window;
            enabled = not continuous;
            start_hour = start / 60;
            start_minute = start % 60;
            end_hour = stop / 60;
            end_minute = stop % 60;
          }) in
          if not done then (p, w1, false) else (
            record p {
              continuous = continuous;
              active_duration_minute = duration;
              window_active =
                  if continuous then true else (elim (slot_active w1 slot_filtration_window) [
                    | none ↦ false
                    | some on ↦ on
                  ]);
              reconcile_pending = true;
            },
            w1,
            true,
          ))

  -- `applyStoredFiltrationPlan_`
  unfoldable pub apply_stored : Plan F → World → Plan F × World × Bool
  apply_stored p w = apply_window p.calc_start_minute p.calc_stop_minute p.calc_duration_minute p w

  -- `calculateAndStoreNextFiltrationPlan_`
  unfoldable pub store_next : F → Bool → Plan F → World → Plan F × World × Bool
  store_next temp apply_now p w = elim (compute_window v.floats temp) [
    | none ↦ (p, w, false)
    | some win ↦
        let (stored, w1) = store_plan w win.start_minute win.stop_minute win.duration_minutes in
        if not stored
        then (let (start, stop, duration) =
              part_stored w (p.calc_start_minute, p.calc_stop_minute, p.calc_duration_minute)
                (win.start_minute, win.stop_minute, win.duration_minutes) in
            (
              record p {
                calc_start_minute = start;
                calc_stop_minute = stop;
                calc_duration_minute = duration;
              },
              w1,
              false,
            ))
        else (let p1 : Plan F = record p {
          calc_start_minute = win.start_minute;
          calc_stop_minute = win.stop_minute;
          calc_duration_minute = win.duration_minutes;
        } in
            if apply_now
            then apply_window win.start_minute win.stop_minute win.duration_minutes p1 w1
            else (p1, w1, true))
  ]

  -- `armFiltrationTemperatureSampling_`
  unfoldable pub arm_sampling : Plan F → Plan F
  arm_sampling p = record p {
    sampling_armed = true;
    plan_stored = false;
    last_sample_ms = 0;
    sample_sum = of_ℕ 0;
    sample_count = 0;
  }

  -- The sample that may be taken in the fifth minute.
  unfoldable pub take_sample : ℕ → ℕ → Bool → F → Plan F → Plan F
  take_sample now run have temp p =
      if leb 240000 run
        && (ltb run 300000
            && (have
                && (finite temp
                    && ((p.last_sample_ms == 0) || leb 5000 (sub32 now p.last_sample_ms)))))
      then record p {
        sample_sum = fadd p.sample_sum temp;
        sample_count = p.sample_count + 1;
        last_sample_ms = now;
      }
      else p

  -- `updateFiltrationTemperatureSampling_`
  unfoldable pub update_sampling : ℕ → Bool → F → DeviceFsm → Plan F → World → Plan F × World
  update_sampling now have temp filtration p w =
      if not p.sampling_armed || not filtration.on
      then (p, w)
      else (let run : ℕ = sub32 now filtration.state_since_ms in
          let p1 : Plan F = take_sample now run have temp p in
          if ltb run 300000
          then (p1, w)
          else (let p2 : Plan F = record p1 { sampling_armed = false } in
              if p2.sample_count == 0
              then (p2, w)
              else (let (p3, w1, stored) =
                    store_next (fdiv p2.sample_sum (of_ℕ p2.sample_count)) false p2 w in
                  (record p3 { plan_stored = stored }, w1))))
