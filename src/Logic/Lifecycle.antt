-- ===== src/Logic/Lifecycle.antt =====
-- PoolLogicLifecycle.cpp: the events that the pool logic hears, and its loop. The entities of the
-- home automation and the logs are left out.
use flowio_waveshare_qwiic.Prelude.{
  ℕ, Bool, true, false, Option, none, some, ◌&&◌, ◌==◌, leb, if◌then◌else◌,
}
use flowio_waveshare_qwiic.Time.Types.{Edge, trigger, start, stop, Payload}
use flowio_waveshare_qwiic.Logic.Types.{Config, Plan, Logic, Services}
use flowio_waveshare_qwiic.Logic.Pid.{reset_pid}
use flowio_waveshare_qwiic.Logic.Plan.{apply_stored, store_next, arm_sampling}
use flowio_waveshare_qwiic.Logic.Loop.{run_control_loop}

-- The configuration keys that `onEvent_` compares with; any other is `other_key`.
pub data ModeKey : Type 0 where
  auto_mode_key : ModeKey
  ph_auto_mode_key : ModeKey
  orp_auto_mode_key : ModeKey
  heater_auto_mode_key : ModeKey
  other_key : ModeKey

-- An event: a change of the configuration (whether it is this module's, its branch, and its key if
-- there is one), one of the scheduler, or any other. An event without its payload is another.
pub data LogicEvent : Type 0 where
  config_changed : Bool → ℕ → Option ModeKey → LogicEvent
  scheduled : Payload → LogicEvent
  other_event : LogicEvent

-- The module with the requests that wait for its loop.
pub record Lifecycle (F : Type 0) : Type 0 where
  pub logic : Logic F
  pub pending_startup_plan : Bool
  pub pending_manual_recalc : Bool
  pub pending_day_reset : Bool

abbrev pub event_daily_recalc : ℕ
event_daily_recalc = 0x2101

abbrev pub event_filtration_window : ℕ
event_filtration_window = 0x2102

abbrev pub event_sys_day_start : ℕ
event_sys_day_start = 0xF001

abbrev pub is_trigger : Edge → Bool
is_trigger trigger = true
is_trigger start = false
is_trigger stop = false

module _ (v : Services) where
  open v use {F, floats, of_ℕ, World, read_analog, write_desired}

  abbrev pub with_plan : Lifecycle F → Plan F → Lifecycle F
  with_plan m p = let l : Logic F = m.logic in record m { logic = record l { plan = p } }

  -- A mode that is switched on: devices under automatic control start from a stop.
  unfoldable pub on_mode_key : Config F → ℕ → ModeKey → Lifecycle F → World → Lifecycle F × World
  on_mode_key c now auto_mode_key m w =
      let p : Plan F = m.logic.plan in
      if c.auto_mode then (with_plan m (record p { reconcile_pending = true }), w) else (m, w)
  on_mode_key c now ph_auto_mode_key m w =
      let l : Logic F = m.logic in
      if c.ph_auto_mode
      then (
        record m { logic = record l { ph_pid = reset_pid floats now l.ph_pid } },
        (write_desired w c.ph_pump_slot false).1,
      )
      else (m, w)
  on_mode_key c now orp_auto_mode_key m w =
      let l : Logic F = m.logic in
      if c.orp_auto_mode
      then (
        record m { logic = record l { orp_pid = reset_pid floats now l.orp_pid } },
        (write_desired w c.orp_pump_slot false).1,
      )
      else (m, w)
  on_mode_key c now heater_auto_mode_key m w =
      if c.heater_auto_mode then (m, (write_desired w c.heater_slot false).1) else (m, w)
  on_mode_key c now other_key m w = (m, w)

  -- The part of `onEvent_` for the scheduler.
  unfoldable pub on_scheduled : Payload → Lifecycle F → World → Lifecycle F × World
  on_scheduled e m w =
      let p : Plan F = m.logic.plan in
      if e.event_id == event_daily_recalc && is_trigger e.edge
      then if p.continuous
        then (let (p1, w1, done) = apply_stored v p w in
            (with_plan m (if m.logic.filtration.on then arm_sampling v p1 else p1), w1))
        else (m, w)
      else if e.event_id == event_sys_day_start && is_trigger e.edge
      then (record m { pending_day_reset = true }, w)
      else if e.event_id == event_filtration_window
      then (
        elim e.edge [
          | start ↦ with_plan m (record p { window_active = true })
          | stop ↦ with_plan m (record p { window_active = false })
          | trigger ↦ m
        ],
        w,
      )
      else (m, w)

  -- `onEvent_`; the branches 1 and 2 are those of the modes and of the filtration.
  unfoldable pub on_event : Config F → ℕ → LogicEvent → Lifecycle F → World → Lifecycle F × World
  on_event c now (config_changed mine branch key) m w =
      if c.enabled && (mine && branch == 1)
      then elim key [ none ↦ (m, w) | some k ↦ on_mode_key c now k m w ]
      else (m, w)
  on_event c now (scheduled e) m w = if c.enabled then on_scheduled e m w else (m, w)
  on_event c now other_event m w = (m, w)

  -- The plan at the start: the stored one, or one from the temperature of the water, or that for 0
  -- degrees.
  unfoldable pub startup_plan : Config F → Plan F → World → Plan F × World
  startup_plan c p w =
      if leb 120 p.calc_duration_minute && leb p.calc_duration_minute 1440
      then (let (p1, w1, done) = apply_stored v p w in (p1, w1))
      else elim (read_analog w c.water_temp_io_id) [
        | none ↦ let (p1, w1, done) = store_next v (of_ℕ 0) true p w in (p1, w1)
        | some (t, ts) ↦ let (p1, w1, done) = store_next v t true p w in (p1, w1)
      ]

  unfoldable pub manual_recalc : Config F → Plan F → World → Plan F × World
  manual_recalc c p w = elim (read_analog w c.water_temp_io_id) [
    | none ↦ (p, w)
    | some (t, ts) ↦ let (p1, w1, done) = store_next v t true p w in (p1, w1)
  ]

  -- One round of `loop`.
  unfoldable pub loop : Config F → ℕ → Lifecycle F → World → Lifecycle F × World
  loop c now m w =
      if c.enabled
      then (let p : Plan F = m.logic.plan in
          let (p1, w1) = if m.pending_startup_plan then startup_plan c p w else (p, w) in
          let (p2, w2) = if m.pending_manual_recalc then manual_recalc c p1 w1 else (p1, w1) in
          let l : Logic F = m.logic in
          let l1 : Logic F = record l {
            plan = p2;
            cleaning_done = if m.pending_day_reset then false else l.cleaning_done;
          } in
          let (l2, w3) = run_control_loop v c now l1 w2 in
          (
            record {
              logic = l2;
              pending_startup_plan = false;
              pending_manual_recalc = false;
              pending_day_reset = false;
            },
            w3,
          ))
      else (m, w)
