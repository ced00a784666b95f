-- ===== src/Logic/Conditions.antt =====
-- PoolLogicControl.cpp: the conditions that the alarm engine asks for.
use flowio_waveshare_qwiic.Prelude.{
  ℕ, Bool, not, ◌||◌, Option, none, some, leb, ◌==◌, differ, if◌then◌else◌,
}
use flowio_waveshare_qwiic.Alarm.Types.{CondState, healthy, faulty, unknown}
use flowio_waveshare_qwiic.Device.Types.{Status, max_uptime, reason_code}
use flowio_waveshare_qwiic.Logic.Types.{DeviceFsm, Config, Logic, Services}
use flowio_waveshare_qwiic.Logic.Devices.{uptime_sec}

-- `b ? AlarmCondState::True : AlarmCondState::False`
abbrev pub cond_of : Bool → CondState
cond_of b = if b then faulty else healthy

-- A reading as a condition: unknown where there is none.
abbrev pub cond_read : Option Bool → CondState
cond_read none = unknown
cond_read (some b) = cond_of b

module _ (v : Services) where
  open v use {F, flt, World, read_analog, read_digital, read_meta}

  -- `condPsiLowStatic_`
  unfoldable pub cond_psi_low : Config F → ℕ → Logic F → World → CondState
  unfolding uptime_sec
  cond_psi_low c now l w =
      if not c.enabled || not l.filtration.on
      then healthy
      else if leb (uptime_sec l.filtration now) c.psi_startup_delay_sec
      then healthy
      else elim (read_analog w c.psi_io_id) [
        | none ↦ unknown
        | some (psi, ts) ↦ cond_of (flt psi c.psi_low_threshold)
      ]

  -- `condPsiHighStatic_`
  unfoldable pub cond_psi_high : Config F → Logic F → World → CondState
  cond_psi_high c l w =
      if not c.enabled || not l.filtration.on then healthy else elim (read_analog w c.psi_io_id) [
        | none ↦ unknown
        | some (psi, ts) ↦ cond_of (flt c.psi_high_threshold psi)
      ]

  -- `condPhTankLowStatic_` and `condChlorineTankLowStatic_`
  unfoldable pub cond_ph_tank_low : Config F → World → CondState
  cond_ph_tank_low c w =
      if not c.enabled || not c.tank_level_monitoring_enabled
      then healthy
      else cond_read (read_digital w c.ph_level_io_id)

  unfoldable pub cond_chlorine_tank_low : Config F → World → CondState
  cond_chlorine_tank_low c w =
      if not c.enabled || not c.tank_level_monitoring_enabled
      then healthy
      else cond_read (read_digital w c.chlorine_level_io_id)

  -- `condWaterLevelLowStatic_`
  unfoldable pub cond_water_level_low : Config F → World → CondState
  cond_water_level_low c w =
      if not c.enabled then healthy else cond_read (read_digital w c.level_io_id)

  -- `condPumpMaxUptime_`
  unfoldable pub cond_pump_max_uptime : ℕ → World → CondState
  cond_pump_max_uptime slot w = elim (read_meta w slot) [
    | none ↦ unknown
    | some (Status.ok, block) ↦ cond_of (block == reason_code max_uptime)
    | some (Status.err_disabled, block) ↦ healthy
    | some (_, block) ↦ unknown
  ]

  -- `condContactorMismatch_`
  unfoldable pub cond_contactor_mismatch : Config F → Bool → ℕ → DeviceFsm → World → CondState
  cond_contactor_mismatch c monitored io f w =
      if not c.enabled || not monitored
      then healthy
      else if not f.known
      then unknown
      else elim (read_digital w io) [
        | none ↦ unknown
        | some feedback ↦ cond_of (differ feedback f.on)
      ]

  -- `condFiltrationContactorMismatchStatic_` and `condChlorineGeneratorContactorMismatchStatic_`
  unfoldable pub cond_filtration_mismatch : Config F → Logic F → World → CondState
  cond_filtration_mismatch c l w =
      cond_contactor_mismatch c c.filtration_feedback_monitoring_enabled c.filtration_feedback_io_id
        l.filtration w

  unfoldable pub cond_generator_mismatch : Config F → Logic F → World → CondState
  cond_generator_mismatch c l w =
      cond_contactor_mismatch c c.chlorine_generator_feedback_monitoring_enabled
        c.chlorine_generator_feedback_io_id l.swg w
