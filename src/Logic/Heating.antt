-- ===== src/Logic/Heating.antt =====
-- PoolLogicControl.cpp, the heating assistant of `runControlLoop_`: probes of the water, heating,
-- and the hysteresis of the heater.
use flowio_waveshare_qwiic.Prelude.{
  ℕ, Bool, true, false, not, ◌||◌, leb, ◌==◌, if◌then◌else◌, sub16,
}
use flowio_waveshare_qwiic.Floats.{FloatOps}
use flowio_waveshare_qwiic.Logic.Types.{
  HeatAssist, heat_disabled, manual_mode, psi_blocked, setpoint_invalid, temp_unavailable,
  probe_wait_30m, probe_wait_20m, probe_running, heating, idle_pump_on, setpoint_reached,
  HeatReason,
}

-- `resetHeatAssistSession`
unfoldable pub reset_session : HeatAssist → HeatAssist
reset_session h = record h { probing = false; heating_active = false; probe_start_sec = 0 }

-- What the assistant decides.
pub record HeatOut : Type 0 where
  pub heat : HeatAssist
  pub filtration_desired : Bool
  pub heater_desired : Bool

-- What it reads: the modes, the errors, the states of the pump and the heater, the base request of
-- the pump, and the water.
pub record HeatIn (F : Type 0) : Type 0 where
  pub heater_auto : Bool
  pub auto_mode : Bool
  pub psi_error : Bool
  pub setpoint : F
  pub pump_on : Bool
  pub base : Bool
  pub heater_on : Bool
  pub fresh : Bool
  pub temp : F
  pub now_sec : ℕ

-- `kHeatAssistProbeRunSec` and the two idle times
abbrev pub probe_run_sec : ℕ
probe_run_sec = 300

abbrev pub idle_sec : Bool → ℕ
idle_sec fast = if fast then 1200 else 1800

abbrev pub probe_wait : Bool → HeatReason
probe_wait fast = if fast then probe_wait_20m else probe_wait_30m

-- `startProbe`
unfoldable pub start_probe : ℕ → HeatAssist → HeatOut
start_probe now_sec h = record {
  heat = record h {
    probing = true;
    heating_active = false;
    probe_start_sec = now_sec;
    reason = probe_running;
  };
  filtration_desired = true;
  heater_desired = false;
}

module _ (fl : FloatOps) where
  open fl use {F, flt, fle, fadd, fsub, finite, lit}

  abbrev pub start_threshold : F → F
  start_threshold setpoint = fsub setpoint (lit 3 1)

  abbrev pub stop_threshold : F → F
  stop_threshold setpoint = fadd setpoint (lit 3 1)

  -- A heating session.
  unfoldable pub heating_step : HeatIn F → HeatAssist → HeatOut
  heating_step x h =
      if not x.fresh
      then record {
        heat = record h { reason = temp_unavailable };
        filtration_desired = true;
        heater_desired = false;
      }
      else if fle (stop_threshold x.setpoint) x.temp
      then record {
        heat = record h {
          heating_active = false;
          probing = false;
          probe_start_sec = 0;
          last_probe_end_sec = x.now_sec;
          fast_cycle = true;
          reason = setpoint_reached;
        };
        filtration_desired = false;
        heater_desired = false;
      }
      else record {
        heat = record h { reason = heating };
        filtration_desired = true;
        heater_desired = true;
      }

  -- A probe.
  unfoldable pub probe_step : HeatIn F → HeatAssist → HeatOut
  probe_step x h =
      if not (leb probe_run_sec (sub16 x.now_sec h.probe_start_sec))
      then record {
        heat = record h { reason = probe_running };
        filtration_desired = true;
        heater_desired = false;
      }
      else if not x.fresh
      then record {
        heat = record h {
          probing = false;
          probe_start_sec = 0;
          last_probe_end_sec = x.now_sec;
          reason = temp_unavailable;
        };
        filtration_desired = x.base;
        heater_desired = false;
      }
      else if fle x.temp (start_threshold x.setpoint)
      then record {
        heat = record h {
          probing = false;
          probe_start_sec = 0;
          heating_active = true;
          reason = heating;
        };
        filtration_desired = true;
        heater_desired = true;
      }
      else record {
        heat = record h {
          probing = false;
          probe_start_sec = 0;
          last_probe_end_sec = x.now_sec;
          reason = probe_wait h.fast_cycle;
        };
        filtration_desired = x.base;
        heater_desired = false;
      }

  -- The heater while the pump runs, or is to run, for filtration.
  unfoldable pub pump_step : HeatIn F → HeatAssist → HeatOut
  pump_step x h =
      if not x.fresh
      then record {
        heat = record h { reason = temp_unavailable };
        filtration_desired = x.base;
        heater_desired = false;
      }
      else (let wanted : Bool =
            if x.heater_on
            then flt x.temp (stop_threshold x.setpoint)
            else fle x.temp (start_threshold x.setpoint) in
          record {
            heat = record h { reason = if wanted then heating else idle_pump_on };
            filtration_desired = x.base;
            heater_desired = wanted;
          })

  -- The wait for the next probe.
  unfoldable pub wait_step : HeatIn F → HeatAssist → HeatOut
  unfolding start_probe
  wait_step x h =
      if (h.last_probe_end_sec == 0)
        || leb (idle_sec h.fast_cycle) (sub16 x.now_sec h.last_probe_end_sec)
      then start_probe x.now_sec h
      else record {
        heat = record h { reason = probe_wait h.fast_cycle };
        filtration_desired = false;
        heater_desired = false;
      }

  -- The whole of it.
  unfoldable pub heat_assist : HeatIn F → HeatAssist → HeatOut
  unfolding reset_session heating_step probe_step pump_step wait_step
  heat_assist x h =
      if not x.heater_auto
      then record {
        heat =
            (let r : HeatAssist = reset_session h in
              record r { fast_cycle = false; last_probe_end_sec = 0; reason = heat_disabled });
        filtration_desired = x.base;
        heater_desired = x.heater_on;
      }
      else if not x.auto_mode
      then record {
        heat = (let r : HeatAssist = reset_session h in record r { reason = manual_mode });
        filtration_desired = x.base;
        heater_desired = x.heater_on;
      }
      else if x.psi_error
      then record {
        heat = (let r : HeatAssist = reset_session h in record r { reason = psi_blocked });
        filtration_desired = x.base;
        heater_desired = false;
      }
      else if not (finite x.setpoint)
      then record {
        heat = (let r : HeatAssist = reset_session h in record r { reason = setpoint_invalid });
        filtration_desired = x.base;
        heater_desired = false;
      }
      else if h.heating_active
      then heating_step x h
      else if h.probing
      then probe_step x h
      else if x.pump_on || x.base
      then pump_step x h
      else wait_step x h
