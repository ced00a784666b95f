-- ===== src/Logic/Loop.antt =====
-- PoolLogicControl.cpp, `runControlLoop_`: what it observes, what it decides, and what it asks of
-- the devices.
use flowio_waveshare_qwiic.Prelude.{ℕ, ◌/◌, Bool, false, not, ◌&&◌, ◌||◌, if◌then◌else◌, u16}
use flowio_waveshare_qwiic.Logic.Types.{DeviceFsm, Config, Plan, Logic, Services}
use flowio_waveshare_qwiic.Logic.Devices.{Edge, sync_device, apply_control}
use flowio_waveshare_qwiic.Logic.Pid.{reset_pid}
use flowio_waveshare_qwiic.Logic.Plan.{apply_stored, arm_sampling, update_sampling}
use flowio_waveshare_qwiic.Logic.Sensors.{
  Sensors, read_sensors, update_errors, arm_pids, reconcile_window, feedback_fault,
}
use flowio_waveshare_qwiic.Logic.Demand.{
  filtration_base, robot_desired, swg_desired, filling_desired, dosing,
}
use flowio_waveshare_qwiic.Logic.Heating.{HeatIn, HeatOut, heat_assist}

module _ (v : Services) where
  open v use {F, floats, World, read_actual, alarms}

  -- Both controllers are held and reset.
  unfoldable pub reset_pids : ℕ → Logic F → Logic F
  unfolding reset_pid
  reset_pids now l = record l {
    ph_pid_enabled = false;
    orp_pid_enabled = false;
    ph_pid = reset_pid floats now l.ph_pid;
    orp_pid = reset_pid floats now l.orp_pid;
  }

  -- `if (filtrationStarted) …`
  unfoldable pub on_filtration_started : ℕ → Logic F → Logic F
  unfolding reset_pids
  on_filtration_started now l =
      let r : Logic F = reset_pids now l in record r { plan = arm_sampling v l.plan }

  -- The plan when the filtration stops: a stored plan is applied.
  unfoldable pub stop_plan : Plan F → World → Plan F × World
  stop_plan p w =
      let p1 : Plan F = record p { sampling_armed = false } in
      if p1.plan_stored
      then (let (p2, w1, done) = apply_stored v p1 w in
          (record p2 { plan_stored = p2.plan_stored && not done }, w1))
      else (p1, w)

  -- `if (filtrationStopped) …`
  unfoldable pub on_filtration_stopped : ℕ → Logic F → World → Logic F × World
  unfolding reset_pids stop_plan
  on_filtration_stopped now l w =
      let (p, w1) = stop_plan l.plan w in
      let r : Logic F = reset_pids now l in (record r { plan = p }, w1)

  -- The devices are read, and the changes of the pump and the robot are dealt with.
  unfoldable pub sync_devices : Config F → ℕ → Logic F → World → Logic F × World
  unfolding sync_device on_filtration_started on_filtration_stopped
  sync_devices c now l w =
      let pump : Edge = sync_device (read_actual w c.filtration_slot) now l.filtration in
      let robot : Edge = sync_device (read_actual w c.robot_slot) now l.robot in
      let l1 : Logic F = record l {
        filtration = pump.fsm;
        robot = robot.fsm;
        swg = (sync_device (read_actual w c.swg_slot) now l.swg).fsm;
        filling = (sync_device (read_actual w c.filling_slot) now l.filling).fsm;
        ph_pump = (sync_device (read_actual w c.ph_pump_slot) now l.ph_pump).fsm;
        orp_pump = (sync_device (read_actual w c.orp_pump_slot) now l.orp_pump).fsm;
        heater = (sync_device (read_actual w c.heater_slot) now l.heater).fsm;
      } in
      let l2 : Logic F = if pump.turned_on then on_filtration_started now l1 else l1 in
      let (l3, w1) = if pump.turned_off then on_filtration_stopped now l2 w else (l2, w) in
      (record l3 { cleaning_done = l3.cleaning_done || robot.turned_off }, w1)

  -- The measurement for the next plan, the errors and the controllers' release.
  unfoldable pub assess : Config F → ℕ → Sensors F → Logic F → World → Logic F × World
  assess c now s l w =
      let (p, w1) = update_sampling v now s.water_temp_fresh s.water_temp l.filtration l.plan w in
      let l1 : Logic F = record l { plan = p } in
      (arm_pids v c now (update_errors v c now s (alarms w1) l1), w1)

  -- What is wanted of each device, with the state that the decision leaves.
  pub record Requests : Type 0 where
    pub logic : Logic F
    pub filtration : Bool
    pub ph_pump : Bool
    pub orp_pump : Bool
    pub robot : Bool
    pub swg : Bool
    pub heater : Bool
    pub filling : Bool

  -- What the heating assistant is given.
  unfoldable pub heat_in : Config F → ℕ → Bool → Sensors F → Logic F → HeatIn F
  heat_in c now base s l = record {
    heater_auto = c.heater_auto_mode;
    auto_mode = c.auto_mode;
    psi_error = l.psi_error;
    setpoint = c.heater_setpoint;
    pump_on = l.filtration.on;
    base = base;
    heater_on = l.heater.on;
    fresh = s.water_temp_fresh;
    temp = s.water_temp;
    now_sec = u16 (now / 1000);
  }

  unfoldable pub decide : Config F → ℕ → Bool → Sensors F → Logic F → Requests
  unfolding heat_in
  decide c now fault s l =
      let base : Bool = filtration_base v c l.plan.window_active s l in
      let out : HeatOut = heat_assist floats (heat_in c now base s l) l.heat in
      let l1 : Logic F = record l { heat = out.heat } in
      let (l2, ph, orp) = dosing v c now out.filtration_desired s l1 in
      record {
        logic = l2;
        filtration = out.filtration_desired;
        ph_pump = ph;
        orp_pump = orp;
        robot = robot_desired v c now l;
        swg = swg_desired v c now fault s l;
        heater = out.heater_desired;
        filling = filling_desired v c now s l;
      }

  -- The requests to the devices, in the order of the source; `force` makes the pump's be sent.
  unfoldable pub act : Config F → ℕ → Bool → Requests → World → Logic F × World
  act c now force r w =
      let l : Logic F = r.logic in
      let f : DeviceFsm = l.filtration in
      let f1 : DeviceFsm =
        if force then record f { last_desired = not r.filtration; last_cmd_ms = 0 } else f in
      let (filtration, w1) = apply_control v c.filtration_slot r.filtration now f1 w in
      let (ph, w2) = apply_control v c.ph_pump_slot r.ph_pump now l.ph_pump w1 in
      let (orp, w3) = apply_control v c.orp_pump_slot r.orp_pump now l.orp_pump w2 in
      let (robot, w4) = apply_control v c.robot_slot r.robot now l.robot w3 in
      let (swg, w5) = apply_control v c.swg_slot r.swg now l.swg w4 in
      let (heater, w6) = apply_control v c.heater_slot r.heater now l.heater w5 in
      let (filling, w7) = apply_control v c.filling_slot r.filling now l.filling w6 in
      (
        record l {
          filtration = filtration;
          ph_pump = ph;
          orp_pump = orp;
          robot = robot;
          swg = swg;
          heater = heater;
          filling = filling;
        },
        w7,
      )

  -- `runControlLoop_` up to the requests: what it decides, whether the pump's request is forced,
  -- and the world.
  unfoldable pub prepare : Config F → ℕ → Logic F → World → Requests × Bool × World
  prepare c now l w =
      let (l1, w1) = sync_devices c now l w in
      let s : Sensors F = read_sensors v c now w1 in
      let (l2, w2) = assess c now s l1 w1 in
      let (p, force) = reconcile_window v w2 l2.plan in
      let l3 : Logic F = record l2 { plan = p } in
      (decide c now (feedback_fault v c (alarms w2)) s l3, force, w2)

  -- `runControlLoop_`
  unfoldable pub run_control_loop : Config F → ℕ → Logic F → World → Logic F × World
  unfolding prepare
  run_control_loop c now l w = let (r, force, w1) = prepare c now l w in act c now force r w1
