-- ===== src/Logic/Devices.antt =====
-- The state machines that follow the devices, and the requests to them.
use flowio_waveshare_qwiic.Prelude.{
  ℕ, ◌/◌, Bool, true, false, not, ◌&&◌, ◌||◌, Option, none, some, leb, differ, if◌then◌else◌, sub32,
}
use flowio_waveshare_qwiic.Logic.Types.{DeviceFsm, Services}

-- What `syncDeviceState_` reports of a device.
pub record Edge : Type 0 where
  pub fsm : DeviceFsm
  pub turned_on : Bool
  pub turned_off : Bool

-- `syncDeviceState_`, from what `readDeviceActualOn_` read.
unfoldable pub sync_device : Option Bool → ℕ → DeviceFsm → Edge
sync_device none now f = record { fsm = f; turned_on = false; turned_off = false }
sync_device (some actual) now f =
    if not f.known
    then record {
      fsm = record f { known = true; on = actual; state_since_ms = now };
      turned_on = false;
      turned_off = false;
    }
    else if differ f.on actual
    then record {
      fsm = record f { on = actual; state_since_ms = now };
      turned_on = not f.on && actual;
      turned_off = f.on && not actual;
    }
    else record { fsm = f; turned_on = false; turned_off = false }

-- `stateUptimeSec_`
unfoldable pub uptime_sec : DeviceFsm → ℕ → ℕ
uptime_sec f now = if not f.known || not f.on then 0 else sub32 now f.state_since_ms / 1000

-- The test of `applyDeviceControl_`: a new request, or a retry five seconds after the last.
unfoldable pub must_send : Bool → ℕ → DeviceFsm → Bool
must_send desired now f =
    differ desired f.last_desired
    || (f.known && (differ f.on desired && leb 5000 (sub32 now f.last_cmd_ms)))

module _ (v : Services) where
  open v use {World, write_desired}

  -- `applyDeviceControl_`
  unfoldable pub apply_control : ℕ → Bool → ℕ → DeviceFsm → World → DeviceFsm × World
  unfolding must_send
  apply_control slot desired now f w =
      if must_send desired now f
      then (
        record f { last_cmd_ms = now; last_desired = desired },
        (write_desired w slot desired).1,
      )
      else (record f { last_desired = desired }, w)
