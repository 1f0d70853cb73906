-- ===== src/Charger/Device.antt =====
-- charger/device/charger.c: the charger status from sysfs, and the handling of a udev event.
use Prim.Native.String.{String}
use nyx_modules.Base.{
  ℤ, pos, ◌==ℤ◌, Bool, true, false, not, ◌&&◌, ◌||◌, if◌then◌else◌, List, [], ◌∷◌, ◌++◌, Option,
  none, some,
}
use nyx_modules.Nyx.{NyxError, ok, generic}
use nyx_modules.Charger.Events.{
  EventFlags, no_new_event, has_charger_state_changed, has_battery_state_changed,
  has_charger_connected_state_changed,
}

-- `nyx_charger_status_t`, with `connected` and `powered` as the flags that the code sets in them. The
-- maximal current and the serial number of the dock stay 0.
pub record ChargerStatus : Type 0 where
  pub pc_connected : Bool
  pub usb_powered : Bool
  pub wall_connected : Bool
  pub direct_powered : Bool
  pub is_charging : Bool

abbrev pub no_charger : ChargerStatus
no_charger = record {
  pc_connected = false;
  usb_powered = false;
  wall_connected = false;
  direct_powered = false;
  is_charging = false;
}

-- What `nyx_utils_read_value` returns in the calls of `_charger_read_status`, in their order: -1 where
-- the path is not valid. The first two files are read twice.
pub record OnlineValues : Type 0 where
  pub usb : ℤ
  pub ac : ℤ
  pub usb_again : ℤ
  pub ac_again : ℤ
  pub touch : ℤ
  pub wireless : ℤ

-- `_charger_read_status`: the new `gChargerStatus`, which is also copied to the caller's.
unfoldable pub charger_read_status : OnlineValues → ChargerStatus
charger_read_status v =
    let s =
      if v.usb ==ℤ pos 1
      then record no_charger { pc_connected = true; usb_powered = true }
      else if v.ac ==ℤ pos 1
      then record no_charger { wall_connected = true; direct_powered = true }
      else no_charger in
    if v.usb_again ==ℤ pos 1 || v.ac_again ==ℤ pos 1 || v.touch ==ℤ pos 1 || v.wireless ==ℤ pos 1
    then record s { is_charging = true }
    else s

-- What `_battery_read_status` finds: the value of the `present` file, if it exists, and the text of
-- the `status` file, if it exists and can be read.
pub record BatteryFiles : Type 0 where
  pub present : Option ℤ
  pub status : Option String

-- `current_event`, `gChargerStatus`, `curr_battery_state->present` and `battery_status` of the module
-- after its start, when both pointers are set.
pub record Charger : Type 0 where
  pub current_event : EventFlags
  pub status : ChargerStatus
  pub battery_present : Bool
  pub battery_status : String

-- `_battery_read_status`: both are reset first.
unfoldable pub present_value : Option ℤ → Bool
present_value none = false
present_value (some n) = n ==ℤ pos 1

unfoldable pub status_value : Option String → String
status_value none = ""
status_value (some s) = s

unfoldable pub battery_read_status : BatteryFiles → Charger → Charger
unfolding present_value status_value
battery_read_status f c = record c {
  battery_present = present_value f.present;
  battery_status = status_value f.status;
}

-- `_charger_init_events`
unfoldable pub charger_init_events : Charger → Charger
charger_init_events c =
    let (e1, r1) = has_charger_state_changed none (some c.battery_status) c.current_event in
    let (e2, r2) = has_battery_state_changed false c.battery_present e1 in
    let (e3, r3) = has_charger_connected_state_changed false c.status.is_charging e2 in
    record c { current_event = e3 }

-- `_charger_init`, by the results of the udev calls; `none` is a failure, which leaves the module
-- without a state.
unfoldable pub charger_init :
    Bool → Bool → Bool → Bool → OnlineValues → BatteryFiles → NyxError × Option Charger
unfolding battery_read_status charger_init_events charger_read_status
charger_init udev mon filter receiving v f =
    if not udev
    then (generic, none)
    else if not mon
    then (generic, none)
    else if not filter
    then (generic, none)
    else if not receiving
    then (generic, none)
    else (
      ok,
      some (
          charger_init_events (
            battery_read_status f (record {
              current_event = no_new_event;
              status = charger_read_status v;
              battery_present = false;
              battery_status = "";
            }))),
    )

-- The callbacks that a udev event sets off.
pub data Callback : Type 0 where
  charger_status_callback state_change_callback : Callback

-- `_handle_power_supply_event` first looks at the charger: the flags, and whether it has changed.
unfoldable pub handle_charger : OnlineValues → Charger → Charger × Bool
unfolding charger_read_status
handle_charger v c =
    let s = charger_read_status v in
    let (e, changed) =
      has_charger_connected_state_changed c.status.is_charging s.is_charging c.current_event in
    (record c { status = s; current_event = e }, changed)

-- Then it looks at the battery. The right side of `||` is called only if the left is false.
unfoldable pub handle_battery : BatteryFiles → Charger → Charger × Bool
handle_battery f c =
    let c' = battery_read_status f c in
    let (e1, r1) =
      has_charger_state_changed (some c.battery_status) (some c'.battery_status) c.current_event in
    let (e2, r2) = has_battery_state_changed c.battery_present c'.battery_present e1 in
    if r1 then (record c' { current_event = e1 }, true) else (record c' { current_event = e2 }, r2)

-- Which callbacks are set.
pub record Registered : Type 0 where
  pub charger_status : Bool
  pub state_change : Bool

unfoldable pub fire : Registered → Bool → Bool → List Callback
fire r charger_changed battery_changed =
    (if charger_changed && r.charger_status then charger_status_callback ∷ [] else [])
    ++ (if (charger_changed || battery_changed) && r.state_change
        then state_change_callback ∷ []
        else [])

-- `_handle_power_supply_event`, for a condition with G_IO_IN and a device; otherwise it does nothing.
unfoldable pub handle_power_supply_event :
    Registered → OnlineValues → BatteryFiles → Charger → Charger × List Callback
unfolding handle_charger handle_battery fire
handle_power_supply_event r v f c =
    let (c1, charger_changed) = handle_charger v c in
    let (c2, battery_changed) = handle_battery f c1 in (c2, fire r charger_changed battery_changed)

-- `_charger_query_charger_event` of the device: the flags stay.
unfoldable pub query_charger_event : Charger → EventFlags × Charger
query_charger_event c = (c.current_event, c)
