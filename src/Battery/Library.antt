-- ===== src/Battery/Library.antt =====
-- batterylib.c, and the start of battery/device/battery.c: the methods around the status. A device or a pointer is
-- its address, 0 for NULL.
use nyx_modules.Base.{
  ℕ, ℤ, pos, ltb_ℤ, Bool, true, false, not, ◌==◌, if◌then◌else◌, Option, none, some,
}
use nyx_modules.Nyx.{
  NyxError, ok, generic, out_of_memory, invalid_handle, invalid_value, invalid_operation,
}
use nyx_modules.Battery.Status.{BatteryStatus}

-- The global variables of batterylib.c.
pub record BatteryLibrary : Type 0 where
  pub nyx_dev : ℕ
  pub callback : ℕ
  pub callback_context : ℕ

-- `nyx_module_open`, with the address that `calloc` returns and the result of `battery_read_init`: the result, and
-- what is written to `*d`, if it is.
unfoldable pub nyx_module_open :
    ℕ → NyxError → BatteryLibrary → BatteryLibrary × NyxError × Option ℕ
nyx_module_open memory init l =
    if not (l.nyx_dev == 0)
    then (l, ok, some l.nyx_dev)
    else if memory == 0
    then (record l { nyx_dev = 0 }, out_of_memory, none)
    else (record l { nyx_dev = memory }, init, some memory)

unfoldable pub nyx_module_close : BatteryLibrary → BatteryLibrary × NyxError
nyx_module_close l = (l, ok)

unfoldable pub battery_register_battery_status_callback :
    ℕ → ℕ → ℕ → BatteryLibrary → BatteryLibrary × NyxError
battery_register_battery_status_callback handle func context l =
    if not (handle == l.nyx_dev)
    then (l, invalid_handle)
    else if func == 0
    then (l, invalid_value)
    else (record l { callback = func; callback_context = context }, ok)

-- `battery_authenticate` of both variants, and the method, which does not test the handle.
abbrev pub battery_authenticate : Bool
battery_authenticate = true

unfoldable pub battery_authenticate_battery : ℕ → NyxError × Bool
battery_authenticate_battery handle = (ok, battery_authenticate)

-- `nyx_battery_ctia_t`
pub record BatteryCtia : Type 0 where
  pub charge_min_temp_c : ℤ
  pub charge_max_temp_c : ℤ
  pub battery_crit_max_temp : ℤ
  pub skip_battery_authentication : Bool

-- `get_battery_ctia_params` of battery/device/battery.c: the address of a variable, never NULL.
unfoldable pub get_battery_ctia_params : Option BatteryCtia
get_battery_ctia_params = some (record {
  charge_min_temp_c = pos 0;
  charge_max_temp_c = pos 57;
  battery_crit_max_temp = pos 60;
  skip_battery_authentication = true;
})

unfoldable pub copy_ctia : Option BatteryCtia → NyxError × Option BatteryCtia
copy_ctia none = (invalid_operation, none)
copy_ctia (some p) = (ok, some p)

-- `battery_get_ctia_parameters`, by what `get_battery_ctia_params` returns: the result, and what is written.
unfoldable pub battery_get_ctia_parameters :
    ℕ → ℕ → Option BatteryCtia → BatteryLibrary → NyxError × Option BatteryCtia
battery_get_ctia_parameters handle param ctia l =
    if not (handle == l.nyx_dev)
    then (invalid_handle, none)
    else if param == 0
    then (invalid_value, none)
    else copy_ctia ctia

-- What `battery_read_init` leaves: its result, `none` for a return without a value, the state it has read, and
-- whether the events are watched.
pub record Started : Type 0 where
  pub result : Option NyxError
  pub state : Option BatteryStatus
  pub watches : Bool

unfoldable pub start_monitor : BatteryStatus → Bool → ℤ → ℤ → Started
start_monitor s monitor filter enable =
    if not monitor
    then record { result = some generic; state = some s; watches = false }
    else if ltb_ℤ filter (pos 0)
    then record { result = some generic; state = some s; watches = false }
    else if ltb_ℤ enable (pos 0)
    then record { result = some generic; state = some s; watches = false }
    else record { result = some ok; state = some s; watches = true }

-- `battery_read_init` of battery/device/battery.c, by the success of `udev_new`, what `battery_read_status` reads,
-- or `none` for a crash, whether there is a monitor, and the results of its filter and its start.
unfoldable pub battery_read_init : Bool → Option BatteryStatus → Bool → ℤ → ℤ → Option Started
battery_read_init udev read monitor filter enable =
    let started : Option Started = elim read [
      | none ↦ none
      | some s ↦ some (start_monitor s monitor filter enable)
    ] in
    if not udev then some (record { result = none; state = none; watches = false }) else started
