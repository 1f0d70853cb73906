-- ===== src/Battery/Status.antt =====
-- battery/device/battery.c and batterylib.c: the status of the battery from sysfs, and its changes.
use nyx_modules.Base.{
  ℕ, ◌/◌, ℤ, pos, negsuc, pos_part, ltb_ℤ, ◌==ℤ◌, Bool, true, false, not, ◌&&◌, ◌||◌, ◌==◌,
  if◌then◌else◌, Option, none, some, is_some,
}
use nyx_modules.Nyx.{NyxError, ok, invalid_handle, invalid_value}

-- The files below `battery_sysfs_path`: `none` is a file that does not exist, and otherwise there is what
-- `nyx_utils_read_value` returns. `current_now` is read twice.
pub record SysfsFiles : Type 0 where
  pub present : Option ℤ
  pub capacity : Option ℤ
  pub energy_now : Option ℤ
  pub energy_full : Option ℤ
  pub charge_now : Option ℤ
  pub charge_full : Option ℤ
  pub charge_full_design : Option ℤ
  pub temperature : Option ℤ
  pub voltage : Option ℤ
  pub current : Option ℤ
  pub current_again : Option ℤ

-- `(value = nyx_utils_read_value(path)) < 0` is false.
unfoldable pub readable : Option ℤ → Option ℤ
readable none = none
readable (some n) = if ltb_ℤ n (pos 0) then none else some n

-- `battery_temperature`, `battery_voltage` and `battery_current`, by their file.
unfoldable pub value_of : Option ℤ → ℤ
value_of none = negsuc 0
value_of (some n) = n

unfoldable pub battery_value : Option ℤ → ℤ
unfolding readable value_of
battery_value file = value_of (readable file)

-- `capacity = (now / full)` for numbers that are not negative; `none` is a division by zero.
unfoldable pub quotient : Option ℤ → Option ℤ → Option ℤ
quotient none full = some (negsuc 0)
quotient (some now) none = some (negsuc 0)
quotient (some now) (some full) =
    if pos_part full == 0 then none else some (pos (pos_part now / pos_part full))

-- The two fallbacks of `battery_percent`.
unfoldable pub fallback : SysfsFiles → Option ℤ
unfolding quotient readable
fallback f =
    if is_some f.energy_now && is_some f.energy_full
    then quotient (readable f.energy_now) (readable f.energy_full)
    else if is_some f.charge_full && is_some f.charge_now
    then quotient (readable f.charge_now) (readable f.charge_full)
    else some (negsuc 0)

unfoldable pub capacity_or : Option ℤ → Option ℤ → Option ℤ
capacity_or none other = other
capacity_or (some n) other = some n

-- `battery_percent`
unfoldable pub battery_percent : SysfsFiles → Option ℤ
unfolding fallback capacity_or
battery_percent f = capacity_or (readable f.capacity) (fallback f)

-- A `double` in thousandths: `battery_full40`, whose error is -1, that is -1000 thousandths.
unfoldable pub thousandths : Option ℤ → ℤ
thousandths none = negsuc 999
thousandths (some n) = n

unfoldable pub battery_full40 : SysfsFiles → ℤ
unfolding thousandths
battery_full40 f =
    thousandths (capacity_or (readable f.charge_full) (readable f.charge_full_design))

unfoldable pub battery_coulomb : SysfsFiles → ℤ
unfolding thousandths
battery_coulomb f = thousandths (readable f.charge_now)

unfoldable pub is_one : Option ℤ → Bool
is_one none = false
is_one (some n) = n ==ℤ pos 1

unfoldable pub battery_is_present : SysfsFiles → Bool
unfolding is_one
battery_is_present f = is_one (readable f.present)

-- `nyx_battery_status_t`, with the capacities and the age in thousandths.
pub record BatteryStatus : Type 0 where
  pub present : Bool
  pub percentage : ℤ
  pub temperature : ℤ
  pub current : ℤ
  pub voltage : ℤ
  pub avg_current : ℤ
  pub capacity : ℤ
  pub capacity_raw : ℤ
  pub capacity_full40 : ℤ
  pub age : ℤ
  pub charging : Bool

abbrev pub no_battery : BatteryStatus
no_battery = record {
  present = false;
  percentage = pos 0;
  temperature = pos 0;
  current = pos 0;
  voltage = pos 0;
  avg_current = pos 0;
  capacity = pos 0;
  capacity_raw = pos 0;
  capacity_full40 = pos 0;
  age = pos 0;
  charging = false;
}

-- The branch of `battery_read_status` for a battery that is present, by its percentage.
unfoldable pub present_status : SysfsFiles → ℤ → BatteryStatus
unfolding battery_value battery_full40 battery_coulomb
present_status f percentage = record {
  present = true;
  percentage = percentage;
  temperature = battery_value f.temperature;
  current = battery_value f.current;
  voltage = battery_value f.voltage;
  avg_current = battery_value f.current_again;
  capacity = battery_coulomb f;
  capacity_raw = negsuc 999;
  capacity_full40 = battery_full40 f;
  age = negsuc 999;
  charging = ltb_ℤ (pos 0) (battery_value f.current_again);
}

unfoldable pub with_percent : SysfsFiles → Option ℤ → Option BatteryStatus
unfolding present_status
with_percent f none = none
with_percent f (some n) = some (present_status f n)

-- `battery_read_status` of batterylib.c; `none` is a division by zero.
unfoldable pub battery_read_status : SysfsFiles → Option BatteryStatus
unfolding battery_is_present with_percent battery_percent
battery_read_status f =
    if battery_is_present f then with_percent f (battery_percent f) else some no_battery

-- The test of `_handle_event`.
unfoldable pub has_changed : BatteryStatus → BatteryStatus → Bool
has_changed old new =
    (if new.present then not old.present else old.present)
    || not (new.percentage ==ℤ old.percentage)

-- What follows the reading, with whether a callback is set: the new state, and whether it was called. A
-- callback is called without a test: `none` is a call of NULL, or a division by zero.
unfoldable pub notify : Bool → BatteryStatus → Option BatteryStatus → Option (BatteryStatus × Bool)
unfolding has_changed
notify registered old none = none
notify registered old (some new) =
    if has_changed old new
    then (if registered then some (new, true) else none)
    else some (new, false)

-- `_handle_event`, for a condition with G_IO_IN and a device.
unfoldable pub handle_event : Bool → SysfsFiles → BatteryStatus → Option (BatteryStatus × Bool)
unfolding notify
handle_event registered f s = notify registered s (battery_read_status f)

-- `battery_query_battery_status`: the outer `none` is a crash, the inner a status that is not written.
unfoldable pub query_from : Option BatteryStatus → Option (NyxError × Option BatteryStatus)
query_from none = none
query_from (some s) = some (ok, some s)

unfoldable pub battery_query_battery_status :
    ℕ → ℕ → ℕ → SysfsFiles → Option (NyxError × Option BatteryStatus)
unfolding query_from
battery_query_battery_status nyx_dev handle status f =
    if not (handle == nyx_dev)
    then some (invalid_handle, none)
    else if status == 0
    then some (invalid_value, none)
    else query_from (battery_read_status f)

-- `battery_set_wakeup_percentage`; the function behind it does nothing.
unfoldable pub battery_set_wakeup_percentage : ℕ → ℕ → ℤ → NyxError
battery_set_wakeup_percentage nyx_dev handle percentage =
    if not (handle == nyx_dev)
    then invalid_handle
    else if ltb_ℤ percentage (pos 0) || ltb_ℤ (pos 100) percentage
    then invalid_value
    else ok
