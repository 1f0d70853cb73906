-- ===== src/Battery/Unsupported.antt =====
-- battery/device/battery.c and battery/emulator/fake_battery.c: what the two variants answer without looking at the
-- battery. A `double` is in thousandths.
use nyx_modules.Base.{ℤ, pos, negsuc, Bool, true, Option, some}
use nyx_modules.Battery.Library.{BatteryLibrary, BatteryCtia}

unfoldable pub battery_avg_current : ℤ
battery_avg_current = negsuc 0

unfoldable pub battery_age : ℤ
battery_age = negsuc 999

unfoldable pub battery_is_authenticated : Bool
battery_is_authenticated = true

unfoldable pub battery_set_wakeup_percent : ℤ → BatteryLibrary → BatteryLibrary
battery_set_wakeup_percent percentage l = l

-- The same of the emulator, with its `get_battery_ctia_params`.
unfoldable pub fake_ctia_params : Option BatteryCtia
fake_ctia_params = some (record {
  charge_min_temp_c = pos 0;
  charge_max_temp_c = pos 57;
  battery_crit_max_temp = pos 60;
  skip_battery_authentication = true;
})

unfoldable pub fake_is_authenticated : Bool
fake_is_authenticated = true

unfoldable pub fake_authenticate : Bool
fake_authenticate = true

unfoldable pub fake_set_wakeup_percent : ℤ → BatteryLibrary → BatteryLibrary
fake_set_wakeup_percent percentage l = l
