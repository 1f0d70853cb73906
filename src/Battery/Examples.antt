-- ===== src/Battery/Examples.antt =====
-- A battery without a capacity file, and the theorems at it.
use nyx_modules.Base.{ℤ, pos, Bool, false, [], ◌∷◌, none, some, ◌≡◌, refl}
use nyx_modules.Battery.Status.{
  SysfsFiles, BatteryStatus, no_battery, readable, quotient, fallback, capacity_or, battery_percent,
  battery_is_present, is_one, present_status, with_percent, battery_read_status,
}
use nyx_modules.Battery.Watch.{IsReadable, watched, watch, client_knows}

abbrev files : SysfsFiles
files = record {
  present = some (pos 1);
  capacity = none;
  energy_now = some (pos 300);
  energy_full = some (pos 400);
  charge_now = none;
  charge_full = none;
  charge_full_design = none;
  temperature = some (pos 25);
  voltage = some (pos 3700);
  current = some (pos 100);
  current_again = some (pos 100);
}

abbrev full_files : SysfsFiles
full_files = record files { energy_now = some (pos 400) }

files-IsReadable : IsReadable files
unfolding battery_read_status with_percent battery_is_present is_one battery_percent capacity_or
    fallback quotient readable
files-IsReadable = (present_status files (pos 0), refl)

full_files-IsReadable : IsReadable full_files
unfolding battery_read_status with_percent battery_is_present is_one battery_percent capacity_or
    fallback quotient readable
full_files-IsReadable = (present_status full_files (pos 1), refl)

-- The battery is put in, and becomes full.
client_knows_example :
    (s' : BatteryStatus) × (seen' : Bool × ℤ) × (watch
        (files ∷ full_files ∷ [])
        no_battery
        (false, pos 0)
      ≡ some (s', seen'))
    × (seen' ≡ watched s')
client_knows_example =
    client_knows (files ∷ full_files ∷ []) no_battery (false, pos 0)
      (files-IsReadable, (full_files-IsReadable, tt)) refl
