-- ===== src/Battery/Paths/Agreement.antt =====
-- battery.c, charger.c and utils.c: both modules read whether the battery is present, and of the same file.
use Prim.Native.String.{String}
use nyx_modules.Base.{
  Text, ℤ, pos, negsuc, Bool, false, if◌then◌else◌, List, [], Option, none, some, ◌≡◌, refl, ap,
  ◌∙◌, arith,
}
use nyx_modules.Utils.PowerSupply.{FileSystem}
use nyx_modules.Utils.Paths.{path_of, supply_file, CanFind, set_path_lem}
use nyx_modules.Charger.Device.{present_value}
use nyx_modules.Charger.Paths
use nyx_modules.Charger.Paths.{
  battery_type, present_name, detect_charger_sysfs_paths, battery_files,
}
use nyx_modules.Charger.Paths.Supplies.{has_battery, has_battery_lem, battery_path_lem}
use nyx_modules.Battery.Status.{is_one, readable, battery_is_present}
use nyx_modules.Battery.Paths.{BatteryPaths, no_paths, detect_battery_sysfs_paths, sysfs_files}

-- The two ways in which the modules test a value.
present_cases : (file : Option ℤ) → is_one (readable file) ≡ present_value file
unfolding is_one readable present_value
present_cases none = refl
present_cases (some (pos n)) = ground arith
present_cases (some (negsuc n)) = ground arith

module _ (fs : FileSystem) (exists : Text → Bool) (read_value : Text → ℤ)
    (as_string : Text → String) where
  path_lem :
      (names : List Text) (buffer : Text)
      → CanFind fs names present_name battery_type buffer
      → (detect_battery_sysfs_paths fs buffer no_paths).1.present
        ≡ path_of (supply_file fs battery_type present_name names)
  unfolding detect_battery_sysfs_paths
  path_lem names buffer c = set_path_lem fs names present_name battery_type buffer c

  battery_lem :
      (p : BatteryPaths)
      → battery_is_present (sysfs_files exists read_value p)
        ≡ present_value (if exists p.present then some (read_value p.present) else none)
  unfolding battery_is_present sysfs_files
  battery_lem p = present_cases (if exists p.present then some (read_value p.present) else none)

  -- After each module has detected its paths, when the directories of power supplies can be opened,
  -- the paths fit into their arrays, the uninitialised arrays of the searches do not happen to hold
  -- the wanted type, no file has the empty path and the files do not change meanwhile: the battery
  -- module and the charger module both say that the battery is present, exactly when the first
  -- battery of the system has a file `present` that reads 1.
  pub present_lem :
      (names : List Text) (buffer : Text) (buffers : Text → Text) (status_buffer : Text)
      → exists [] ≡ false
      → CanFind fs names present_name battery_type buffer
      → CanFind fs names present_name battery_type (buffers battery_type)
      → let found =
          has_battery exists read_value (supply_file fs battery_type present_name names) in
        let battery = (detect_battery_sysfs_paths fs buffer no_paths).1 in
        let charger = detect_charger_sysfs_paths fs buffers Paths.no_paths in
        (battery_is_present (sysfs_files exists read_value battery) ≡ found)
        × (present_value
              (battery_files fs exists read_value as_string status_buffer charger).present
            ≡ found)
  unfolding battery_files
  present_lem names buffer buffers status_buffer h c c' =
      let o = supply_file fs battery_type present_name names in
      let test =
        λ (path : Text). present_value (if exists path then some (read_value path) else none) in
      (
        battery_lem (detect_battery_sysfs_paths fs buffer no_paths).1
            ∙ ap test (path_lem names buffer c)
            ∙ has_battery_lem exists read_value o h,
        ap test (battery_path_lem fs names buffers c') ∙ has_battery_lem exists read_value o h,
      )
