-- ===== src/Battery/Paths/Examples.antt =====
-- A system with a battery, and the theorem at it.
use Prim.Native.String.{String}
use nyx_modules.Base.{
  Text, text_eq, ℤ, Bool, pos, negsuc, true, [], ◌∷◌, ◌++◌, if◌then◌else◌, ◌≡◌, refl, arith,
}
use nyx_modules.Utils.PowerSupply.{base_dir, is_hidden}
use nyx_modules.Utils.Files.{copy_text}
use nyx_modules.Utils.FirstMatch.{first_of, has_type, holds_type, has_match, is_match}
use nyx_modules.Utils.Paths.{supply_file}
use nyx_modules.Utils.Sample.{battery, names, system, can_find}
use nyx_modules.Charger.Device.{present_value}
use nyx_modules.Charger.Paths
use nyx_modules.Charger.Paths.{
  battery_type, present_name, detect_charger_sysfs_paths, battery_files,
}
use nyx_modules.Charger.Paths.Supplies.{has_battery}
use nyx_modules.Battery.Status.{battery_is_present}
use nyx_modules.Battery.Paths.{no_paths, detect_battery_sysfs_paths, sysfs_files}
use nyx_modules.Battery.Paths.Agreement.{present_lem}

abbrev exists : Text → Bool
exists path = text_eq path (base_dir ++ (battery ++ (47 ∷ present_name)))

abbrev value : Text → ℤ
value path = if exists path then pos 1 else negsuc 0

abbrev as_string : Text → String
as_string s = ""

present_lem_example :
    let found = has_battery exists value (supply_file system battery_type present_name names) in
    let paths = (detect_battery_sysfs_paths system [] no_paths).1 in
    let charger = detect_charger_sysfs_paths system (λ t. []) Paths.no_paths in
    (battery_is_present (sysfs_files exists value paths) ≡ found)
    × (present_value (battery_files system exists value as_string [] charger).present ≡ found)
present_lem_example =
    present_lem system exists value as_string names [] (λ t. []) [] refl
      (can_find present_name battery_type refl (omega arith))
      (can_find present_name battery_type refl (omega arith))

found_lem : has_battery exists value (supply_file system battery_type present_name names) ≡ true
unfolding has_battery present_value supply_file first_of is_match is_hidden has_match has_type
    holds_type copy_text
found_lem = refl
