-- ===== src/Charger/Paths/Examples.antt =====
-- A system with a charger that is online and a battery, and the theorem at it.
use Prim.Native.String.{String}
use nyx_modules.Base.{
  Text, text_eq, ℤ, pos, negsuc, Bool, ◌||◌, true, false, [], ◌∷◌, ◌++◌, some, if◌then◌else◌, ◌≡◌,
  refl, arith,
}
use nyx_modules.Nyx.{ok}
use nyx_modules.Utils.PowerSupply.{base_dir, is_hidden}
use nyx_modules.Utils.Files.{copy_text}
use nyx_modules.Utils.FirstMatch.{first_of, has_type, holds_type, has_match, is_match}
use nyx_modules.Utils.Paths.{supply_file}
use nyx_modules.Utils.Sample.{charger, battery, names, system, can_find}
use nyx_modules.Charger.Device.{Charger}
use nyx_modules.Charger.Paths.{
  no_paths, usb_type, mains_type, touch_type, wireless_type, battery_type, online_name,
  present_name, start_charger,
}
use nyx_modules.Charger.Paths.Supplies.{status_of, reads_one, is_online, has_battery}
use nyx_modules.Charger.Paths.Start.{start_lem}

-- "a/online" and "b/present"
abbrev exists : Text → Bool
exists path =
    text_eq path (base_dir ++ (charger ++ (47 ∷ online_name)))
    || text_eq path (base_dir ++ (battery ++ (47 ∷ present_name)))

abbrev value : Text → ℤ
value path = if exists path then pos 1 else negsuc 0

abbrev as_string : Text → String
as_string s = ""

start_lem_example :
    (c : Charger) × (start_charger system
        (λ t. [])
        exists
        value
        as_string
        []
        true
        true
        true
        true
        no_paths
      ≡ (ok, some c))
    × (c.status
        ≡ status_of
            (is_online system value usb_type names)
            (is_online system value mains_type names)
            (is_online system value touch_type names)
            (is_online system value wireless_type names))
    × (c.battery_present
        ≡ has_battery exists value (supply_file system battery_type present_name names))
start_lem_example =
    start_lem system exists value as_string names (λ t. []) [] refl refl
      (can_find online_name usb_type refl (omega arith))
      (can_find online_name mains_type refl (omega arith))
      (can_find online_name touch_type refl (omega arith))
      (can_find online_name wireless_type refl (omega arith))
      (can_find present_name battery_type refl (omega arith))

mains_online : is_online system value mains_type names ≡ true
unfolding is_online reads_one supply_file first_of is_match is_hidden has_match has_type holds_type
    copy_text
mains_online = refl

usb_offline : is_online system value usb_type names ≡ false
unfolding is_online reads_one supply_file first_of is_match is_hidden has_match has_type holds_type
    copy_text
usb_offline = refl
