-- ===== src/Charger/Paths/Supplies.antt =====
-- charger.c with utils.c: the status of the charger is that of the power supplies of the system.
use nyx_modules.Base.{
  Text, ℤ, pos, ◌==ℤ◌, Bool, false, not, ◌&&◌, ◌||◌, if◌then◌else◌, List, [], Option, none, some,
  ◌≡◌, refl, ap, ◌∙◌, arith,
}
use nyx_modules.Utils.PowerSupply.{FileSystem, find_power_supply_sysfs_path}
use nyx_modules.Utils.Paths.{set_path, path_of, supply_file, CanFind, set_path_lem}
use nyx_modules.Charger.Device.{OnlineValues, ChargerStatus, charger_read_status, present_value}
use nyx_modules.Charger.Paths.{
  no_paths, usb_type, mains_type, touch_type, wireless_type, online_name, battery_type,
  present_name, detect_charger_sysfs_paths, online_values,
}

-- The status as a function of which supplies are online.
unfoldable pub status_of : Bool → Bool → Bool → Bool → ChargerStatus
status_of usb mains touch wireless = record {
  pc_connected = usb;
  usb_powered = usb;
  wall_connected = not usb && mains;
  direct_powered = not usb && mains;
  is_charging = usb || mains || touch || wireless;
}

status_cases :
    (v : OnlineValues)
    → v.usb_again ≡ v.usb
    → v.ac_again ≡ v.ac
    → charger_read_status v
      ≡ status_of (v.usb ==ℤ pos 1) (v.ac ==ℤ pos 1) (v.touch ==ℤ pos 1) (v.wireless ==ℤ pos 1)
unfolding charger_read_status status_of
status_cases v u a = rw (u, a) (ground arith)

module _ (fs : FileSystem) (read_value : Text → ℤ) where
  -- The file of the supply reads 1.
  unfoldable pub reads_one : Option Text → Bool
  reads_one none = false
  reads_one (some path) = read_value path ==ℤ pos 1

  -- The first supply of the type is online.
  unfoldable pub is_online : Text → List Text → Bool
  is_online device_type names = reads_one (supply_file fs device_type online_name names)

  reads_one_lem :
      (o : Option Text)
      → (read_value [] ==ℤ pos 1) ≡ false
      → (read_value (path_of o) ==ℤ pos 1) ≡ reads_one o
  unfolding path_of reads_one
  reads_one_lem none h = h
  reads_one_lem (some path) h = refl

  online_lem :
      (names : List Text) (device_type buffer : Text)
      → (read_value [] ==ℤ pos 1) ≡ false
      → CanFind fs names online_name device_type buffer
      → (read_value (set_path [] (find_power_supply_sysfs_path fs device_type buffer) online_name)
          ==ℤ pos 1)
        ≡ is_online device_type names
  unfolding is_online
  online_lem names device_type buffer h c =
      ap (λ (path : Text). read_value path ==ℤ pos 1)
        (set_path_lem fs names online_name device_type buffer c)
      ∙ reads_one_lem (supply_file fs device_type online_name names) h

  -- The status is that of the supplies.
  pub status_lem :
      (names : List Text) (buffer : Text → Text)
      → (read_value [] ==ℤ pos 1) ≡ false
      → CanFind fs names online_name usb_type (buffer usb_type)
      → CanFind fs names online_name mains_type (buffer mains_type)
      → CanFind fs names online_name touch_type (buffer touch_type)
      → CanFind fs names online_name wireless_type (buffer wireless_type)
      → charger_read_status
          (online_values read_value (detect_charger_sysfs_paths fs buffer no_paths))
        ≡ status_of
            (is_online usb_type names)
            (is_online mains_type names)
            (is_online touch_type names)
            (is_online wireless_type names)
  unfolding online_values detect_charger_sysfs_paths
  status_lem names buffer empty u m t w =
      let p = detect_charger_sysfs_paths fs buffer no_paths in
      status_cases (online_values read_value p) refl refl
      ∙ rw
          (
            online_lem names usb_type (buffer usb_type) empty u,
            online_lem names mains_type (buffer mains_type) empty m,
            online_lem names touch_type (buffer touch_type) empty t,
            online_lem names wireless_type (buffer wireless_type) empty w,
          )
          refl

module _ (exists : Text → Bool) (read_value : Text → ℤ) where
  -- The file `present` of the battery exists and reads 1.
  unfoldable pub has_battery : Option Text → Bool
  has_battery none = false
  has_battery (some path) = present_value (if exists path then some (read_value path) else none)

  pub has_battery_lem :
      (o : Option Text)
      → exists [] ≡ false
      → present_value (if exists (path_of o) then some (read_value (path_of o)) else none)
        ≡ has_battery o
  unfolding path_of has_battery present_value
  has_battery_lem none h = rw h refl
  has_battery_lem (some path) h = refl

pub battery_path_lem :
    (fs : FileSystem) (names : List Text) (buffer : Text → Text)
    → CanFind fs names present_name battery_type (buffer battery_type)
    → (detect_charger_sysfs_paths fs buffer no_paths).batt_present
      ≡ path_of (supply_file fs battery_type present_name names)
unfolding detect_charger_sysfs_paths
battery_path_lem fs names buffer c =
    set_path_lem fs names present_name battery_type (buffer battery_type) c
