-- ===== src/Charger/Paths.antt =====
-- charger/device/charger.c: the paths of the files that the status is read from.
pub mod Supplies
pub mod Start
mod Examples
use Prim.Native.String.{String}
use nyx_modules.Base.{Text, ℤ, negsuc, ◌==ℤ◌, Bool, if◌then◌else◌, [], ◌∷◌, Option, none, some}
use nyx_modules.Nyx.{NyxError}
use nyx_modules.Utils.Files.{file_get_string}
use nyx_modules.Utils.PowerSupply.{FileSystem, find_power_supply_sysfs_path}
use nyx_modules.Utils.Paths.{set_path}
use nyx_modules.Charger.Device.{OnlineValues, BatteryFiles, Charger, charger_init}

-- The arrays of the module.
pub record ChargerPaths : Type 0 where
  pub batt_present : Text
  pub batt_status : Text
  pub usb_online : Text
  pub ac_online : Text
  pub touch_online : Text
  pub wireless_online : Text

abbrev pub no_paths : ChargerPaths
no_paths = record {
  batt_present = [];
  batt_status = [];
  usb_online = [];
  ac_online = [];
  touch_online = [];
  wireless_online = [];
}

-- "Battery", "USB", "Mains", "Touch" and "Wireless"
abbrev pub battery_type : Text
battery_type = 66 ∷ 97 ∷ 116 ∷ 116 ∷ 101 ∷ 114 ∷ 121 ∷ []

abbrev pub usb_type : Text
usb_type = 85 ∷ 83 ∷ 66 ∷ []

abbrev pub mains_type : Text
mains_type = 77 ∷ 97 ∷ 105 ∷ 110 ∷ 115 ∷ []

abbrev pub touch_type : Text
touch_type = 84 ∷ 111 ∷ 117 ∷ 99 ∷ 104 ∷ []

abbrev pub wireless_type : Text
wireless_type = 87 ∷ 105 ∷ 114 ∷ 101 ∷ 108 ∷ 101 ∷ 115 ∷ 115 ∷ []

-- "online", "present" and "status"
abbrev pub online_name : Text
online_name = 111 ∷ 110 ∷ 108 ∷ 105 ∷ 110 ∷ 101 ∷ []

abbrev pub present_name : Text
present_name = 112 ∷ 114 ∷ 101 ∷ 115 ∷ 101 ∷ 110 ∷ 116 ∷ []

abbrev pub status_name : Text
status_name = 115 ∷ 116 ∷ 97 ∷ 116 ∷ 117 ∷ 115 ∷ []

-- `_detect_charger_sysfs_paths`, with what the array of each search holds before it is written.
unfoldable pub detect_charger_sysfs_paths : FileSystem → (Text → Text) → ChargerPaths → ChargerPaths
detect_charger_sysfs_paths fs buffer p =
    let find =
      λ (device_type : Text). find_power_supply_sysfs_path fs device_type (buffer device_type) in
    record {
      usb_online = set_path p.usb_online (find usb_type) online_name;
      ac_online = set_path p.ac_online (find mains_type) online_name;
      touch_online = set_path p.touch_online (find touch_type) online_name;
      wireless_online = set_path p.wireless_online (find wireless_type) online_name;
      batt_present = set_path p.batt_present (find battery_type) present_name;
      batt_status = set_path p.batt_status (find battery_type) status_name;
    }

-- What `_charger_read_status` reads of files that do not change meanwhile, with `nyx_utils_read_value`.
unfoldable pub online_values : (Text → ℤ) → ChargerPaths → OnlineValues
online_values read_value p = record {
  usb = read_value p.usb_online;
  ac = read_value p.ac_online;
  usb_again = read_value p.usb_online;
  ac_again = read_value p.ac_online;
  touch = read_value p.touch_online;
  wireless = read_value p.wireless_online;
}

-- What `_battery_read_status` reads, with the test for a file and the status as a text of the other type.
unfoldable pub read_file : (Text → String) → Text × ℤ → Option String
read_file as_string r = if r.1 ==ℤ negsuc 0 then none else some (as_string r.0)

unfoldable pub battery_files :
    FileSystem → (Text → Bool) → (Text → ℤ) → (Text → String) → Text → ChargerPaths → BatteryFiles
unfolding read_file
battery_files fs exists read_value as_string buffer p = record {
  present = if exists p.batt_present then some (read_value p.batt_present) else none;
  status =
      if exists p.batt_status
      then read_file as_string (file_get_string fs.strip (fs.contents p.batt_status) 64 buffer)
      else none;
}

-- `_charger_init` in a system, by the results of the udev calls: the paths are detected, and the status and the
-- battery are read from them.
unfoldable pub start_charger :
    FileSystem
    → (Text → Text)
    → (Text → Bool)
    → (Text → ℤ)
    → (Text → String)
    → Text
    → Bool
    → Bool
    → Bool
    → Bool
    → ChargerPaths
    → NyxError × Option Charger
start_charger fs buffer exists read_value as_string status udev mon filter receiving p =
    let found = detect_charger_sysfs_paths fs buffer p in
    charger_init udev mon filter receiving (online_values read_value found)
      (battery_files fs exists read_value as_string status found)
