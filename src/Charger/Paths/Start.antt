-- ===== src/Charger/Paths/Start.antt =====
-- charger.c with utils.c: what the module knows after its start.
use Prim.Native.String.{String}
use nyx_modules.Base.{
  Text, ℤ, pos, ◌==ℤ◌, Bool, true, false, if◌then◌else◌, List, [], none, some, ◌≡◌, refl, ap, ◌∙◌,
}
use nyx_modules.Nyx.{ok}
use nyx_modules.Utils.PowerSupply.{FileSystem}
use nyx_modules.Utils.Paths.{supply_file, CanFind}
use nyx_modules.Charger.Device.{
  Charger, OnlineValues, BatteryFiles, charger_read_status, present_value, charger_init,
  charger_init_events, battery_read_status,
}
use nyx_modules.Charger.Events.{no_new_event}
use nyx_modules.Charger.Paths.{
  no_paths, usb_type, mains_type, touch_type, wireless_type, battery_type, online_name,
  present_name, detect_charger_sysfs_paths, online_values, battery_files, start_charger,
}
use nyx_modules.Charger.Paths.Supplies.{
  status_of, is_online, status_lem, has_battery, has_battery_lem, battery_path_lem,
}

init_lem :
    (v : OnlineValues) (f : BatteryFiles)
    → (c : Charger) × (charger_init true true true true v f ≡ (ok, some c))
      × (c.status ≡ charger_read_status v)
      × (c.battery_present ≡ present_value f.present)
unfolding charger_init charger_init_events battery_read_status
init_lem v f = (
  charger_init_events (
      battery_read_status f (record {
        current_event = no_new_event;
        status = charger_read_status v;
        battery_present = false;
        battery_status = "";
      })),
  refl,
  refl,
  refl,
)

module _ (fs : FileSystem) (exists : Text → Bool) (read_value : Text → ℤ)
    (as_string : Text → String) where
  -- The start of the module, when udev works, the directories of power supplies can be opened, the
  -- paths fit into their arrays, the uninitialised arrays of the searches do not happen to hold the
  -- wanted types, an empty path is no file and does not read 1, and the files do not change meanwhile.
  -- It succeeds, and then the status is that of the system: the computer is connected and gives power
  -- if the first USB supply is online; the wall is and does if that is not and the first mains supply
  -- is; it charges if the first supply of one of the four types is online; and the battery is present
  -- if the first battery has a file `present` that reads 1.
  pub start_lem :
      (names : List Text) (buffer : Text → Text) (status : Text)
      → (read_value [] ==ℤ pos 1) ≡ false
      → exists [] ≡ false
      → CanFind fs names online_name usb_type (buffer usb_type)
      → CanFind fs names online_name mains_type (buffer mains_type)
      → CanFind fs names online_name touch_type (buffer touch_type)
      → CanFind fs names online_name wireless_type (buffer wireless_type)
      → CanFind fs names present_name battery_type (buffer battery_type)
      → (c : Charger) × (start_charger fs buffer exists read_value as_string status true true true
            true no_paths
          ≡ (ok, some c))
        × (c.status
            ≡ status_of
                (is_online fs read_value usb_type names)
                (is_online fs read_value mains_type names)
                (is_online fs read_value touch_type names)
                (is_online fs read_value wireless_type names))
        × (c.battery_present
            ≡ has_battery exists read_value (supply_file fs battery_type present_name names))
  unfolding start_charger battery_files
  start_lem names buffer status empty none_there u m t w b =
      let found = detect_charger_sysfs_paths fs buffer no_paths in
      let test =
        λ (path : Text). present_value (if exists path then some (read_value path) else none) in
      let (c, run, read, present) =
        init_lem (online_values read_value found)
          (battery_files fs exists read_value as_string status found) in
      (
        c,
        run,
        read ∙ status_lem fs read_value names buffer empty u m t w,
        present
            ∙ ap test (battery_path_lem fs names buffer b)
            ∙ has_battery_lem exists read_value (supply_file fs battery_type present_name names)
                none_there,
      )
