-- ===== src/Battery/Paths.antt =====
-- battery/device/battery.c: the paths of the files that the values are read from.
pub mod Agreement
mod Examples
use nyx_modules.Base.{Text, ℤ, Bool, if◌then◌else◌, [], ◌∷◌, Option, none, some}
use nyx_modules.Utils.PowerSupply.{FileSystem, find_power_supply_sysfs_path}
use nyx_modules.Utils.Paths.{set_path}
use nyx_modules.Charger.Paths.{battery_type, present_name}
use nyx_modules.Battery.Status.{SysfsFiles}

-- The arrays of the module, but for one that is never written or read.
pub record BatteryPaths : Type 0 where
  pub capacity : Text
  pub energy_now : Text
  pub energy_full : Text
  pub charge_now : Text
  pub charge_full : Text
  pub charge_full_design : Text
  pub temperature : Text
  pub voltage : Text
  pub current : Text
  pub present : Text

abbrev pub no_paths : BatteryPaths
no_paths = record {
  capacity = [];
  energy_now = [];
  energy_full = [];
  charge_now = [];
  charge_full = [];
  charge_full_design = [];
  temperature = [];
  voltage = [];
  current = [];
  present = [];
}

-- "capacity"
abbrev pub capacity_name : Text
capacity_name = 99 ∷ 97 ∷ 112 ∷ 97 ∷ 99 ∷ 105 ∷ 116 ∷ 121 ∷ []

-- "energy_now"
abbrev pub energy_now_name : Text
energy_now_name = 101 ∷ 110 ∷ 101 ∷ 114 ∷ 103 ∷ 121 ∷ 95 ∷ 110 ∷ 111 ∷ 119 ∷ []

-- "energy_full"
abbrev pub energy_full_name : Text
energy_full_name = 101 ∷ 110 ∷ 101 ∷ 114 ∷ 103 ∷ 121 ∷ 95 ∷ 102 ∷ 117 ∷ 108 ∷ 108 ∷ []

-- "charge_now"
abbrev pub charge_now_name : Text
charge_now_name = 99 ∷ 104 ∷ 97 ∷ 114 ∷ 103 ∷ 101 ∷ 95 ∷ 110 ∷ 111 ∷ 119 ∷ []

-- "charge_full"
abbrev pub charge_full_name : Text
charge_full_name = 99 ∷ 104 ∷ 97 ∷ 114 ∷ 103 ∷ 101 ∷ 95 ∷ 102 ∷ 117 ∷ 108 ∷ 108 ∷ []

-- "charge_full_design"
abbrev pub charge_full_design_name : Text
charge_full_design_name =
    99 ∷ 104 ∷ 97 ∷ 114 ∷ 103 ∷ 101 ∷ 95 ∷ 102 ∷ 117 ∷ 108 ∷ 108 ∷ 95 ∷ 100 ∷ 101 ∷ 115 ∷ 105 ∷ 103
    ∷ 110 ∷ []

-- "temp"
abbrev pub temperature_name : Text
temperature_name = 116 ∷ 101 ∷ 109 ∷ 112 ∷ []

-- "voltage_now"
abbrev pub voltage_name : Text
voltage_name = 118 ∷ 111 ∷ 108 ∷ 116 ∷ 97 ∷ 103 ∷ 101 ∷ 95 ∷ 110 ∷ 111 ∷ 119 ∷ []

-- "current_now"
abbrev pub current_name : Text
current_name = 99 ∷ 117 ∷ 114 ∷ 114 ∷ 101 ∷ 110 ∷ 116 ∷ 95 ∷ 110 ∷ 111 ∷ 119 ∷ []

-- `_detect_battery_sysfs_paths`, with what the array of the search holds before it is written:
-- `battery_sysfs_path` and the arrays.
unfoldable pub detect_battery_sysfs_paths :
    FileSystem → Text → BatteryPaths → Option Text × BatteryPaths
detect_battery_sysfs_paths fs buffer p =
    let dir = find_power_supply_sysfs_path fs battery_type buffer in
    (
      dir,
      record {
        capacity = set_path p.capacity dir capacity_name;
        energy_now = set_path p.energy_now dir energy_now_name;
        energy_full = set_path p.energy_full dir energy_full_name;
        charge_now = set_path p.charge_now dir charge_now_name;
        charge_full = set_path p.charge_full dir charge_full_name;
        charge_full_design = set_path p.charge_full_design dir charge_full_design_name;
        temperature = set_path p.temperature dir temperature_name;
        voltage = set_path p.voltage dir voltage_name;
        current = set_path p.current dir current_name;
        present = set_path p.present dir present_name;
      },
    )

module _ (exists : Text → Bool) (read_value : Text → ℤ) where
  unfoldable pub file_value : Text → Option ℤ
  file_value path = if exists path then some (read_value path) else none

  -- What is read of files that do not change meanwhile, with the test for a file and `nyx_utils_read_value`.
  unfoldable pub sysfs_files : BatteryPaths → SysfsFiles
  unfolding file_value
  sysfs_files p = record {
    capacity = file_value p.capacity;
    energy_now = file_value p.energy_now;
    energy_full = file_value p.energy_full;
    charge_now = file_value p.charge_now;
    charge_full = file_value p.charge_full;
    charge_full_design = file_value p.charge_full_design;
    temperature = file_value p.temperature;
    voltage = file_value p.voltage;
    current = file_value p.current;
    present = file_value p.present;
    current_again = file_value p.current;
  }
