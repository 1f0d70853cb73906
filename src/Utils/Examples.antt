-- ===== src/Utils/Examples.antt =====
-- A directory with a hidden entry, a charger and a battery, and the theorem at it.
use mathlib.Core.Option
use nyx_modules.Base.{Text, text_eq, true, false, if◌then◌else◌, [], ◌∷◌, ◌++◌, some, ◌≡◌, refl}
use nyx_modules.Utils.Files.{copy_text}
use nyx_modules.Utils.PowerSupply.{
  FileSystem, base_dir, type_name, is_hidden, find_power_supply_sysfs_path,
}
use nyx_modules.Utils.FirstMatch.{
  first_of, has_type, holds_type, has_match, is_match, CanOpen, find_lem,
}

abbrev hidden : Text
hidden = 46 ∷ []

abbrev charger : Text
charger = 97 ∷ []

abbrev battery : Text
battery = 98 ∷ []

-- Paths are put together without a separator here.
abbrev supplies : FileSystem
supplies = record {
  names = λ path.
      if text_eq path base_dir
      then some (hidden ∷ charger ∷ battery ∷ [])
      else some (type_name ∷ []);
  is_directory = λ path. true;
  contents = λ path.
      if text_eq path (base_dir ++ (battery ++ type_name)) then some (66 ∷ []) else some (77 ∷ []);
  build_filename = λ a b. a ++ b;
  strip = λ s. s;
}

can_open :
    (name : Text) → text_eq (base_dir ++ name) base_dir ≡ false → CanOpen supplies (66 ∷ []) name
unfolding CanOpen
can_open name h shown directory = (type_name ∷ [], rw h refl)

find_lem_example :
    find_power_supply_sysfs_path supplies (66 ∷ []) []
    ≡ Option.map
        (λ (n : Text). base_dir ++ n)
        (first_of (is_match supplies (66 ∷ [])) (hidden ∷ charger ∷ battery ∷ []))
find_lem_example =
    find_lem supplies (66 ∷ []) (hidden ∷ charger ∷ battery ∷ []) [] refl refl
      (can_open hidden refl, (can_open charger refl, (can_open battery refl, tt)))

first_is_battery :
    first_of (is_match supplies (66 ∷ [])) (hidden ∷ charger ∷ battery ∷ []) ≡ some battery
unfolding first_of is_match is_hidden has_match has_type holds_type copy_text
first_is_battery = refl
