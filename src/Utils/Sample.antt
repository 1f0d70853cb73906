-- ===== src/Utils/Sample.antt =====
-- A system with a charger and a battery, for the examples of the modules that look for them.
use nyx_modules.Base.{
  Text, text_eq, ◌<◌, true, false, List, [], ◌∷◌, ◌++◌, length, if◌then◌else◌, some, ◌≡◌, refl,
  arith,
}
use nyx_modules.Utils.PowerSupply.{FileSystem, base_dir, type_name}
use nyx_modules.Utils.FirstMatch.{CanOpen}
use nyx_modules.Utils.Paths.{CanFind}

-- The names of the two directories, "a" and "b"
abbrev pub charger : Text
charger = 97 ∷ []

abbrev pub battery : Text
battery = 98 ∷ []

abbrev pub names : List Text
names = charger ∷ battery ∷ []

-- "Mains" and "Battery" as the types; paths are put together without a separator here.
abbrev pub system : FileSystem
system = record {
  names = λ path. if text_eq path base_dir then some names else some (type_name ∷ []);
  is_directory = λ path. true;
  contents = λ path.
      if text_eq path (base_dir ++ (battery ++ type_name))
      then some (66 ∷ 97 ∷ 116 ∷ 116 ∷ 101 ∷ 114 ∷ 121 ∷ [])
      else some (77 ∷ 97 ∷ 105 ∷ 110 ∷ 115 ∷ []);
  build_filename = λ a b. a ++ b;
  strip = λ s. s;
}

can_open :
    (device_type name : Text)
    → text_eq (base_dir ++ name) base_dir ≡ false
    → CanOpen system device_type name
unfolding CanOpen
can_open device_type name h shown directory = (type_name ∷ [], rw h refl)

pub can_find :
    (name device_type : Text)
    → text_eq [] device_type ≡ false
    → length name < 100
    → CanFind system names name device_type []
can_find name device_type h short = record {
  listed = refl;
  unwritten = h;
  can_open = (can_open device_type charger refl, (can_open device_type battery refl, tt));
  fits = (omega arith, (omega arith, tt));
}
