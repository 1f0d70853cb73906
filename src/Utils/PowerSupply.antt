-- ===== src/Utils/PowerSupply.antt =====
-- utils.c: the search for the directory of a power supply below /sys/class/power_supply/.
use nyx_modules.Base.{
  Text, text_eq, Bool, true, false, ◌==◌, if◌then◌else◌, List, [], ◌∷◌, Option, none, some,
}
use nyx_modules.Utils.Files.{file_get_string}

-- The file system and GLib: the names of a directory in the order in which they are read, or `none` if it cannot be
-- opened, the test for a directory, the contents of a file, `g_build_filename` and `g_strstrip`.
pub record FileSystem : Type 0 where
  pub names : Text → Option (List Text)
  pub is_directory : Text → Bool
  pub contents : Text → Option Text
  pub build_filename : Text → Text → Text
  pub strip : Text → Text

-- "/sys/class/power_supply/" and "type"
abbrev pub base_dir : Text
base_dir =
    47 ∷ 115 ∷ 121 ∷ 115 ∷ 47 ∷ 99 ∷ 108 ∷ 97 ∷ 115 ∷ 115 ∷ 47 ∷ 112 ∷ 111 ∷ 119 ∷ 101 ∷ 114 ∷ 95
    ∷ 115 ∷ 117 ∷ 112 ∷ 112 ∷ 108 ∷ 121 ∷ 47 ∷ []

abbrev pub type_name : Text
type_name = 116 ∷ 121 ∷ 112 ∷ 101 ∷ []

-- `'.' == sub_dir_name[0]`
unfoldable pub is_hidden : Text → Bool
is_hidden [] = false
is_hidden (c ∷ s) = 46 == c

module _ (fs : FileSystem) (device_type : Text) where
  -- The loop over the files of a directory, with `file_contents`: whether it returns, and the buffer.
  unfoldable pub search_files : Text → List Text → Text → Bool × Text
  search_files dir_path [] buffer = (false, buffer)
  search_files dir_path (file ∷ files) buffer =
      let read =
        (file_get_string fs.strip (fs.contents (fs.build_filename dir_path file)) 64 buffer).0 in
      let rest_read = search_files dir_path files read in
      let rest = search_files dir_path files buffer in
      if text_eq file type_name
      then (if text_eq read device_type then (true, read) else rest_read)
      else rest

  -- The loop over the directories: `none` is NULL.
  unfoldable pub search_directories : List Text → Text → Option Text
  search_directories [] buffer = none
  search_directories (name ∷ rest_of) buffer =
      let dir_path = fs.build_filename base_dir name in
      let rest = search_directories rest_of buffer in
      let inside : Option Text = elim (fs.names dir_path) [
        | none ↦ none
        | some files ↦
            let found = search_files dir_path files buffer in
            let after = search_directories rest_of found.1 in
            if found.0 then some dir_path else after
      ] in
      if is_hidden name then rest else if fs.is_directory dir_path then inside else rest

  -- `find_power_supply_sysfs_path`, with what `file_contents` holds before it is written.
  unfoldable pub find_power_supply_sysfs_path : Text → Option Text
  find_power_supply_sysfs_path buffer = elim (fs.names base_dir) [
    | none ↦ none
    | some names ↦ search_directories names buffer
  ]
