-- ===== src/Utils/Paths.antt =====
-- Paths of files below the directory of a power supply, as charger.c and battery.c print them to their arrays.
use nyx_modules.Base.{
  Text, ◌-◌, ◌≤◌, ◌<◌, Bool, false, text_eq, All, List, [], ◌∷◌, ◌++◌, length, length-append, take,
  Option, none, some, ◌≡◌, refl, ap, ◌∙◌, ◌+◌, Bool-cases, inl, inr, suc, zero, ℕ, arith,
}
use mathlib.Core.Option
use nyx_modules.Utils.PowerSupply.{FileSystem, base_dir, find_power_supply_sysfs_path}
use nyx_modules.Utils.FirstMatch.{first_of, is_match, CanOpen, find_lem}

-- PATH_LEN
abbrev pub path_len : ℕ
path_len = 128

-- `snprintf (path, PATH_LEN, "%s/name", dir)`: what the array then holds.
unfoldable pub print_path : Text → Text → Text
print_path dir name = take (path_len - 1) (dir ++ (47 ∷ name))

-- The path is printed only if there is a directory.
unfoldable pub set_path : Text → Option Text → Text → Text
unfolding print_path
set_path before none name = before
set_path before (some dir) name = print_path dir name

take-ge_length : (n : ℕ) (s : Text) → length s ≤ n → take n s ≡ s
take-ge_length zero [] h = refl
take-ge_length zero (c ∷ s) h = absurd (omega arith)
take-ge_length (suc n) [] h = refl
take-ge_length (suc n) (c ∷ s) h = ap (λ (t : Text). c ∷ t) (take-ge_length n s (omega arith))

-- A path that fits is printed whole.
pub print_path_lem :
    (dir name : Text) → length dir + length name < 127 → print_path dir name ≡ dir ++ (47 ∷ name)
unfolding print_path
print_path_lem dir name h =
    take-ge_length 127 (dir ++ (47 ∷ name)) (omega (arith, length-append dir (47 ∷ name)))

-- An array of characters that holds no path is empty.
unfoldable pub path_of : Option Text → Text
path_of none = []
path_of (some path) = path

module _ (fs : FileSystem) where
  -- What a path leads to: the file with the name in the first directory of the type, and nothing if
  -- there is no such directory.
  unfoldable pub supply_file : Text → Text → List Text → Option Text
  supply_file device_type name names =
      Option.map (λ (n : Text). fs.build_filename base_dir n ++ (47 ∷ name))
        (first_of (is_match fs device_type) names)

  -- The directories can be opened, the array of the search does not hold the type before it is
  -- written, and the path of the file fits for all of them.
  pub record CanFind (names : List Text) (name device_type buffer : Text) : Type 0 where
    pub listed : fs.names base_dir ≡ some names
    pub unwritten : text_eq buffer device_type ≡ false
    pub can_open : All (CanOpen fs device_type) names
    pub fits : All (λ (n : Text). length (fs.build_filename base_dir n) + length name < 127) names

  set_path-first :
      (test : Text → Bool) (name : Text) (names : List Text)
      → All (λ (n : Text). length (fs.build_filename base_dir n) + length name < 127) names
      → set_path []
          (Option.map (λ (n : Text). fs.build_filename base_dir n) (first_of test names))
          name
        ≡ path_of (
            Option.map
              (λ (n : Text). fs.build_filename base_dir n ++ (47 ∷ name))
              (first_of test names))
  unfolding first_of set_path path_of
  set_path-first test name [] h = refl
  set_path-first test name (n ∷ names) h = elim (Bool-cases (test n)) [
    | inl e ↦ rw e (print_path_lem (fs.build_filename base_dir n) name h.0)
    | inr e ↦ rw e (set_path-first test name names h.1)
  ]

  -- The path that is printed to an array which was empty is that of the file.
  pub set_path_lem :
      (names : List Text) (name device_type buffer : Text)
      → CanFind names name device_type buffer
      → set_path [] (find_power_supply_sysfs_path fs device_type buffer) name
        ≡ path_of (supply_file device_type name names)
  unfolding supply_file
  set_path_lem names name device_type buffer c =
      ap (λ (o : Option Text). set_path [] o name)
        (find_lem fs device_type names buffer c.listed c.unwritten c.can_open)
      ∙ set_path-first (is_match fs device_type) name names c.fits
