-- ===== src/Utils/FirstMatch.antt =====
-- utils.c: the search finds the first directory whose type is the wanted one.
use nyx_modules.Base.{
  text_eq→≡, Text, text_eq, Bool, true, false, not, ◌&&◌, ◌||◌, if◌then◌else◌, Bool-cases, All,
  List, [], ◌∷◌, Option, none, some, ◌≡◌, refl, sym, ap, ◌∙◌, inl, inr,
}
use mathlib.Core.Bool.{false≢true}
use mathlib.Core.Option
use nyx_modules.Utils.Files.{file_get_string, copy_text}
use nyx_modules.Utils.PowerSupply.{
  FileSystem, base_dir, type_name, is_hidden, search_files, search_directories,
  find_power_supply_sysfs_path,
}

-- The first name that passes the test.
unfoldable pub first_of : (Text → Bool) → List Text → Option Text
first_of test [] = none
first_of test (name ∷ names) =
    let rest = first_of test names in if test name then some name else rest

unfoldable pub has_type : List Text → Bool
has_type [] = false
has_type (file ∷ files) = let rest = has_type files in if text_eq file type_name then true else rest

and_false : (b : Bool) → (b && false) ≡ false
and_false true = refl
and_false false = refl

module _ (fs : FileSystem) (device_type : Text) where
  -- The file holds the wanted type, cut to the 63 bytes that are compared.
  unfoldable pub holds_type : Option Text → Bool
  holds_type none = false
  holds_type (some contents) = text_eq (copy_text (fs.strip contents) 64 []) device_type

  unfoldable pub has_match : Text → Option (List Text) → Bool
  has_match dir_path none = false
  has_match dir_path (some files) =
      has_type files && holds_type (fs.contents (fs.build_filename dir_path type_name))

  -- A directory that is not hidden and has a file `type` with the wanted type.
  unfoldable pub is_match : Text → Bool
  is_match name =
      let dir_path = fs.build_filename base_dir name in
      not (is_hidden name) && fs.is_directory dir_path && has_match dir_path (fs.names dir_path)

  -- A directory that is not hidden can be opened.
  unfoldable pub CanOpen : Text → Type 0
  CanOpen name =
      is_hidden name ≡ false
      → fs.is_directory (fs.build_filename base_dir name) ≡ true
      → (files : List Text) × (fs.names (fs.build_filename base_dir name) ≡ some files)

  read_lem :
      (contents : Option Text) (buffer : Text)
      → text_eq buffer device_type ≡ false
      → text_eq (file_get_string fs.strip contents 64 buffer).0 device_type ≡ holds_type contents
  unfolding file_get_string copy_text holds_type
  read_lem none buffer h = h
  read_lem (some contents) buffer h = refl

  -- A search in a directory that starts with another text in the buffer, with the buffer that it leaves.
  IsSearch : Text → List Text → Bool × Text → Type 0
  IsSearch dir_path files r =
      (r.0 ≡ has_type files && holds_type (fs.contents (fs.build_filename dir_path type_name)))
      × (r.0 ≡ false → text_eq r.1 device_type ≡ false)

  files_lem :
      (dir_path : Text) (files : List Text) (buffer : Text)
      → text_eq buffer device_type ≡ false
      → IsSearch dir_path files (search_files fs device_type dir_path files buffer)
  unfolding IsSearch search_files has_type
  files_lem dir_path [] buffer h = (refl, λ e. h)
  files_lem dir_path (file ∷ files) buffer h = elim (Bool-cases (text_eq file type_name)) [
    | inr e ↦ rw e (files_lem dir_path files buffer h)
    | inl e ↦
        let contents = fs.contents (fs.build_filename dir_path file) in
        let read = (file_get_string fs.strip contents 64 buffer).0 in
        let same : holds_type contents
            ≡ holds_type (fs.contents (fs.build_filename dir_path type_name)) =
          ap (λ (n : Text). holds_type (fs.contents (fs.build_filename dir_path n)))
            (text_eq→≡ file type_name e) in
        elim (Bool-cases (text_eq read device_type)) [
          | inl found ↦
              rw (e, found)
                (
                  sym (sym same ∙ sym (read_lem contents buffer h) ∙ found),
                  λ n. absurd (false≢true (sym n)),
                )
          | inr other ↦
              let (rest, kept) = files_lem dir_path files read other in
              let no : holds_type (fs.contents (fs.build_filename dir_path type_name)) ≡ false =
                sym same ∙ sym (read_lem contents buffer h) ∙ other in
              rw (e, other)
                (
                  rest
                      ∙ ap (λ (b : Bool). has_type files && b) no
                      ∙ and_false (has_type files)
                      ∙ sym no,
                  kept,
                )
        ]
  ]

  no_match :
      (name : Text)
      → is_hidden name || not (fs.is_directory (fs.build_filename base_dir name)) ≡ true
      → is_match name ≡ false
  unfolding is_match
  no_match name h = elim (Bool-cases (is_hidden name)) [
    | inl e ↦ rw e refl
    | inr e ↦ elim (Bool-cases (fs.is_directory (fs.build_filename base_dir name))) [
      | inl e' ↦ absurd (false≢true (rw (e, e') at h))
      | inr e' ↦ rw (e, e') refl
    ]
  ]

  match_lem :
      (name : Text) (files : List Text) (r : Bool × Text)
      → is_hidden name ≡ false
      → fs.is_directory (fs.build_filename base_dir name) ≡ true
      → fs.names (fs.build_filename base_dir name) ≡ some files
      → IsSearch (fs.build_filename base_dir name) files r
      → is_match name ≡ r.0
  unfolding is_match has_match IsSearch
  match_lem name files r shown directory listed v = rw (shown, directory, listed) (sym v.0)

  first_of-hit :
      (names : List Text) (name : Text)
      → is_match name ≡ true
      → some (fs.build_filename base_dir name)
        ≡ Option.map (λ (n : Text). fs.build_filename base_dir n) (first_of is_match (name ∷ names))
  unfolding first_of
  first_of-hit names name e = rw e refl

  first_of-miss :
      (names : List Text) (name : Text) (found : Option Text)
      → is_match name ≡ false
      → found ≡ Option.map (λ (n : Text). fs.build_filename base_dir n) (first_of is_match names)
      → found
        ≡ Option.map (λ (n : Text). fs.build_filename base_dir n) (first_of is_match (name ∷ names))
  unfolding first_of
  first_of-miss names name found e h = rw e h

  -- From a buffer that holds another text, with directories that can all be opened, the search finds what the
  -- list of names has as its first match.
  directories_lem :
      (names : List Text) (buffer : Text)
      → text_eq buffer device_type ≡ false
      → All CanOpen names
      → search_directories fs device_type names buffer
        ≡ Option.map (λ (n : Text). fs.build_filename base_dir n) (first_of is_match names)
  unfolding search_directories CanOpen IsSearch
  directories_lem [] buffer h opens = unfold first_of in refl
  directories_lem (name ∷ names) buffer h opens = elim (Bool-cases (is_hidden name)) [
    | inl hidden ↦ rw hidden (
        first_of-miss names name _ (no_match name (rw hidden refl))
          (directories_lem names buffer h opens.1))
    | inr shown ↦ elim (Bool-cases (fs.is_directory (fs.build_filename base_dir name))) [
      | inr file ↦
          rw (shown, file)
            (first_of-miss names name _ (no_match name (rw (shown, file) refl))
              (directories_lem names buffer h opens.1))
      | inl directory ↦
          let (files, listed) = opens.0 shown directory in
          let r = search_files fs device_type (fs.build_filename base_dir name) files buffer in
          let v = files_lem (fs.build_filename base_dir name) files buffer h in
          let m = match_lem name files r shown directory listed v in
          elim (Bool-cases r.0) [
            | inl e ↦ rw (shown, directory, listed, e) (first_of-hit names name (m ∙ e))
            | inr e ↦
                rw (shown, directory, listed, e)
                  (first_of-miss names name _ (m ∙ e) (directories_lem names r.1 (v.1 e) opens.1))
          ]
    ]
  ]

  -- The search below the directory of power supplies, when all the directories in it that are not
  -- hidden can be opened and the buffer of the function, which is not initialised, does not happen
  -- to hold the wanted type: it gives the path of the first directory in the list that is not
  -- hidden and has a file `type` which can be read and holds the wanted type, without the white
  -- space around it and up to 63 bytes, and NULL if there is none.
  pub find_lem :
      (names : List Text) (buffer : Text)
      → fs.names base_dir ≡ some names
      → text_eq buffer device_type ≡ false
      → All CanOpen names
      → find_power_supply_sysfs_path fs device_type buffer
        ≡ Option.map (λ (n : Text). fs.build_filename base_dir n) (first_of is_match names)
  unfolding find_power_supply_sysfs_path
  find_lem names buffer listed h opens =
      rw (find_power_supply_sysfs_path, listed) (directories_lem names buffer h opens)
