-- ===== src/System/Blame.antt =====
-- system/util.c: `log_blame`, which names the programs that have files open below a directory.
pub mod Reports
pub mod Faults
mod Examples
use nyx_modules.Base.{
  Text, ℕ, ℤ, pos, ◌==ℤ◌, Bool, true, false, if◌then◌else◌, List, [], ◌∷◌, ◌++◌, length, Option,
  none, some,
}

-- The file system below /proc and GLib: the names of a directory in the order in which they are read, or `none` if it
-- cannot be opened, the tests of `g_file_test`, what `g_file_read_link` returns, `g_build_path` with the separator "/",
-- `g_ascii_isdigit`, `g_ascii_strncasecmp`, and the text "(unknown PID=…)" that `g_strdup_printf` makes of a name.
pub record ProcFiles : Type 0 where
  pub names : Text → Option (List Text)
  pub is_directory : Text → Bool
  pub is_symlink : Text → Bool
  pub read_link : Text → Option Text
  pub build_path : List Text → Text
  pub is_digit : ℕ → Bool
  pub strncasecmp : Text → Text → ℕ → ℤ
  pub unknown_pid : Text → Text

-- "/proc", "fd" and "exe"
abbrev pub proc_dir : Text
proc_dir = 47 ∷ 112 ∷ 114 ∷ 111 ∷ 99 ∷ []

abbrev pub fd_name : Text
fd_name = 102 ∷ 100 ∷ []

abbrev pub exe_name : Text
exe_name = 101 ∷ 120 ∷ 101 ∷ []

-- What `g_warning` is called with: a text that is NULL is `none`.
pub data Warning : Type 0 where
  scan_failed : Warning
  application : Option Text → Text → Warning
  open_file : Text → Warning

-- The warnings of the first part before those of the rest; `none` is a NULL that GLib has been given for a directory
-- or a text.
abbrev pub put_before : List Warning → Option (List Warning) → Option (List Warning)
put_before first none = none
put_before first (some rest) = some (first ++ rest)

module _ (fs : ProcFiles) where
  -- `isNumber`
  unfoldable pub is_number : Text → Bool
  is_number [] = true
  is_number (c ∷ s) = let rest = is_number s in if fs.is_digit c then rest else false

  -- `exe`, where it has been NULL.
  unfoldable pub read_exe : Text → Option Text
  read_exe entry =
      let epath = fs.build_path (proc_dir ∷ entry ∷ exe_name ∷ []) in
      if fs.is_symlink epath then fs.read_link epath else some (fs.unknown_pid entry)

  module _ (prefix : Text) where
    unfoldable pub has_prefix : Text → Bool
    has_prefix link = fs.strncasecmp link prefix (length prefix) ==ℤ pos 0

    -- The link of a file starts with the prefix: `exe` behind it, and the warnings.
    unfoldable pub warn_file : Text → Option Text → Text → Option Text × List Warning
    unfolding read_exe
    warn_file entry none link =
        let exe = read_exe entry in (exe, application exe entry ∷ open_file link ∷ [])
    warn_file entry (some exe) link = (some exe, open_file link ∷ [])

    -- One round of the loop over a directory of descriptors.
    unfoldable pub log_file : Text → Option Text → Text → Option (Option Text × List Warning)
    unfolding has_prefix warn_file
    log_file entry exe nentry =
        let lnpath = fs.build_path (proc_dir ∷ entry ∷ fd_name ∷ nentry ∷ []) in
        let linked : Option (Option Text × List Warning) = elim (fs.read_link lnpath) [
          | none ↦ none
          | some link ↦ some (if has_prefix link then warn_file entry exe link else (exe, []))
        ] in
        if fs.is_symlink lnpath then linked else some (exe, [])

    -- The loop, by what `exe` is.
    unfoldable pub log_files : Text → Option Text → List Text → Option (List Warning)
    unfolding log_file
    log_files entry exe [] = some []
    log_files entry exe (nentry ∷ rest) = elim (log_file entry exe nentry) [
      | none ↦ none
      | some r ↦ put_before r.1 (log_files entry r.0 rest)
    ]

    -- One round of the loop over /proc. The test behind the call that opens the directory of
    -- descriptors is about another pointer.
    unfoldable pub log_process : Text → Option (List Warning)
    unfolding log_files is_number
    log_process entry =
        let fdpath = fs.build_path (proc_dir ∷ entry ∷ fd_name ∷ []) in
        let inside : Option (List Warning) = elim (fs.names fdpath) [
          | none ↦ none
          | some names ↦ log_files entry none names
        ] in
        if is_number entry then (if fs.is_directory fdpath then inside else some []) else some []

    unfoldable pub log_processes : List Text → Option (List Warning)
    unfolding log_process
    log_processes [] = some []
    log_processes (entry ∷ rest) = elim (log_process entry) [
      | none ↦ none
      | some first ↦ put_before first (log_processes rest)
    ]

    -- `log_blame`: what it logs.
    unfoldable pub log_blame : Option (List Warning)
    unfolding log_processes
    log_blame = elim (fs.names proc_dir) [
      | none ↦ some (scan_failed ∷ [])
      | some names ↦ log_processes names
    ]
