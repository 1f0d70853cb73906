-- ===== src/System/Blame/Reports.antt =====
-- system/util.c: what `log_blame` reports of each process.
use nyx_modules.Base.{
  Text, true, ◌&&◌, if◌then◌else◌, All, List, [], ◌∷◌, ◌++◌, map, Option, none, some, ◌≡◌,
}
use nyx_modules.System.Blame.{
  ProcFiles, proc_dir, fd_name, Warning, application, open_file, is_number, read_exe, has_prefix,
}

module _ (fs : ProcFiles) where
  abbrev pub fd_dir : Text → Text
  fd_dir entry = fs.build_path (proc_dir ∷ entry ∷ fd_name ∷ [])

  abbrev pub fd_path : Text → Text → Text
  fd_path entry nentry = fs.build_path (proc_dir ∷ entry ∷ fd_name ∷ nentry ∷ [])

  -- The links of a directory can be read.
  unfoldable pub CanReadLink : Text → Text → Type 0
  CanReadLink entry nentry =
      fs.is_symlink (fd_path entry nentry) ≡ true
      → (link : Text) × (fs.read_link (fd_path entry nentry) ≡ some link)

  -- The descriptors of a process can be read.
  unfoldable pub CanScan : Text → Type 0
  CanScan entry =
      is_number fs entry ≡ true
      → fs.is_directory (fd_dir entry) ≡ true
      → (names : List Text) × (fs.names (fd_dir entry) ≡ some names) × All (CanReadLink entry) names

  -- The report of a process with some files: a headline with the name of the program, once; and again
  -- before each file where the name cannot be read.
  unfoldable pub report : Option Text → Text → List Text → List Warning
  report exe entry [] = []
  report none entry (file ∷ files) =
      application none entry ∷ open_file file ∷ report none entry files
  report (some exe) entry (file ∷ files) =
      application (some exe) entry ∷ open_file file ∷ map (λ (f : Text). open_file f) files

  module _ (prefix : Text) where
    abbrev pub keep : Option Text → List Text → List Text
    keep none rest = rest
    keep (some link) rest = if has_prefix fs prefix link then link ∷ rest else rest

    -- The files below the prefix that a process has open: the links that start with it.
    unfoldable pub open_files : Text → List Text → List Text
    open_files entry [] = []
    open_files entry (nentry ∷ rest) =
        let files = open_files entry rest in
        if fs.is_symlink (fd_path entry nentry)
        then keep (fs.read_link (fd_path entry nentry)) files
        else files

    abbrev pub process_files : Text → Option (List Text) → List Text
    process_files entry none = []
    process_files entry (some names) = open_files entry names

    -- The report of an entry of /proc, which is empty if it is no process.
    unfoldable pub report_of : Text → List Warning
    report_of entry =
        if is_number fs entry && fs.is_directory (fd_dir entry)
        then report (read_exe fs entry) entry (process_files entry (fs.names (fd_dir entry)))
        else []

    unfoldable pub reports : List Text → List Warning
    reports [] = []
    reports (entry ∷ rest) = report_of entry ++ reports rest

    -- The warnings for the rest of a process, by what `exe` is.
    after : Option Text → Text → List Text → List Warning
    after none entry files = report (read_exe fs entry) entry files
    after (some exe) entry files = map (λ (f : Text). open_file f) files
