-- ===== src/System/Blame/Faults.antt =====
-- system/util.c: the processes at which `log_blame` hands a NULL to GLib.
use nyx_modules.Base.{
  Text, true, List, [], ◌∷◌, ◌++◌, Option, none, some, Option-cases, ◌≡◌, refl, inl, inr,
}
use nyx_modules.System.Blame.{
  ProcFiles, proc_dir, Warning, put_before, is_number, log_file, log_files, log_process,
  log_processes, log_blame,
}
use nyx_modules.System.Blame.Reports.{fd_dir, fd_path}

put_before-none :
    (first : List Warning) {o : Option (List Warning)} → o ≡ none → put_before first o ≡ none
put_before-none first h = rw h refl

module _ (fs : ProcFiles) where
  -- The directory of the descriptors cannot be opened, or a link in it cannot be read.
  pub data IsUnreadable (entry : Text) : Type 0 where
    directory : fs.names (fd_dir fs entry) ≡ none → IsUnreadable entry
    link :
        (before rest : List Text) (nentry : Text)
        → fs.names (fd_dir fs entry) ≡ some (before ++ (nentry ∷ rest))
        → fs.is_symlink (fd_path fs entry nentry) ≡ true
        → fs.read_link (fd_path fs entry nentry) ≡ none
        → IsUnreadable entry

  module _ (prefix : Text) where
    log_file-null :
        (entry nentry : Text) (exe : Option Text)
        → fs.is_symlink (fd_path fs entry nentry) ≡ true
        → fs.read_link (fd_path fs entry nentry) ≡ none
        → log_file fs prefix entry exe nentry ≡ none
    unfolding log_file
    log_file-null entry nentry exe h r = rw (h, r) refl

    log_files-null :
        (entry nentry : Text) (exe : Option Text) (before rest : List Text)
        → fs.is_symlink (fd_path fs entry nentry) ≡ true
        → fs.read_link (fd_path fs entry nentry) ≡ none
        → log_files fs prefix entry exe (before ++ (nentry ∷ rest)) ≡ none
    unfolding log_files
    log_files-null entry nentry exe [] rest h r =
        rw (log_files, log_file-null entry nentry exe h r) refl
    log_files-null entry nentry exe (name ∷ before) rest h r =
        elim (Option-cases (log_file fs prefix entry exe name)) [
          | inl e ↦ rw (log_files, e) refl
          | inr (s, e) ↦
              rw (log_files, e)
                (put_before-none s.1 (log_files-null entry nentry s.0 before rest h r))
        ]

    log_process-null :
        (entry : Text)
        → is_number fs entry ≡ true
        → fs.is_directory (fd_dir fs entry) ≡ true
        → IsUnreadable entry
        → log_process fs prefix entry ≡ none
    unfolding log_process
    log_process-null entry number exists (directory e) = rw (number, exists, e) refl
    log_process-null entry number exists (link before rest nentry e h r) =
        rw (number, exists, e) (log_files-null entry nentry none before rest h r)

    log_processes-null :
        (entry : Text) (before rest : List Text)
        → log_process fs prefix entry ≡ none
        → log_processes fs prefix (before ++ (entry ∷ rest)) ≡ none
    unfolding log_processes
    log_processes-null entry [] rest h = rw (log_processes, h) refl
    log_processes-null entry (name ∷ before) rest h =
        elim (Option-cases (log_process fs prefix name)) [
          | inl e ↦ rw (log_processes, e) refl
          | inr (first, e) ↦
              rw (log_processes, e) (put_before-none first (log_processes-null entry before rest h))
        ]

    -- A process whose directory of descriptors is there and cannot be opened, or holds a symbolic link
    -- that cannot be read, wherever it stands in the list: `log_blame` hands a NULL to GLib, as a
    -- directory to read from or as a text to compare.
    pub null_lem :
        (entry : Text) (before rest : List Text)
        → fs.names proc_dir ≡ some (before ++ (entry ∷ rest))
        → is_number fs entry ≡ true
        → fs.is_directory (fd_dir fs entry) ≡ true
        → IsUnreadable entry
        → log_blame fs prefix ≡ none
    unfolding log_blame
    null_lem entry before rest listed number exists h =
        rw (log_blame, listed)
          (log_processes-null entry before rest (log_process-null entry number exists h))
