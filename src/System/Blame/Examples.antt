-- ===== src/System/Blame/Examples.antt =====
-- A /proc with a program that has two files open below the prefix, and the theorems at it.
use nyx_modules.Base.{
  Text, text_eq, leb, ◌&&◌, take, if◌then◌else◌, pos, true, List, [], ◌∷◌, ◌++◌, none, some, ◌≡◌,
  refl,
}
use nyx_modules.System.Blame.{
  ProcFiles, proc_dir, fd_name, exe_name, application, open_file, is_number, read_exe, has_prefix,
  log_blame,
}
use nyx_modules.System.Blame.Reports.{report, open_files, report_of, reports}

-- "/m", "/m/a", "/x" and "/sh"
abbrev media : Text
media = 47 ∷ 109 ∷ []

abbrev media_file : Text
media_file = 47 ∷ 109 ∷ 47 ∷ 97 ∷ []

abbrev other_file : Text
other_file = 47 ∷ 120 ∷ []

abbrev shell : Text
shell = 47 ∷ 115 ∷ 104 ∷ []

-- "7" and the names of its descriptors, "0", "1" and "2"
abbrev pid : Text
pid = 55 ∷ []

abbrev descriptors : List Text
descriptors = (48 ∷ []) ∷ (49 ∷ []) ∷ (50 ∷ []) ∷ []

abbrev join : List Text → Text
join [] = []
join (part ∷ parts) = part ++ (47 ∷ join parts)

abbrev proc : ProcFiles
proc = record {
  names = λ path. if text_eq path proc_dir then some ((97 ∷ []) ∷ pid ∷ []) else some descriptors;
  is_directory = λ path. true;
  is_symlink = λ path. true;
  read_link = λ path.
      if text_eq path (join (proc_dir ∷ pid ∷ exe_name ∷ []))
      then some shell
      else if text_eq path (join (proc_dir ∷ pid ∷ fd_name ∷ (49 ∷ []) ∷ []))
      then some other_file
      else some media_file;
  build_path = join;
  is_digit = λ c. leb 48 c && leb c 57;
  strncasecmp = λ s t n. if text_eq (take n s) (take n t) then pos 0 else pos 1;
  unknown_pid = λ s. s;
}

reports_lem :
    reports proc media ((97 ∷ []) ∷ pid ∷ [])
    ≡ application (some shell) pid ∷ open_file media_file ∷ open_file media_file ∷ []
unfolding reports report_of report open_files is_number read_exe has_prefix
reports_lem = refl

abbrev locked : ProcFiles
locked = record proc { names = λ path. if text_eq path proc_dir then some (pid ∷ []) else none }

log_twice :
    log_blame proc media
    ≡ some (application (some shell) pid ∷ open_file media_file ∷ open_file media_file ∷ [])
unfolding log_blame
log_twice = refl
