-- ===== src/Cleanup/Tests.antt =====
-- The cleanup theorems at a storage with one old directory, a new one, and others.
use achgateway.Base.{
  base, ℕ, ◌+◌, ◌≤◌, Text, txt, join, text_eq, new_error, Result, ok, err, true, false, none, List,
  [], ◌∷◌, ◌≡◌, refl, if◌then◌else◌,
}
use achgateway.Storage.{Chest, DirEntry}
use achgateway.Cleanup.{
  CleanupService, is_isolated, timestamp_of, has_file, should_delete_directory, check_uploaded,
  run_cleanup, clean_entries, clean_directory, delete_directory, count_entries, get_stats,
}
use achgateway.Cleanup.Laws.{should_delete_directory_sound, run_cleanup-keeps}

abbrev dir_entry : Text → DirEntry
dir_entry name = record { name = name; is_dir = true }

abbrev old_dir : Text
old_dir = txt "SD-20240101-120000"

abbrev listing : List DirEntry
listing =
    dir_entry old_dir
    ∷ dir_entry (txt "SD-20250101-120000")
    ∷ dir_entry (txt "mergable")
    ∷ record { name = txt "notes"; is_dir = false }
    ∷ []

abbrev one_file : List DirEntry
one_file = record { name = txt "5a.ach"; is_dir = false } ∷ []

-- The state lists the directories that were removed.
abbrev disk : Chest (List Text)
disk = record {
  open_file = λ p s. err (new_error (txt "no file"));
  glob = λ p s. ok [];
  read_dir = λ p s. if text_eq p (txt ".") then ok listing else ok one_file;
  replace_file = λ p q s. (none, s);
  replace_dir = λ p q s. (none, s);
  mkdir_all = λ p s. (none, s);
  rmdir_all = λ p s. (none, p ∷ s);
  write_file = λ p c s. (none, s);
}

-- Times are days: the old directory is of day 1, the other one of day 366.
abbrev day_of : Text → Result ℕ
day_of stamp =
    if text_eq stamp (txt "20240101-120000")
    then ok 1
    else if text_eq stamp (txt "20250101-120000")
    then ok 366
    else err (new_error (txt "bad time"))

abbrev cs : CleanupService
cs = record {
  shard = txt "SD";
  retention = 30;
  parse_time = day_of;
  info_size = λ e. ok 4096;
  working_dir = txt "/";
}

runs_cleanup : run_cleanup disk cs 370 [] ≡ (ok (record { deleted = 1; errors = 0 }), old_dir ∷ [])
unfolding run_cleanup clean_entries clean_directory delete_directory should_delete_directory
    check_uploaded is_isolated text_eq
runs_cleanup = refl

is_due : should_delete_directory disk cs old_dir 370 [] ≡ ok true
unfolding should_delete_directory check_uploaded text_eq
is_due = refl

should_delete_directory_sound_example :
    (time : ℕ) × (entries : List DirEntry) × (day_of (timestamp_of disk cs (base old_dir))
      ≡ ok time)
    × (time + 30 ≤ 370)
    × (disk.read_dir (join (old_dir ∷ txt "uploaded" ∷ [])) [] ≡ ok entries)
    × (has_file entries ≡ true)
should_delete_directory_sound_example = should_delete_directory_sound disk cs old_dir 370 [] is_due

-- Nothing but names of isolated directories is in the list of what was removed.
abbrev AllIsolated : List Text → Type 0
AllIsolated [] = Unit {0}
AllIsolated (d ∷ ds) = (is_isolated (txt "SD") d ≡ true) × AllIsolated ds

run_cleanup-keeps_example : AllIsolated (run_cleanup disk cs 370 []).1
run_cleanup-keeps_example =
    run_cleanup-keeps disk cs AllIsolated 370 (λ dir s named due p. (named, p)) [] tt

runs_stats :
    get_stats disk cs 370 []
    ≡ ok (record { total_directories = 2; eligible_for_deletion = 1; total_size = 4096 })
unfolding get_stats count_entries should_delete_directory check_uploaded is_isolated text_eq
runs_stats = refl

lists_all : disk.read_dir (txt ".") [] ≡ ok listing
unfolding text_eq
lists_all = refl
