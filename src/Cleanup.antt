-- ===== src/Cleanup.antt =====
-- internal/pipeline/cleanup.go: the directories that a shard's cutoffs left behind are removed once
-- they are old enough and hold uploaded files.
pub mod Laws
mod Tests
use achgateway.Base.{
  ℕ, zero, suc, ◌+◌, length, Text, txt, join, base, nat_eq, ltb, leb, Error, new_error, errorf_w,
  Result, ok, err, Bool, true, false, not, ◌&&◌, ◌||◌, Option, none, some, List, [], ◌∷◌, ◌++◌,
  if◌then◌else◌,
}
use achgateway.Storage.{Chest, DirEntry}

-- A time is a number of nanoseconds since year 1, a duration one of nanoseconds. `parse_time` is
-- time.Parse with the layout 20060102-150405, `info_size` entry.Info() with the size in it, and
-- `working_dir` what os.Getwd() gives.
pub record CleanupService : Type 0 where
  pub shard : Text
  pub retention : ℕ
  pub parse_time : Text → Result ℕ
  pub info_size : DirEntry → Result ℕ
  pub working_dir : Text

abbrev is_digit : ℕ → Bool
is_digit c = leb b'0' c && leb c b'9'

-- \d{n}, and what follows it
abbrev digits : ℕ → Text → Option Text
digits zero s = some s
digits (suc n) [] = none
digits (suc n) (c ∷ s) = let rest = digits n s in if is_digit c then rest else none

abbrev literal : Text → Text → Option Text
literal [] s = some s
literal (c ∷ p) [] = none
literal (c ∷ p) (d ∷ s) = let rest = literal p s in if nat_eq c d then rest else none

abbrev and_then : Option Text → (Text → Option Text) → Option Text
and_then none f = none
and_then (some s) f = f s

abbrev at_end : Option Text → Bool
at_end (some []) = true
at_end _ = false

-- directoryPattern.MatchString(name), for ^<shard>-\d{8}-\d{6}$
unfoldable pub is_isolated : Text → Text → Bool
is_isolated shard name = at_end (
    and_then (literal (shard ++ txt "-") name)
      (λ date. and_then (digits 8 date) (λ dash. and_then (literal (txt "-") dash) (digits 6))))

abbrev pub drop : ℕ → Text → Text
drop zero s = s
drop (suc n) [] = []
drop (suc n) (c ∷ s) = drop n s

abbrev pub has_file : List DirEntry → Bool
has_file [] = false
has_file (e ∷ es) = not e.is_dir || has_file es

-- CleanupStats, less the fields that are copied.
pub record CleanupStats : Type 0 where
  pub total_directories : ℕ
  pub eligible_for_deletion : ℕ
  pub total_size : ℕ

-- How a run ends: how many directories were deleted, and how many could not be checked or deleted.
pub record CleanupRun : Type 0 where
  pub deleted : ℕ
  pub errors : ℕ

module _ {S : Type 0} (chest : Chest S) (cs : CleanupService) where
  abbrev pub timestamp_of : Text → Text
  timestamp_of base_name = drop (length cs.shard + 1) base_name

  -- A directory that is not too new goes if it has an uploaded file.
  unfoldable pub check_uploaded : Text → S → Bool
  unfolding join
  check_uploaded dir s = elim (chest.read_dir (join (dir ∷ txt "uploaded" ∷ [])) s) [
    | err e ↦ false
    | ok entries ↦ has_file entries
  ]

  -- cutoffTime is now less the retention: a time is after it if, with the retention, it is after now.
  unfoldable pub should_delete_directory : Text → ℕ → S → Result Bool
  unfolding base
  should_delete_directory dir now s =
      if leb (length (base dir)) (length cs.shard + 1)
      then err (new_error (txt "directory name too short: " ++ base dir))
      else elim (cs.parse_time (timestamp_of (base dir))) [
        | err e ↦
            err
              (errorf_w (txt "failed to parse directory timestamp from " ++ base dir ++ txt ": ") e)
        | ok time ↦ if ltb now (time + cs.retention) then ok false else ok (check_uploaded dir s)
      ]

  unfoldable pub delete_directory : Text → S → Option Error × S
  delete_directory dir s = chest.rmdir_all dir s

  abbrev pub is_candidate : DirEntry → Bool
  is_candidate entry = entry.is_dir && is_isolated cs.shard entry.name

  abbrev add_deleted : CleanupRun → CleanupRun
  add_deleted r = record r { deleted = r.deleted + 1 }

  abbrev add_failure : CleanupRun → CleanupRun
  add_failure r = record r { errors = r.errors + 1 }

  -- One directory of the loop.
  unfoldable pub clean_directory : Text → ℕ → CleanupRun → S → CleanupRun × S
  clean_directory dir now r s = elim (should_delete_directory dir now s) [
    | err e ↦ (add_failure r, s)
    | ok false ↦ (r, s)
    | ok true ↦ elim (delete_directory dir s).0 [
      | some e ↦ (add_failure r, (delete_directory dir s).1)
      | none ↦ (add_deleted r, (delete_directory dir s).1)
    ]
  ]

  unfoldable pub clean_entries : List DirEntry → ℕ → CleanupRun → S → CleanupRun × S
  clean_entries [] now r s = (r, s)
  clean_entries (entry ∷ entries) now r s =
      let (r', t) = clean_directory entry.name now r s in
      let cleaned = clean_entries entries now r' t in
      let skipped = clean_entries entries now r s in if is_candidate entry then cleaned else skipped

  -- A run that cannot list the storage ends at once.
  unfoldable pub run_cleanup : ℕ → S → Result CleanupRun × S
  run_cleanup now s = elim (chest.read_dir (txt ".") s) [
    | err e ↦ (err e, s)
    | ok entries ↦
        let (r, t) = clean_entries entries now (record { deleted = 0; errors = 0 }) s in (ok r, t)
  ]

  abbrev pub add_stats : Bool → ℕ → CleanupStats → CleanupStats
  add_stats eligible size stats =
      if eligible
      then record stats {
        total_directories = stats.total_directories + 1;
        eligible_for_deletion = stats.eligible_for_deletion + 1;
        total_size = stats.total_size + size;
      }
      else record stats { total_directories = stats.total_directories + 1 }

  unfoldable pub count_entries : List DirEntry → ℕ → CleanupStats → S → Result CleanupStats
  count_entries [] now stats s = ok stats
  count_entries (entry ∷ entries) now stats s =
      let skipped = count_entries entries now stats s in
      let size : ℕ = elim (cs.info_size entry) [ ok n ↦ n | err e ↦ 0 ] in
      let eligible = count_entries entries now (add_stats true size stats) s in
      let kept = count_entries entries now (add_stats false size stats) s in
      if not (is_candidate entry) then skipped else elim (cs.info_size entry) [
        | err e ↦ err (errorf_w (txt "getting info on " ++ entry.name ++ txt " failed: ") e)
        | ok _ ↦ elim (should_delete_directory entry.name now s) [
          | err e ↦ err (errorf_w (txt "checking " ++ entry.name ++ txt " to delete failed: ") e)
          | ok true ↦ eligible
          | ok false ↦ kept
        ]
      ]

  unfoldable pub get_stats : ℕ → S → Result CleanupStats
  get_stats now s = elim (chest.read_dir (txt ".") s) [
    | err e ↦ err (errorf_w (txt "reading " ++ cs.working_dir ++ txt " failed: ") e)
    | ok entries ↦
        count_entries entries now
          (record { total_directories = 0; eligible_for_deletion = 0; total_size = 0 }) s
  ]
