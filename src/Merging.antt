-- ===== src/Merging.antt =====
-- internal/pipeline/merging.go: pending files on the storage, cancellation, and the merge that a
-- cutoff runs. The children hold the merge itself and the proofs.
mod Accept
pub mod Mapping
pub mod Cancel
pub mod Canceled
pub mod Cutoff
mod Runes
pub mod Complete
pub mod Uploads
pub mod Tests
unfoldable pub use Accept.{file_acceptor}
use achgateway.Base.{
  Text, txt, trim_suffix, join, split, text_contains, has_prefix, contains, Error, Result, ok, err,
  is_ok, is_some, is_nil, Bool, true, false, ◌||◌, ◌&&◌, not, Option, none, some, List, [], ◌∷◌,
  ◌++◌, map, if◌then◌else◌,
}
use achgateway.Storage.{Chest}
use achgateway.Ach.{AchLib, FileAcceptance, accept_file, skip_file}
use achgateway.Incoming.{AchFile, CancelAchFile, FileCancellationResponse}

-- Where a file of the shard waits for the cutoff: "mergable/<shard>/<fileID><extension>".
unfoldable pub pending_path : Text → Text → Text → Text
unfolding join trim_suffix
pending_path shard file_id extension =
    join (txt "mergable" ∷ shard ∷ (trim_suffix file_id (txt ".ach") ++ extension) ∷ [])

abbrev pub canceled_path : Text → Text
canceled_path path = path ++ txt ".canceled"

-- The name of the file that a path ending in ".canceled" cancels.
abbrev pub canceled_name : Text → Text
canceled_name path = trim_suffix (split path).1 (txt ".canceled")

module _ {S : Type 0} (chest : Chest S) (shard : Text) where
  module _ (lib : AchLib) where
    -- The options are written where there are some; what goes wrong there is only logged.
    unfoldable pub write_validation : Text → Option lib.ValidateOpts → S → S
    write_validation file_id none s = s
    write_validation file_id (some opts) s =
        (chest.write_file (pending_path shard file_id (txt ".json")) (lib.encode_opts opts).0 s).1

    unfoldable pub write_ach_file : AchFile lib.File → S → Option Error × S
    unfolding write_validation
    write_ach_file xfer s =
        let (contents, write_err) = lib.write xfer.file in
        let (failed, t) =
          chest.write_file (pending_path shard xfer.file_id (txt ".ach")) contents s in
        if is_some write_err
        then (write_err, s)
        else if is_some failed
        then (failed, t)
        else (none, write_validation xfer.file_id (lib.get_validation xfer.file) t)

    abbrev write_problem : Error → Error
    write_problem e = record { message = txt "problem writing ACH file: " ++ e.message; wraps = [] }

    unfoldable pub handle_xfer : AchFile lib.File → S → Option Error × S
    handle_xfer xfer s =
        let (failed, t) = write_ach_file xfer s in
        elim failed [ none ↦ (none, t) | some e ↦ (some (write_problem e), t) ]

  -- The canceled file is looked for only where the original is not found.
  abbrev pub file_was_found : Text → S → Bool
  file_was_found path s =
      is_ok (chest.open_file path s) || is_ok (chest.open_file (canceled_path path) s)

  unfoldable pub handle_cancel : CancelAchFile → S → (FileCancellationResponse × Option Error) × S
  handle_cancel cancel s =
      let path = pending_path shard cancel.file_id (txt ".ach") in
      let (failed, t) = chest.replace_file path (canceled_path path) s in
      let out : FileCancellationResponse = record {
        file_id = cancel.file_id;
        shard_key = cancel.shard_key;
        successful = file_was_found path s && is_nil failed;
      } in
      ((out, failed), t)

  -- `now` is time.Now() in the format 20060102-150405.
  unfoldable pub isolate_mergable_dir : Text → S → (Text × Option Error) × S
  isolate_mergable_dir now s =
      let newdir = join ((shard ++ txt "-" ++ now) ∷ []) in
      let (failed, t) = chest.replace_dir (join (txt "mergable" ∷ shard ∷ [])) newdir s in
      ((newdir, failed), t)

  unfoldable pub get_canceled_files : Text → S → Result (List Text)
  get_canceled_files dir s = elim (chest.glob (dir ++ txt "/*.canceled") s) [
    | ok matches ↦ ok (map canceled_name matches)
    | err e ↦ err e
  ]

  unfoldable pub excluded : List Text → Text → Bool
  unfolding has_prefix
  excluded [] path = false
  excluded (n ∷ negative) path = has_prefix n path || excluded negative path

  unfoldable pub non_canceled : List Text → List Text → List Text
  unfolding excluded
  non_canceled negative [] = []
  non_canceled negative (p ∷ positive) =
      let rest = non_canceled negative positive in if excluded negative p then rest else p ∷ rest

  -- The second glob is made only where the first one did not fail.
  abbrev without_canceled : Result (List Text) → Result (List Text) → Result (List Text)
  without_canceled (ok positive) (ok negative) = ok (non_canceled negative positive)
  without_canceled (ok positive) (err e) = err e
  without_canceled (err e) negative = err e

  unfoldable pub get_non_canceled_matches : Text → S → Result (List Text)
  unfolding non_canceled
  get_non_canceled_matches dir s =
      without_canceled (chest.glob (dir ++ txt "/*.ach") s)
        (chest.glob (dir ++ txt "/*.canceled") s)
