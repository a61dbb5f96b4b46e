-- ===== src/Odfi/Cleanup.antt =====
-- internal/incoming/odfi/cleanup.go: what is deleted on the remote server after the download.
use achgateway.Base.{
  Text, txt, base, join, is, not_exist, nat_eq, Error, ErrorList, ok, err, list_error, errorf_v,
  Option, none, some, List, [], ◌∷◌, ◌++◌, if◌then◌else◌,
}
use achgateway.Merging.Cutoff.{add_error}
use achgateway.Odfi.{Disk}
use achgateway.Storage.{DirEntry}
use achgateway.Upload.{Agent}

module _ {S : Type 0} (disk : Disk S) (agent : Agent S) (join_errors : ErrorList → Error) where
  abbrev list_of : ErrorList → Option Error
  list_of es = list_error join_errors es

  abbrev pub remote_path : Text → DirEntry → Text
  remote_path suffix info = join (suffix ∷ base info.name ∷ [])

  -- The error of a file that is gone already is dropped.
  abbrev pub gone_is_fine : Option Error → Option Error
  gone_is_fine none = none
  gone_is_fine (some e) = if is e not_exist then none else some e

  unfoldable pub delete_each : Text → List DirEntry → S → ErrorList × S
  unfolding is join base
  delete_each suffix [] s = ([], s)
  delete_each suffix (info ∷ infos) s =
      let (failed, t) = agent.delete (remote_path suffix info) s in
      let (rest, u) = delete_each suffix infos t in (add_error (gone_is_fine failed) rest, u)

  unfoldable pub delete_files_on_remote : Text → Text → S → Option Error × S
  unfolding join
  delete_files_on_remote local_dir suffix s =
      let base_dir = join (local_dir ∷ suffix ∷ []) in
      elim (disk.read_dir base_dir s) [
        | err e ↦ (some (errorf_v (txt "reading " ++ base_dir ++ txt ": ") e), s)
        | ok infos ↦ let (errors, t) = delete_each suffix infos s in (list_of errors, t)
      ]

  -- Cleanup over the remote directories.
  unfoldable pub cleanup_dirs : Text → List Text → S → ErrorList × S
  unfolding delete_files_on_remote
  cleanup_dirs local_dir [] s = ([], s)
  cleanup_dirs local_dir (suffix ∷ suffixes) s =
      let (failed, t) = delete_files_on_remote local_dir suffix s in
      let (rest, u) = cleanup_dirs local_dir suffixes t in (add_error failed rest, u)

  unfoldable pub cleanup : Text → List Text → S → Option Error × S
  cleanup local_dir suffixes s =
      let (errors, t) = cleanup_dirs local_dir suffixes s in (list_of errors, t)

  -- An empty file: os.Remove(info.Name()) takes the bare name, and what it says is not looked at.
  unfoldable pub delete_empty : Text → DirEntry → S → Option Error × S
  unfolding join base
  delete_empty suffix entry s = agent.delete (remote_path suffix entry) (disk.remove entry.name s).1

  unfoldable pub delete_empty_each : Text → Text → List DirEntry → S → ErrorList × S
  unfolding delete_empty
  delete_empty_each base_dir suffix [] s = ([], s)
  delete_empty_each base_dir suffix (entry ∷ entries) s =
      let (failed, t) = delete_empty suffix entry s in
      let (rest, u) = delete_empty_each base_dir suffix entries t in
      let kept = delete_empty_each base_dir suffix entries s in
      elim (disk.size base_dir entry s) [
        | err e ↦ kept
        | ok n ↦ if nat_eq n 0 then (add_error failed rest, u) else kept
      ]

  unfoldable pub delete_empty_files : Text → Text → S → Option Error × S
  unfolding join
  delete_empty_files local_dir suffix s =
      let base_dir = join (local_dir ∷ suffix ∷ []) in
      elim (disk.read_dir base_dir s) [
        | err e ↦ (some (errorf_v (txt "reading " ++ base_dir ++ txt ": ") e), s)
        | ok entries ↦
            let (errors, t) = delete_empty_each base_dir suffix entries s in (list_of errors, t)
      ]

  unfoldable pub cleanup_empty_dirs : Text → List Text → S → ErrorList × S
  unfolding delete_empty_files join
  cleanup_empty_dirs local_dir [] s = ([], s)
  cleanup_empty_dirs local_dir (suffix ∷ suffixes) s =
      let (failed, t) = delete_empty_files local_dir suffix s in
      let (rest, u) = cleanup_empty_dirs local_dir suffixes t in
      let skipped = cleanup_empty_dirs local_dir suffixes s in
      elim (disk.stat (join (local_dir ∷ suffix ∷ [])) s) [
        | some e ↦ skipped
        | none ↦ (add_error failed rest, u)
      ]

  unfoldable pub cleanup_empty_files : Text → List Text → S → Option Error × S
  cleanup_empty_files local_dir suffixes s =
      let (errors, t) = cleanup_empty_dirs local_dir suffixes s in (list_of errors, t)
