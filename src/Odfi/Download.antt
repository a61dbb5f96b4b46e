-- ===== src/Odfi/Download.antt =====
-- internal/incoming/odfi/download.go: the files of an agent's remote directories are copied into a
-- directory of their own.
use achgateway.Base.{
  Text, txt, base, join, join_texts, Error, Result, ok, err, new_error, errorf_v, errorf_w, print_v,
  Bool, true, false, if◌then◌else◌, Option, none, some, List, [], ◌∷◌, ◌++◌,
}
use achgateway.Odfi.{Disk}
use achgateway.Upload.{Agent, File}

-- What becomes of one remote file: it is saved, its name goes to the failed ones with an error or
-- without one, or saveFilepaths returns at once.
pub data Saved : Type 0 where
  saved : Saved
  skipped : Option Error → Saved
  aborted : Error → Saved

abbrev pub first_of : Option Error → Option Error → Option Error
first_of (some e) later = some e
first_of none later = later

module _ {S : Type 0} (disk : Disk S) (agent : Agent S) where
  -- Sync and both closes, after a copy that may have failed.
  unfoldable pub finish_file : Text → File → Option Error → S → Saved × S
  finish_file out_path file copied s =
      let (unsynced, t) = disk.sync out_path s in
      let (unclosed, u) = disk.close out_path t in
      let (left_open, v) = disk.close_file file u in
      elim unsynced [
        | some e ↦ (aborted (errorf_w (txt "sync on " ++ file.filepath ++ txt " failed: ") e), t)
        | none ↦ elim unclosed [
          | some e ↦ (aborted (errorf_w (txt "close on " ++ file.filepath ++ txt " failed: ") e), u)
          | none ↦ elim left_open [
            | some e ↦
                (aborted (errorf_w (txt "closing " ++ file.filepath ++ txt " had problem: ") e), v)
            | none ↦ (
              elim copied [
                | none ↦ saved
                | some e ↦
                    skipped (some (errorf_w (txt "copying " ++ file.filepath ++ txt " failed: ") e))
              ],
              v,
            )
          ]
        ]
      ]

  unfoldable pub copy_file : Text → File → S → Saved × S
  unfolding finish_file
  copy_file out_path file s =
      let (copied, t) = disk.copy out_path file.contents s in finish_file out_path file copied t

  -- A file that could not be read, or is nil with no error, is skipped.
  unfoldable pub read_and_copy : Text → Text → S → Saved × S
  read_and_copy out_path path s =
      let (r, t) = agent.read_file path s in
      elim r.1 [
        | some e ↦ (skipped (some (errorf_w (txt "reading " ++ path ++ txt " failed: ") e)), t)
        | none ↦ elim r.0 [ none ↦ (skipped none, t) | some file ↦ copy_file out_path file t ]
      ]

  unfoldable pub save_file : Text → Text → S → Saved × S
  unfolding join base
  save_file dir path s =
      let out_path = join (dir ∷ base path ∷ []) in
      let (failed, t) = disk.create out_path s in
      elim failed [
        | some e ↦
            (skipped (some (errorf_w (txt "os.create on " ++ out_path ++ txt " failed: ") e)), t)
        | none ↦ read_and_copy out_path path t
      ]

  abbrev report : Option Error → List Text → Option Error
  report first [] = none
  report first (p ∷ ps) = some (
      new_error (
        txt "saveFilepaths problem on: "
        ++ join_texts (txt ", ") (p ∷ ps)
        ++ txt ": "
        ++ print_v first))

  -- The loop, with the first error and the names that failed so far.
  unfoldable pub save_each : Text → List Text → Option Error → List Text → S → Option Error × S
  save_each dir [] first failed s = (report first failed, s)
  save_each dir (path ∷ paths) first failed s =
      let (r, t) = save_file dir path s in
      let saved_rest = save_each dir paths first failed t in
      let skipped_rest =
        λ (e : Option Error). save_each dir paths (first_of first e) (failed ++ (path ∷ [])) t in
      elim r [ saved ↦ saved_rest | skipped e ↦ skipped_rest e | aborted e ↦ (some e, t) ]

  unfoldable pub save_filepaths : List Text → Text → S → Option Error × S
  save_filepaths paths dir s =
      let (failed, t) = disk.mkdir_all dir s in
      elim failed [
        | some e ↦ (some (errorf_w (txt "mkdir " ++ dir ++ txt " failed: ") e), t)
        | none ↦ save_each dir paths none [] t
      ]

  -- The directories to download into; their parent is a new one.
  unfoldable pub make_dirs : List Text → Text → S → Option Error × S
  unfolding join
  make_dirs [] dir s = (none, s)
  make_dirs (p ∷ ps) dir s =
      let (failed, t) = disk.mkdir_all (join (dir ∷ p ∷ [])) s in
      let rest = make_dirs ps dir t in
      elim failed [
        | some e ↦
            (some (errorf_v (txt "problem creating " ++ join (dir ∷ p ∷ []) ++ txt ": ") e), t)
        | none ↦ rest
      ]

  abbrev pub remote_dirs : List Text
  remote_dirs = agent.inbound_path ∷ agent.reconciliation_path ∷ agent.return_path ∷ []

  unfoldable pub setup : Text → S → Result Text × S
  setup base_dir s =
      let (made, t) = disk.mkdir_temp base_dir (txt "download") s in
      elim made [
        | err e ↦ (err e, t)
        | ok dir ↦
            let (failed, u) = make_dirs remote_dirs dir t in
            (elim failed [ some e ↦ err e | none ↦ ok dir ], u)
      ]

  -- The files of one kind: their names, and then their contents.
  unfoldable pub download_kind :
      Text → Text → (S → (List Text × Option Error) × S) → Text → S → Option Error × S
  unfolding join
  download_kind kind remote_dir list dir s =
      let (r, t) = list s in
      let (unsaved, u) = save_filepaths r.0 (join (dir ∷ remote_dir ∷ [])) t in
      elim r.1 [
        | some e ↦ (some (errorf_v (txt "problem downloading " ++ kind ++ txt " files: ") e), t)
        | none ↦ (
          elim unsaved [
            | some e ↦ some (errorf_v (txt "problem saving " ++ kind ++ txt " files: ") e)
            | none ↦ none
          ],
          u,
        )
      ]

  -- The next step runs if the one before gave no error.
  abbrev and_next : Option Error × S → (S → Option Error × S) → Option Error × S
  and_next (none, s) next = next s
  and_next (some e, s) next = (some e, s)

  unfoldable pub download_all : Text → S → Option Error × S
  download_all dir s =
      and_next (download_kind (txt "inbound") agent.inbound_path agent.get_inbound_files dir s)
        (λ t.
          and_next
            (download_kind (txt "reconciliation") agent.reconciliation_path
              agent.get_reconciliation_files dir t)
            (download_kind (txt "return") agent.return_path agent.get_return_files dir))

  -- The directory, and an error of the download beside it.
  unfoldable pub copy_files_from_remote : Text → S → (Option Text × Option Error) × S
  copy_files_from_remote base_dir s =
      let (made, t) = setup base_dir s in
      elim made [
        | err e ↦ ((none, some e), t)
        | ok dir ↦ let (failed, u) = download_all dir t in ((some dir, failed), u)
      ]

  abbrev is_empty_dir : Text → S → Bool
  is_empty_dir path s = elim (disk.read_dir path s) [
    | ok [] ↦ true
    | ok (_ ∷ _) ↦ false
    | err e ↦ false
  ]

  unfoldable pub delete_empty_dir : Text → Text → Text → S → Option Error × S
  unfolding join
  delete_empty_dir kind remote_dir dir s =
      let path = join (dir ∷ remote_dir ∷ []) in
      let (failed, t) = disk.remove_all path s in
      if is_empty_dir path s
      then (elim failed [
        | some e ↦ (some (errorf_v (txt "delete " ++ kind ++ txt ": ") e), t)
        | none ↦ (none, t)
      ])
      else (none, s)

  unfoldable pub delete_empty_dirs : Text → S → Option Error × S
  delete_empty_dirs dir s =
      and_next (delete_empty_dir (txt "inbound") agent.inbound_path dir s) (λ t.
        and_next (delete_empty_dir (txt "reconciliation") agent.reconciliation_path dir t)
          (delete_empty_dir (txt "return") agent.return_path dir))

  unfoldable pub delete_files : Text → S → Option Error × S
  delete_files dir s = disk.remove_all dir s
