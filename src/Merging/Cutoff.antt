-- ===== src/Merging/Cutoff.antt =====
-- internal/pipeline/merging.go, WithEachMerged: what a cutoff does with the pending files.
use achgateway.Base.{
  ℕ, ◌+◌, Text, txt, join, Error, ErrorList, ok, err, list_error, errorf_v, errorf_w, Bool, Option,
  none, some, List, [], ◌∷◌, ◌++◌, if◌then◌else◌,
}
use achgateway.Storage.{Chest}
use achgateway.Ach.{AchLib, TreeMap}
use achgateway.Upload.{Agent}
use achgateway.Merging.{isolate_mergable_dir, get_canceled_files}
use achgateway.Merging.Accept.{file_acceptor}
use achgateway.Merging.Mapping.{MergedFile, build_dir_mapping, find_input_filepaths}

-- An error in front of those that follow.
abbrev pub add_error : Option Error → ErrorList → ErrorList
add_error none es = es
add_error (some e) es = e ∷ es

-- The settings of the shard, and what WithEachMerged calls outside this file: the time, SHA-256 in
-- hex, the message of a base.ErrorList, upload.New and the callback.
pub record Cutoff (lib : AchLib) (S : Type 0) : Type 0 where
  pub shard : Text
  pub conditions : Option lib.Conditions
  pub flatten : Bool
  pub now : Text
  pub hash : Text → Text
  pub join_errors : ErrorList → Error
  pub new_agent : S → (Agent S × Option Error) × S
  pub callback : ℕ → Agent S → lib.File → S → (Text × Option Error) × S

module _ (lib : AchLib) {S : Type 0} (chest : Chest S) (c : Cutoff lib S) where
  -- The second half of saveMergedFile: the options beside the file.
  unfoldable pub save_validation : Text → Text → Option lib.ValidateOpts → S → Option Error × S
  unfolding join
  save_validation dir name none s = (none, s)
  save_validation dir name (some opts) s =
      let (contents, bad) = lib.encode_opts opts in
      let (failed, t) = chest.write_file (join (dir ∷ (name ++ txt ".json") ∷ [])) contents s in
      elim bad [
        | some e ↦ (some (errorf_w (txt "marshal of merged ACH file validate opts: ") e), s)
        | none ↦ elim failed [
          | some e ↦ (some (errorf_w (txt "writing merged ACH file validate opts: ") e), t)
          | none ↦ (none, t)
        ]
      ]

  unfoldable pub save_merged_file : Text → lib.File → S → Option Error × S
  unfolding save_validation join
  save_merged_file dir file s =
      let (contents, bad) = lib.write (some file) in
      let name = c.hash contents in
      let (failed, t) = chest.write_file (join (dir ∷ (name ++ txt ".ach") ∷ [])) contents s in
      elim bad [
        | some e ↦ (some (errorf_w (txt "unable to buffer ACH file: ") e), s)
        | none ↦ elim failed [
          | some e ↦ (some (errorf_w (txt "writing merged ACH file: ") e), t)
          | none ↦ save_validation dir name (lib.get_validation (some file)) t
        ]
      ]

  -- The file to upload: flattened where that is asked for and goes well.
  unfoldable pub flattened : lib.File → lib.File × Option Error
  flattened file =
      if c.flatten
      then (elim (lib.flatten_batches file).1 [
        | none ↦ ((lib.flatten_batches file).0, none)
        | some e ↦ (file, some e)
      ])
      else (file, none)

  abbrev save_problem : Option Error → Option Error
  save_problem none = none
  save_problem (some e) = some (errorf_v (txt "problem writing merged file: ") e)

  -- The first loop: files[i] is replaced, and an error goes on to the next file.
  unfoldable pub prepare_files : Text → List lib.File → S → (List lib.File × ErrorList) × S
  prepare_files dir [] s = (([], []), s)
  prepare_files dir (file ∷ files) s =
      let (file', unflat) = flattened file in
      let (unsaved, t) = save_merged_file dir file' s in
      let (rest, u) = prepare_files dir files t in
      ((file' ∷ rest.0, add_error unflat (add_error (save_problem unsaved) rest.1)), u)

  -- The second loop: every file is offered to the callback.
  unfoldable pub upload_files :
      ℕ → Agent S → List lib.File → S → (List (MergedFile lib) × ErrorList) × S
  upload_files i agent [] s = (([], []), s)
  upload_files i agent (file ∷ files) s =
      let (r, t) = c.callback i agent file s in
      let (rest, u) = upload_files (i + 1) agent files t in
      elim r.1 [
        | some e ↦ ((rest.0, errorf_v (txt "problem from callback: ") e ∷ rest.1), u)
        | none ↦
            let merged : MergedFile lib = record {
              input_filepaths = [];
              uploaded_filename = r.0;
              ach_file = file;
              shard = c.shard;
            } in
            ((merged ∷ rest.0, rest.1), u)
      ]

  abbrev conditions_or_none : Option lib.Conditions → lib.Conditions
  conditions_or_none none = lib.no_conditions
  conditions_or_none (some cs) = cs

  -- ach.MergeDir with the options of createMergeDirOptions.
  unfoldable pub merge_dir : Text → List Text → S → List lib.File × ErrorList
  unfolding file_acceptor
  merge_dir dir canceled s =
      let (files, bad) =
        lib.merge_dir S chest s dir (conditions_or_none c.conditions) (file_acceptor canceled) in
      elim bad [
        | none ↦ (files, [])
        | some e ↦ (files, errorf_v (txt "unable to merge files: ") e ∷ [])
      ]

  -- The directory goes where nothing was merged. The inner directory is made in either case.
  unfoldable pub setup_dirs : Text → List lib.File → S → ErrorList × S
  unfolding join
  setup_dirs dir [] s =
      let (failed, t) = chest.rmdir_all dir s in
      (add_error failed [], (chest.mkdir_all (join (dir ∷ txt "uploaded" ∷ [])) t).1)
  setup_dirs dir (_ ∷ _) s = ([], (chest.mkdir_all (join (dir ∷ txt "uploaded" ∷ [])) s).1)

  module _ (T : TreeMap) where
    -- What follows the uploads: the names of the input files that went into each merged file. It
    -- panics where these are looked up in the nil map of a failed buildDirMapping: `none`.
    unfoldable pub finish :
        Text
        → List Text
        → List (MergedFile lib)
        → ErrorList
        → S
        → Option ((List (MergedFile lib) × Option Error) × S)
    finish dir canceled merged el s =
        let (mappings, failed) = build_dir_mapping lib T chest dir canceled s in
        elim (find_input_filepaths lib T mappings merged) [
          | none ↦ none
          | some out ↦ some ((out, list_error c.join_errors (el ++ add_error failed [])), s)
        ]

    -- The loops, once the agent is there.
    unfoldable pub run_loops :
        Text
        → List Text
        → List lib.File
        → ErrorList
        → Agent S
        → S
        → Option ((List (MergedFile lib) × Option Error) × S)
    run_loops dir canceled files el agent s =
        let (prepared, t) = prepare_files (join (dir ∷ txt "uploaded" ∷ [])) files s in
        let (uploaded, u) = upload_files 0 agent prepared.0 t in
        finish dir canceled uploaded.0 (el ++ prepared.1 ++ uploaded.1) u

    unfoldable pub merge_isolated :
        Text → List Text → S → Option ((List (MergedFile lib) × Option Error) × S)
    merge_isolated dir canceled s =
        let (files, el) = merge_dir dir canceled s in
        let (el', t) = setup_dirs dir files s in
        let (agent, u) = c.new_agent t in
        elim agent.1 [
          | some e ↦ some (([], some (errorf_v (c.shard ++ txt " merging agent: ") e)), u)
          | none ↦ run_loops dir canceled files (el ++ el') agent.0 u
        ]

    unfoldable pub with_each_merged : S → Option ((List (MergedFile lib) × Option Error) × S)
    with_each_merged s =
        let (isolated, t) = isolate_mergable_dir chest c.shard c.now s in
        elim isolated.1 [
          | some e ↦ some (
            (
              [],
              some (errorf_v (txt "problem isolating newdir=" ++ (isolated.0 ++ txt " error=")) e),
            ),
            t,
          )
          | none ↦ elim (get_canceled_files chest c.shard isolated.0 t) [
            | err e ↦ some (
              (
                [],
                some (
                    errorf_w (txt "problem listing " ++ (isolated.0 ++ txt " for canceled files: "))
                      e),
              ),
              t,
            )
            | ok canceled ↦ merge_isolated isolated.0 canceled t
          ]
        ]
