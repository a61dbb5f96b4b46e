-- ===== src/Merging/Complete.antt =====
-- internal/pipeline/merging.go, WithEachMerged: what is uploaded where no error is reported.
use achgateway.Base.{
  ℕ, ◌+◌, Text, txt, join, Error, ErrorList, list_error, Option, none, some, List, [], ◌∷◌, ◌++◌,
  ◌≡◌, ◌≢◌, refl, ap, subst, sym, ◌∙◌, arith, Option-cases, Bool-cases, inl, inr,
}
use achgateway.Storage.{Chest}
use achgateway.Ach.{AchLib, TreeMap}
use achgateway.Upload.{Agent}
use achgateway.Merging.Mapping.{
  MergedFile, claim_batches, claim_files, claim_nothing, has_entries, find_input_filepaths, sort,
  compact, build_dir_mapping,
}
use achgateway.Merging.Cutoff.{
  Cutoff, flattened, add_error, prepare_files, upload_files, finish, run_loops, merge_dir,
  merge_isolated, setup_dirs,
}

module _ {lib : AchLib} {S : Type 0} (chest : Chest S) (c : Cutoff lib S) where
  -- Each file is offered to the callback, which uploads it with no error, and is noted with the name
  -- that the callback gave.
  pub data Uploaded (agent : Agent S)
      : ℕ → List lib.File → List (MergedFile lib) → S → S → Type 0 where
    done : (i : ℕ) (s : S) → Uploaded agent i [] [] s s
    next :
        {i : ℕ} {file : lib.File} {files : List lib.File} {ms : List (MergedFile lib)} {s u : S}
        (m : MergedFile lib) (t : S)
        → c.callback i agent file s ≡ ((m.uploaded_filename, none), t)
        → m.ach_file ≡ file
        → m.shard ≡ c.shard
        → Uploaded agent (i + 1) files ms t u
        → Uploaded agent i (file ∷ files) (m ∷ ms) s u

  -- The files to upload: as they were merged, or flattened.
  abbrev pub to_upload : List lib.File → List lib.File
  to_upload [] = []
  to_upload (f ∷ files) = (flattened lib chest c f).0 ∷ to_upload files

  prepare_files-to_upload :
      (dir : Text) (files : List lib.File) (s : S)
      → (prepare_files lib chest c dir files s).0.0 ≡ to_upload files
  unfolding prepare_files
  prepare_files-to_upload dir [] s = refl
  prepare_files-to_upload dir (f ∷ files) s =
      ap (λ (fs : List lib.File). (flattened lib chest c f).0 ∷ fs)
        (prepare_files-to_upload dir files _)

  upload_files-failed :
      (i : ℕ) (agent : Agent S) (f : lib.File) (files : List lib.File) (s : S) (e : Error)
      → (c.callback i agent f s).0.1 ≡ some e
      → (upload_files lib chest c i agent (f ∷ files) s).0.1 ≢ []
  unfolding upload_files
  upload_files-failed i agent f files s e h none_failed = ground (arith, h, none_failed)

  upload_files-next :
      (i : ℕ) (agent : Agent S) (f : lib.File) (files : List lib.File) (s : S)
      → (c.callback i agent f s).0.1 ≡ none
      → let (r, t) = c.callback i agent f s in
        let (rest, u) = upload_files lib chest c (i + 1) agent files t in
        let m : MergedFile lib = record {
          input_filepaths = [];
          uploaded_filename = r.0;
          ach_file = f;
          shard = c.shard;
        } in
        upload_files lib chest c i agent (f ∷ files) s ≡ ((m ∷ rest.0, rest.1), u)
  unfolding upload_files
  upload_files-next i agent f files s h = rw (h, upload_files) refl

  upload_files-Uploaded :
      (i : ℕ) (agent : Agent S) (files : List lib.File) (s : S)
      → let (r, t) = upload_files lib chest c i agent files s in
        r.1 ≡ [] → Uploaded agent i files r.0 s t
  unfolding upload_files
  upload_files-Uploaded i agent [] s h = done i s
  upload_files-Uploaded i agent (f ∷ files) s h = elim (Option-cases (c.callback i agent f s).0.1) [
    | inr (e, failed) ↦ absurd (upload_files-failed i agent f files s e failed h)
    | inl e ↦
        let called : (Text × Option Error) × S = c.callback i agent f s in
        let same = upload_files-next i agent f files s e in
        let m : MergedFile lib = record {
          input_filepaths = [];
          uploaded_filename = called.0.0;
          ach_file = f;
          shard = c.shard;
        } in
        subst
          (λ (r : (List (MergedFile lib) × ErrorList) × S).
            Uploaded agent i (f ∷ files) r.0.0 s r.1)
          (sym same)
          (next m called.1 (λ k. ((called.0.0, e k), called.1)) refl refl
            (upload_files-Uploaded (i + 1) agent files called.1 (sym (ap (λ r. r.0.1) same) ∙ h)))
  ]

  no_errors : (join : ErrorList → Error) (el : ErrorList) → list_error join el ≡ none → el ≡ []
  no_errors join [] h = refl
  no_errors join (e ∷ el) h = absurd (cc h)

  left_nil : (xs ys : ErrorList) → xs ++ ys ≡ [] → xs ≡ []
  left_nil [] ys h = refl
  left_nil (x ∷ xs) ys h = absurd (cc h)

  right_nil : (xs ys : ErrorList) → xs ++ ys ≡ [] → ys ≡ []
  right_nil [] ys h = h
  right_nil (x ∷ xs) ys h = absurd (cc h)

  module _ (T : TreeMap) where
    -- The names of the input files are all that is added.
    claim_files-Uploaded :
        {agent : Agent S} {i : ℕ} {files : List lib.File} {ms : List (MergedFile lib)} {s u : S}
        (tree : T.Map)
        → Uploaded agent i files ms s u
        → Uploaded agent i files (claim_files lib T tree ms) s u
    unfolding claim_files
    claim_files-Uploaded tree (done i s) = done i s
    claim_files-Uploaded tree (next m t called file shard rest) =
        let (names, tree') = claim_batches lib T (lib.batches m.ach_file) tree in
        next (record m { input_filepaths = compact (sort (m.input_filepaths ++ names)) }) t called
          file shard (claim_files-Uploaded tree' rest)

    claim_nothing-Uploaded :
        {agent : Agent S} {i : ℕ} {files : List lib.File} {ms : List (MergedFile lib)} {s u : S}
        → Uploaded agent i files ms s u
        → (out : List (MergedFile lib)) → claim_nothing lib T ms ≡ some out
        → Uploaded agent i files out s u
    unfolding claim_nothing
    claim_nothing-Uploaded {agent} (done i s) out h =
        subst (λ (o : List (MergedFile lib)). Uploaded agent i [] o s s) (ground (arith, h))
          (done i s)
    claim_nothing-Uploaded {agent} {i} {files} {u = u}
          (next {ms = ms} {s = s} m t called file shard rest) out h =
        elim (Bool-cases (has_entries lib T (lib.batches m.ach_file))) [
          | inl some_entry ↦ absurd (ground (arith, some_entry, h))
          | inr no_entry ↦ elim (Option-cases (claim_nothing lib T ms)) [
            | inl e ↦ absurd (ground (arith, no_entry, e, h))
            | inr (later, e) ↦
                subst (λ (o : List (MergedFile lib)). Uploaded agent i files o s u)
                  (ground (arith, no_entry, e, h))
                  (next (record m { input_filepaths = compact (sort m.input_filepaths) }) t called
                    file shard (claim_nothing-Uploaded rest later e))
          ]
        ]

    find_input_filepaths-Uploaded :
        {agent : Agent S} {files : List lib.File} {ms out : List (MergedFile lib)} {s u : S}
        (mappings : Option T.Map)
        → Uploaded agent 0 files ms s u
        → find_input_filepaths lib T mappings ms ≡ some out
        → Uploaded agent 0 files out s u
    unfolding find_input_filepaths
    find_input_filepaths-Uploaded {out = out} none all h = claim_nothing-Uploaded all out h
    find_input_filepaths-Uploaded {agent} {files} {s = s} {u = u} (some tree) all h =
        subst (λ (o : List (MergedFile lib)). Uploaded agent 0 files o s u) (ground (arith, h))
          (claim_files-Uploaded tree all)

    run_loops-Uploaded :
        (dir : Text) (canceled : List Text) (files : List lib.File) (el : ErrorList)
        (agent : Agent S) (s : S) {merged : List (MergedFile lib)} {t : S}
        → run_loops lib chest c T dir canceled files el agent s ≡ some ((merged, none), t)
        → (u : S) × Uploaded agent 0 (to_upload files) merged u t
    unfolding run_loops finish
    run_loops-Uploaded dir canceled files el agent s {merged} {t = end} h =
        let (prepared, t) = prepare_files lib chest c (join (dir ∷ txt "uploaded" ∷ [])) files s in
        let (uploaded, u) = upload_files lib chest c 0 agent prepared.0 t in
        let (mappings, failed) = build_dir_mapping lib T chest dir canceled u in
        let before = el ++ prepared.1 ++ uploaded.1 in
        elim (Option-cases (find_input_filepaths lib T mappings uploaded.0)) [
          | inl panics ↦ absurd (ground (arith, panics, h))
          | inr (out, e) ↦
              let same : ◌≡◌ {A = (List (MergedFile lib) × Option Error) × S}
                  ((out, list_error c.join_errors (before ++ add_error failed [])), u)
                  ((merged, none), end) =
                ground (arith, e, h) in
              let none_left : before ++ add_error failed [] ≡ [] =
                no_errors c.join_errors (before ++ add_error failed []) (ap (λ r. r.0.1) same) in
              let none_uploaded : uploaded.1 ≡ [] =
                right_nil (el ++ prepared.1) uploaded.1
                  (left_nil before (add_error failed []) none_left) in
              (
                t,
                subst
                    (λ (r : List lib.File × ((List (MergedFile lib) × Option Error) × S)).
                      Uploaded agent 0 r.0 r.1.0.0 t r.1.1)
                    (λ i. (
                      prepare_files-to_upload (join (dir ∷ txt "uploaded" ∷ [])) files s i,
                      same i,
                    ))
                    (find_input_filepaths-Uploaded mappings
                      (upload_files-Uploaded 0 agent prepared.0 t none_uploaded) e),
              )
        ]

    -- Where the merge of an isolated directory reports no error, every file that ach.MergeDir made,
    -- flattened where that is asked for and goes well, was offered to the callback in turn, which
    -- uploaded it with no error, and the result has exactly one entry for each, with that file and
    -- the name that the callback gave.
    pub merge_isolated_complete :
        (dir : Text) (canceled : List Text) (s : S) {merged : List (MergedFile lib)} {out : S}
        → merge_isolated lib chest c T dir canceled s ≡ some ((merged, none), out)
        → (agent : Agent S) × (u : S) × Uploaded agent 0
            (to_upload (merge_dir lib chest c dir canceled s).0)
            merged
            u
            out
    unfolding merge_isolated
    merge_isolated_complete dir canceled s {merged} {out} h =
        let (files, el) = merge_dir lib chest c dir canceled s in
        let (el', t) = setup_dirs lib chest c dir files s in
        let (agent, u) = c.new_agent t in
        elim (Option-cases agent.1) [
          | inl e ↦
              let (v, all) =
                run_loops-Uploaded dir canceled files (el ++ el') agent.0 u {merged = merged}
                  {t = out} (ground (arith, e, h)) in
              (agent.0, v, all)
          | inr e ↦ absurd (ground (arith, e, h))
        ]
