-- ===== src/Odfi/Safety.antt =====
-- What a round of internal/incoming/odfi/scheduler.go leaves alone, and what a download without an
-- error has saved.
use achgateway.Base.{
  Text, join, base, Error, Option-cases, inl, inr, Option, none, some, List, [], ◌∷◌, ◌++◌, ◌≡◌,
  ◌≢◌, refl, sym, ap, subst, ◌∙◌, arith,
}
use achgateway.Odfi.{Disk, AchReader}
use achgateway.Odfi.Download.{
  Saved, first_of, saved, skipped, aborted, finish_file, copy_file, read_and_copy, save_file,
  save_each, save_filepaths, remote_dirs, copy_files_from_remote,
}
use achgateway.Odfi.Keeps.{Keeps, copy_files_from_remote-kept}
use achgateway.Odfi.KeepsProcess.{Quiet, process_files-kept}
use achgateway.Odfi.Process.{process_files}
use achgateway.Odfi.Scheduler.{PeriodicScheduler, process_and_clean, download_and_process}
use achgateway.Upload.{Agent, File}

module _ {S : Type 0} (disk : Disk S) (agent : Agent S) where
  -- A remote file is saved: a local file is created, the remote one read, its contents copied into the
  -- local file, and both closed, each with no error.
  pub record IsSaved (dir path : Text) (s v : S) : Type 0 where
    pub file : File
    pub made : S
    pub had : S
    pub copy : S
    pub synced : S
    pub shut : S
    pub is_created : disk.create (join (dir ∷ base path ∷ [])) s ≡ (none, made)
    pub is_read : agent.read_file path made ≡ ((some file, none), had)
    pub is_copied : disk.copy (join (dir ∷ base path ∷ [])) file.contents had ≡ (none, copy)
    pub is_synced : disk.sync (join (dir ∷ base path ∷ [])) copy ≡ (none, synced)
    pub is_closed : disk.close (join (dir ∷ base path ∷ [])) synced ≡ (none, shut)
    pub is_left : disk.close_file file shut ≡ (none, v)

  finish_file-saved :
      (out : Text) (file : File) (copied : Option Error) (s : S) {v : S}
      → finish_file disk agent out file copied s ≡ (saved, v)
      → (copied ≡ none)
        × (disk.sync out s ≡ (none, (disk.sync out s).1))
        × (disk.close out (disk.sync out s).1 ≡ (none, (disk.close out (disk.sync out s).1).1))
        × (disk.close_file file (disk.close out (disk.sync out s).1).1 ≡ (none, v))
  unfolding finish_file
  finish_file-saved out file copied s h =
      (ground (arith, h), ground (arith, h), ground (arith, h), ground (arith, h))

  save_file-IsSaved :
      (dir path : Text) (s : S) {v : S}
      → save_file disk agent dir path s ≡ (saved, v)
      → IsSaved dir path s v
  unfolding save_file read_and_copy copy_file
  save_file-IsSaved dir path s {v} h =
      let out : Text = join (dir ∷ base path ∷ []) in
      let made : Option Error × S = disk.create out s in
      let had : (Option File × Option Error) × S = agent.read_file path made.1 in
      elim (Option-cases made.0) [
        | inr (x, e) ↦ absurd (ground (arith, e, h))
        | inl e ↦ elim (Option-cases had.0.1) [
          | inr (x, e') ↦ absurd (ground (arith, e, e', h))
          | inl e' ↦ elim (Option-cases had.0.0) [
            | inl f ↦ absurd (ground (arith, e, e', f, h))
            | inr (file, f) ↦
                let copied : Option Error × S = disk.copy out file.contents had.1 in
                let (all, synced, closed, left) =
                  finish_file-saved out file copied.0 copied.1 (ground (arith, e, e', f, h)) in
                record {
                  file = file;
                  made = made.1;
                  had = had.1;
                  copy = copied.1;
                  synced = (disk.sync out copied.1).1;
                  shut = (disk.close out (disk.sync out copied.1).1).1;
                  is_created = ground (arith, e);
                  is_read = ground (arith, e', f);
                  is_copied = ground (arith, all);
                  is_synced = synced;
                  is_closed = closed;
                  is_left = left;
                }
          ]
        ]
      ]

  -- Every file of a list is saved, one after the other.
  pub data Saves (dir : Text) : List Text → S → S → Type 0 where
    done : (s : S) → Saves dir [] s s
    next :
        {paths : List Text} {u : S} (path : Text) (s t : S)
        → IsSaved dir path s t
        → Saves dir paths t u
        → Saves dir (path ∷ paths) s u

  module _ (dir path : Text) (paths : List Text) (first : Option Error) (failed : List Text) (s : S)
      {t : S} where
    save_each-saved :
        save_file disk agent dir path s ≡ (saved, t)
        → save_each disk agent dir (path ∷ paths) first failed s
          ≡ save_each disk agent dir paths first failed t
    unfolding save_each
    save_each-saved h = ground (arith, h)

    save_each-skipped :
        (e : Option Error)
        → save_file disk agent dir path s ≡ (skipped e, t)
        → save_each disk agent dir (path ∷ paths) first failed s
          ≡ save_each disk agent dir paths (first_of first e) (failed ++ (path ∷ [])) t
    unfolding save_each
    save_each-skipped e h = ground (arith, h)

    save_each-aborted :
        (e : Error)
        → save_file disk agent dir path s ≡ (aborted e, t)
        → save_each disk agent dir (path ∷ paths) first failed s ≡ (some e, t)
    unfolding save_each
    save_each-aborted e h = ground (arith, h)

  snoc≢nil : (xs : List Text) (x : Text) → xs ++ (x ∷ []) ≢ []
  snoc≢nil [] x h = cc h
  snoc≢nil (y ∷ xs) x h = cc h

  -- Once a name has failed, the loop ends with an error.
  save_each-failed :
      (dir : Text) (paths : List Text) (first : Option Error) (failed : List Text) (s : S)
      → failed ≢ []
      → (save_each disk agent dir paths first failed s).0 ≢ none
  unfolding save_each
  save_each-failed dir [] first [] s h = ground (arith, h)
  save_each-failed dir [] first (p ∷ failed) s h = ground (arith)
  save_each-failed dir (path ∷ paths) first failed s h =
      split
        (λ (f : Option Error) (xs : List Text) (u : S) (ne : xs ≢ []).
          save_each-failed dir paths f xs u ne)
        (save_file disk agent dir path s) refl
    where
      split :
          ((f : Option Error) (xs : List Text) (u : S)
            → xs ≢ []
            → (save_each disk agent dir paths f xs u).0 ≢ none)
          → (r : Saved × S) → save_file disk agent dir path s ≡ r
          → (save_each disk agent dir (path ∷ paths) first failed s).0 ≢ none
      split later (saved, t) e =
          rw (save_each-saved dir path paths first failed s e) (later first failed t h)
      split later (skipped x, t) e =
          rw (save_each-skipped dir path paths first failed s x e)
            (later (first_of first x) (failed ++ (path ∷ [])) t (snoc≢nil failed path))
      split later (aborted x, t) e =
          rw (save_each-aborted dir path paths first failed s x e) (λ h'. cc h')

  save_each-Saves :
      (dir : Text) (paths : List Text) (first : Option Error) (s : S) {t : S}
      → save_each disk agent dir paths first [] s ≡ (none, t)
      → Saves dir paths s t
  unfolding save_each
  save_each-Saves dir [] first s {t} h =
      subst (Saves dir [] s) (ap (λ (r : Option Error × S). r.1) h) (done s)
  save_each-Saves dir (path ∷ paths) first s {t} h =
      split (λ (u : S). save_each-Saves dir paths first u) (save_file disk agent dir path s) refl
    where
      split :
          ((u : S) → save_each disk agent dir paths first [] u ≡ (none, t) → Saves dir paths u t)
          → (r : Saved × S) → save_file disk agent dir path s ≡ r
          → Saves dir (path ∷ paths) s t
      split later (saved, u) e =
          next path s u (save_file-IsSaved dir path s e)
            (later u (sym (save_each-saved dir path paths first [] s e) ∙ h))
      split later (skipped x, u) e = absurd (
          save_each-failed dir paths (first_of first x) (path ∷ []) u (λ h'. cc h')
            (ap (λ (r : Option Error × S). r.0)
              (sym (save_each-skipped dir path paths first [] s x e) ∙ h)))
      split later (aborted x, u) e =
          absurd (cc (sym (save_each-aborted dir path paths first [] s x e) ∙ h))

  -- A directory that is filled without an error has every file of the list: each one was created,
  -- read, copied, synced and closed, in the order of the list.
  pub save_filepaths-Saves :
      (paths : List Text) (dir : Text) (s : S) {t : S}
      → save_filepaths disk agent paths dir s ≡ (none, t)
      → Saves dir paths (disk.mkdir_all dir s).1 t
  unfolding save_filepaths
  save_filepaths-Saves paths dir s {t} h = elim (Option-cases (disk.mkdir_all dir s).0) [
    | inl e ↦ save_each-Saves dir paths none (disk.mkdir_all dir s).1 (ground (arith, e, h))
    | inr (x, e) ↦ absurd (ground (arith, e, h))
  ]

module _ (lib : AchReader) {S : Type 0} {V : Type 0} (disk : Disk S)
    (sched : PeriodicScheduler lib S) (agent : Agent S) where
  -- For a view of the state that no local file operation, no listing or reading of remote files, no
  -- processor, no alert and no audit record changes, such as the files on the remote server: a
  -- round that changes it has copied the remote files and processed them, both without an error,
  -- and the audit storage was set up.
  pub remote_files_wait :
      (remote : S → V) (s : S)
      → Keeps disk agent remote
      → Quiet lib (sched.env agent.hostname) sched.processors remote
      → remote (download_and_process lib disk sched agent s).1 ≢ remote s
      → (dir : Text) × (t : S) × (copy_files_from_remote disk agent sched.storage.directory s
          ≡ ((some dir, none), t))
        × (sched.audit_problem agent.hostname ≡ none)
        × ((process_files lib disk
              (sched.env agent.hostname)
              sched.validation
              sched.processors
              dir
              (remote_dirs disk agent)
              t).0
            ≡ none)
  unfolding download_and_process process_and_clean
  remote_files_wait remote s keeps quiet changed =
      let r : (Option Text × Option Error) × S =
        copy_files_from_remote disk agent sched.storage.directory s in
      let copied : remote r.1 ≡ remote s =
        copy_files_from_remote-kept disk agent remote keeps sched.storage.directory s in
      elim (Option-cases r.0.1) [
        | inr (x, e) ↦ absurd (ground (arith, e, copied, changed))
        | inl e ↦ elim (Option-cases r.0.0) [
          | inl e' ↦ absurd (ground (arith, e, e', copied, changed))
          | inr (dir, e') ↦
              let done : remote
                    (process_files lib disk (sched.env agent.hostname) sched.validation
                      sched.processors dir (remote_dirs disk agent) r.1).1
                  ≡ remote r.1 =
                process_files-kept lib disk (sched.env agent.hostname) sched.processors remote quiet
                  sched.validation dir (remote_dirs disk agent) r.1 in
              elim (Option-cases (sched.audit_problem agent.hostname)) [
                | inr (x, f) ↦ absurd (ground (arith, e, e', f, copied, changed))
                | inl f ↦
                    elim (Option-cases
                      (process_files lib disk (sched.env agent.hostname) sched.validation
                        sched.processors dir (remote_dirs disk agent) r.1).0) [
                          | inr (x, g) ↦ absurd (ground (arith, e, e', f, g, copied, done, changed))
                          | inl g ↦ (dir, r.1, ground (arith, e, e'), f, g)
                        ]
              ]
        ]
      ]
