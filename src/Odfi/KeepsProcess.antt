-- ===== src/Odfi/KeepsProcess.antt =====
-- A view of the state that the processors have no part in, through the processing of downloaded files
-- (internal/incoming/odfi/processor.go).
use achgateway.Base.{
  Text, join, trim_space, Error, Result-cases, Option, some, Option-cases, inl, inr, All, List, [],
  ◌∷◌, ◌≡◌, refl, ◌∙◌, arith,
}
use achgateway.Odfi.{Disk, AchReader, ValidateOpts}
use achgateway.Odfi.Process.{
  FileProcessor, Processing, handle_each, handle_all, save_audit, audit_path, prepared,
  default_opts, run_processors, audit_and_run, process_file, process_each, process_dir,
  process_dirs, process_files,
}
use achgateway.Storage.{DirEntry}

-- Neither a processor nor an alert nor the audit storage changes the view.
pub record Quiet (lib : AchReader) {S : Type 0} {V : Type 0} (env : Processing S)
    (pcs : List (FileProcessor lib.File S)) (view : S → V) : Type 0 where
  pub handle :
      (path : Text) (file : lib.File)
      → All (λ (p : FileProcessor lib.File S). (u : S) → view (p.handle path file u).1 ≡ view u) pcs
  pub alert : (e : Error) (s : S) → view (env.alert e s).1 ≡ view s
  pub save :
      (save : Text → Text → S → Option Error × S) (path contents : Text) (s : S)
      → env.audit ≡ some save
      → view (save path contents s).1 ≡ view s

module _ (lib : AchReader) {S : Type 0} {V : Type 0} (disk : Disk S) (env : Processing S)
    (pcs : List (FileProcessor lib.File S)) (view : S → V) (quiet : Quiet lib env pcs view) where
  handle_each-kept :
      (path : Text) (file : lib.File) (procs : List (FileProcessor lib.File S)) (s : S)
      → All
          (λ (p : FileProcessor lib.File S). (u : S) → view (p.handle path file u).1 ≡ view u)
          procs
      → view (handle_each lib disk env procs path file s).1 ≡ view s
  unfolding handle_each
  handle_each-kept path file [] s all = refl
  handle_each-kept path file (p ∷ procs) s all =
      handle_each-kept path file procs (p.handle path file s).1 all.1 ∙ all.0 s

  run_processors-kept :
      (path : Text) (file : lib.File) (s : S)
      → view (run_processors lib disk env pcs path file s).1 ≡ view s
  unfolding run_processors handle_all
  run_processors-kept path file s =
      let kept : view (handle_each lib disk env pcs path file s).1 ≡ view s =
        handle_each-kept path file pcs s (quiet.handle path file) in
      let t : S = (handle_each lib disk env pcs path file s).1 in
      elim (Option-cases (handle_all lib disk env pcs path file s).0) [
        | inl e ↦ ground (arith, e, kept)
        | inr (x, e) ↦ ground (arith, e, kept, quiet.alert x t)
      ]

  save_audit-kept :
      (path contents : Text) (s : S) → view (save_audit lib disk env path contents s).1 ≡ view s
  unfolding save_audit
  save_audit-kept path [] s = refl
  save_audit-kept path (c ∷ contents) s = elim (Option-cases env.audit) [
    | inl e ↦ ground (arith, e)
    | inr (save, e) ↦ ground (arith, e, quiet.save save path (c ∷ contents) s e)
  ]

  audit_and_run-kept :
      (path contents : Text) (file : lib.File) (s : S)
      → view (audit_and_run lib disk env pcs path contents file s).1 ≡ view s
  unfolding audit_and_run
  audit_and_run-kept path contents file s =
      let where_ : Text = audit_path lib disk env path in
      let t : S = (save_audit lib disk env where_ contents s).1 in
      ground (
        arith,
        save_audit-kept where_ contents s,
        run_processors-kept path (prepared lib disk env contents file) t,
      )

  process_file-kept :
      (opts : ValidateOpts) (path : Text) (s : S)
      → view (process_file lib disk env opts pcs path s).1 ≡ view s
  unfolding process_file
  process_file-kept opts path s = elim (Result-cases (disk.read_file path s)) [
    | inl (raw, e) ↦
        let contents : Text = trim_space raw in
        let file : lib.File = (lib.read (default_opts lib disk env opts) contents).0 in
        ground (arith, e, audit_and_run-kept path contents file s)
    | inr (x, e) ↦ ground (arith, e)
  ]

  process_each-kept :
      (opts : ValidateOpts) (dir : Text) (infos : List DirEntry) (s : S)
      → view (process_each lib disk env opts pcs dir infos s).1 ≡ view s
  unfolding process_each
  process_each-kept opts dir [] s = refl
  process_each-kept opts dir (info ∷ infos) s =
      let path : Text = join (dir ∷ info.name ∷ []) in
      process_each-kept opts dir infos (process_file lib disk env opts pcs path s).1
      ∙ process_file-kept opts path s

  process_dir-kept :
      (opts : ValidateOpts) (dir : Text) (s : S)
      → view (process_dir lib disk env opts pcs dir s).1 ≡ view s
  unfolding process_dir
  process_dir-kept opts dir s = elim (Result-cases (disk.read_dir dir s)) [
    | inl (infos, e) ↦ ground (arith, e, process_each-kept opts dir infos s)
    | inr (x, e) ↦ ground (arith, e)
  ]

  process_dirs-kept :
      (opts : ValidateOpts) (dir : Text) (ps : List Text) (s : S)
      → view (process_dirs lib disk env opts pcs dir ps s).1 ≡ view s
  unfolding process_dirs
  process_dirs-kept opts dir [] s = refl
  process_dirs-kept opts dir (p ∷ ps) s =
      let path : Text = join (dir ∷ p ∷ []) in
      process_dirs-kept opts dir ps (process_dir lib disk env opts pcs path s).1
      ∙ process_dir-kept opts path s

  pub process_files-kept :
      (opts : ValidateOpts) (dir : Text) (ps : List Text) (s : S)
      → view (process_files lib disk env opts pcs dir ps s).1 ≡ view s
  unfolding process_files
  process_files-kept opts dir ps s = process_dirs-kept opts dir ps s
