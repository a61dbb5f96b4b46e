-- ===== src/Odfi/Keeps.antt =====
-- A view of the state that the local files have no part in, such as the files of the remote server,
-- through the download and the processing of internal/incoming/odfi.
use achgateway.Base.{
  Text, txt, base, join, Error, Option, none, Option-cases, Result-cases, inl, inr, List, [], ◌∷◌,
  ◌++◌, ◌≡◌, refl, ◌∙◌, ◌⊎◌, arith,
}
use achgateway.Odfi.{Disk}
use achgateway.Odfi.Download.{
  Saved, first_of, saved, skipped, aborted, finish_file, copy_file, read_and_copy, save_file,
  save_each, save_filepaths, make_dirs, setup, remote_dirs, download_kind, download_all,
  copy_files_from_remote,
}
use achgateway.Upload.{Agent, File}

-- No call of package os changes the view, and neither does listing or reading remote files.
pub record Keeps {S : Type 0} {V : Type 0} (disk : Disk S) (agent : Agent S) (view : S → V)
    : Type 0 where
  pub mkdir_temp : (dir name : Text) (s : S) → view (disk.mkdir_temp dir name s).1 ≡ view s
  pub mkdir_all : (path : Text) (s : S) → view (disk.mkdir_all path s).1 ≡ view s
  pub create : (path : Text) (s : S) → view (disk.create path s).1 ≡ view s
  pub copy : (path contents : Text) (s : S) → view (disk.copy path contents s).1 ≡ view s
  pub sync : (path : Text) (s : S) → view (disk.sync path s).1 ≡ view s
  pub close : (path : Text) (s : S) → view (disk.close path s).1 ≡ view s
  pub close_file : (file : File) (s : S) → view (disk.close_file file s).1 ≡ view s
  pub get_inbound_files : (s : S) → view (agent.get_inbound_files s).1 ≡ view s
  pub get_reconciliation_files : (s : S) → view (agent.get_reconciliation_files s).1 ≡ view s
  pub get_return_files : (s : S) → view (agent.get_return_files s).1 ≡ view s
  pub read_file : (path : Text) (s : S) → view (agent.read_file path s).1 ≡ view s

Saved-cases :
    (r : Saved)
    → (r ≡ saved) ⊎ (((e : Option Error) × (r ≡ skipped e)) ⊎ ((e : Error) × (r ≡ aborted e)))
Saved-cases saved = inl refl
Saved-cases (skipped e) = inr (inl (e, refl))
Saved-cases (aborted e) = inr (inr (e, refl))

module _ {S : Type 0} {V : Type 0} (disk : Disk S) (agent : Agent S) (view : S → V)
    (keeps : Keeps disk agent view) where
  finish_file-kept :
      (out : Text) (file : File) (copied : Option Error) (s : S)
      → view (finish_file disk agent out file copied s).1 ≡ view s
  unfolding finish_file
  finish_file-kept out file copied s =
      let t : S = (disk.sync out s).1 in
      let u : S = (disk.close out t).1 in
      ground (arith, keeps.sync out s, keeps.close out t, keeps.close_file file u)

  copy_file-kept :
      (out : Text) (file : File) (s : S) → view (copy_file disk agent out file s).1 ≡ view s
  unfolding copy_file
  copy_file-kept out file s =
      let r : Option Error × S = disk.copy out file.contents s in
      finish_file-kept out file r.0 r.1 ∙ keeps.copy out file.contents s

  read_and_copy-kept :
      (out path : Text) (s : S) → view (read_and_copy disk agent out path s).1 ≡ view s
  unfolding read_and_copy
  read_and_copy-kept out path s =
      let t : S = (agent.read_file path s).1 in
      elim (Option-cases (agent.read_file path s).0.0) [
        | inl e ↦ ground (arith, e, keeps.read_file path s)
        | inr (file, e) ↦ ground (arith, e, keeps.read_file path s, copy_file-kept out file t)
      ]

  save_file-kept : (dir path : Text) (s : S) → view (save_file disk agent dir path s).1 ≡ view s
  unfolding save_file
  save_file-kept dir path s =
      let out : Text = join (dir ∷ base path ∷ []) in
      ground (arith, keeps.create out s, read_and_copy-kept out path (disk.create out s).1)

  save_each-kept :
      (dir : Text) (paths : List Text) (first : Option Error) (failed : List Text) (s : S)
      → view (save_each disk agent dir paths first failed s).1 ≡ view s
  unfolding save_each
  save_each-kept dir [] first failed s = refl
  save_each-kept dir (path ∷ paths) first failed s =
      let t : S = (save_file disk agent dir path s).1 in
      elim (Saved-cases (save_file disk agent dir path s).0) [
        | inl e ↦
            ground (arith, e, save_file-kept dir path s, save_each-kept dir paths first failed t)
        | inr (inl (x, e)) ↦ ground (
          arith,
          e,
          save_file-kept dir path s,
          save_each-kept dir paths (first_of first x) (failed ++ (path ∷ [])) t,
        )
        | inr (inr (x, e)) ↦ ground (arith, e, save_file-kept dir path s)
      ]

  save_filepaths-kept :
      (paths : List Text) (dir : Text) (s : S)
      → view (save_filepaths disk agent paths dir s).1 ≡ view s
  unfolding save_filepaths
  save_filepaths-kept paths dir s =
      ground
        (arith, keeps.mkdir_all dir s, save_each-kept dir paths none [] (disk.mkdir_all dir s).1)

  make_dirs-kept :
      (ps : List Text) (dir : Text) (s : S) → view (make_dirs disk agent ps dir s).1 ≡ view s
  unfolding make_dirs
  make_dirs-kept [] dir s = refl
  make_dirs-kept (p ∷ ps) dir s =
      let path : Text = join (dir ∷ p ∷ []) in
      ground (arith, keeps.mkdir_all path s, make_dirs-kept ps dir (disk.mkdir_all path s).1)

  setup-kept : (base_dir : Text) (s : S) → view (setup disk agent base_dir s).1 ≡ view s
  unfolding setup
  setup-kept base_dir s =
      let t : S = (disk.mkdir_temp base_dir (txt "download") s).1 in
      elim (Result-cases (disk.mkdir_temp base_dir (txt "download") s).0) [
        | inl (dir, e) ↦ ground (
          arith,
          e,
          keeps.mkdir_temp base_dir (txt "download") s,
          make_dirs-kept (remote_dirs disk agent) dir t,
        )
        | inr (x, e) ↦ ground (arith, e, keeps.mkdir_temp base_dir (txt "download") s)
      ]

  download_kind-kept :
      (kind remote_dir : Text) (list : S → (List Text × Option Error) × S) (dir : Text)
      → ((s : S) → view (list s).1 ≡ view s)
      → (s : S) → view (download_kind disk agent kind remote_dir list dir s).1 ≡ view s
  unfolding download_kind
  download_kind-kept kind remote_dir list dir listed s =
      ground (
        arith,
        listed s,
        save_filepaths-kept (list s).0.0 (join (dir ∷ remote_dir ∷ [])) (list s).1,
      )

  download_all-kept : (dir : Text) (s : S) → view (download_all disk agent dir s).1 ≡ view s
  unfolding download_all
  download_all-kept dir s =
      let (_, t) =
        download_kind disk agent (txt "inbound") agent.inbound_path agent.get_inbound_files dir s in
      let (_, u) =
        download_kind disk agent (txt "reconciliation") agent.reconciliation_path
          agent.get_reconciliation_files dir t in
      ground (
        arith,
        download_kind-kept (txt "inbound") agent.inbound_path agent.get_inbound_files dir
            keeps.get_inbound_files s,
        download_kind-kept (txt "reconciliation") agent.reconciliation_path
            agent.get_reconciliation_files dir keeps.get_reconciliation_files t,
        download_kind-kept (txt "return") agent.return_path agent.get_return_files dir
            keeps.get_return_files u,
      )

  pub copy_files_from_remote-kept :
      (base_dir : Text) (s : S) → view (copy_files_from_remote disk agent base_dir s).1 ≡ view s
  unfolding copy_files_from_remote
  copy_files_from_remote-kept base_dir s = elim (Result-cases (setup disk agent base_dir s).0) [
    | inl (dir, e) ↦
        ground
          (arith, e, setup-kept base_dir s, download_all-kept dir (setup disk agent base_dir s).1)
    | inr (x, e) ↦ ground (arith, e, setup-kept base_dir s)
  ]
