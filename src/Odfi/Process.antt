-- ===== src/Odfi/Process.antt =====
-- internal/incoming/odfi/processor.go: each downloaded file is read, audited and handed to every
-- processor.
use achgateway.Base.{
  Text, txt, base, join, split, trim_space, Error, ErrorList, ok, err, list_error, errorf_v,
  errorf_w, true, Option, none, some, List, [], ◌∷◌, ◌++◌, if◌then◌else◌,
}
use achgateway.Merging.Cutoff.{add_error}
use achgateway.Models.{Event}
use achgateway.Odfi.{Disk, ValidateOpts, AchReader}
use achgateway.Odfi.Events.{
  OdfiCorrections, OdfiIncoming, OdfiReconciliation, OdfiPrenotes, OdfiReturns, handle_correction,
  handle_return, handle_prenotes, handle_incoming, handle_reconciliation, Schedule,
}
use achgateway.Storage.{DirEntry}

-- FileProcessor: its Type() and its Handle.
pub record FileProcessor (F S : Type 0) : Type 0 where
  pub kind : Text
  pub handle : Text → F → S → Option Error × S

-- SetupProcessors: a processor that is not enabled is a nil pointer.
unfoldable pub setup_processors :
    {F S : Type 0} → List (Option (FileProcessor F S)) → List (FileProcessor F S)
setup_processors [] = []
setup_processors (none ∷ pcs) = setup_processors pcs
setup_processors (some pc ∷ pcs) = pc ∷ setup_processors pcs

module _ (lib : AchReader) {S : Type 0} (svc : Option (Event lib.File → S → Option Error × S)) where
  unfoldable pub correction_emitter : OdfiCorrections → Option (FileProcessor lib.File S)
  correction_emitter cfg =
      if cfg.enabled
      then some (record { kind = txt "correction"; handle = handle_correction lib svc cfg })
      else none

  unfoldable pub return_emitter : OdfiReturns → Option (FileProcessor lib.File S)
  return_emitter cfg =
      if cfg.enabled
      then some (record { kind = txt "return"; handle = handle_return lib svc cfg })
      else none

  unfoldable pub prenote_emitter : OdfiPrenotes → Option (FileProcessor lib.File S)
  prenote_emitter cfg =
      if cfg.enabled
      then some (record { kind = txt "prenote"; handle = handle_prenotes lib svc cfg })
      else none

  unfoldable pub incoming_emitter :
      OdfiIncoming → OdfiReconciliation → Option (FileProcessor lib.File S)
  incoming_emitter cfg recon =
      if cfg.enabled
      then some (record { kind = txt "incoming"; handle = handle_incoming lib svc cfg recon })
      else none

  unfoldable pub credit_reconciliation_emitter :
      Schedule lib svc
      → (Error → List Error → Error)
      → OdfiReconciliation
      → Option (FileProcessor lib.File S)
  credit_reconciliation_emitter schedule pick cfg =
      if cfg.enabled
      then some (record {
        kind = txt "CreditReconciliation";
        handle = λ path file. handle_reconciliation lib svc schedule pick cfg path (some file);
      })
      else none

-- What processing calls outside: the audit storage with the agent's host name (nil where there is no
-- audit), the alerters, the date, SHA-1 in hex, and the message of a base.ErrorList.
pub record Processing (S : Type 0) : Type 0 where
  pub audit : Option (Text → Text → S → Option Error × S)
  pub hostname : Text
  pub alert : Error → S → Option Error × S
  pub today : Text
  pub hash : Text → Text
  pub join_errors : ErrorList → Error

module _ (lib : AchReader) {S : Type 0} (disk : Disk S) (env : Processing S) where
  abbrev pub list_of : ErrorList → Option Error
  list_of es = list_error env.join_errors es

  unfoldable pub handle_each : List (FileProcessor lib.File S) → Text → lib.File → S → ErrorList × S
  handle_each [] path file s = ([], s)
  handle_each (proc ∷ pcs) path file s =
      let (failed, t) = proc.handle path file s in
      let (rest, u) = handle_each pcs path file t in
      (elim failed [ none ↦ rest | some e ↦ errorf_v (proc.kind ++ txt ": ") e ∷ rest ], u)

  unfoldable pub handle_all :
      List (FileProcessor lib.File S) → Text → lib.File → S → Option Error × S
  unfolding handle_each
  handle_all pcs path file s = let (errors, t) = handle_each pcs path file s in (list_of errors, t)

  -- An empty file is not saved.
  unfoldable pub save_audit : Text → Text → S → Option Error × S
  save_audit path [] s = (none, s)
  save_audit path (c ∷ contents) s = elim env.audit [
    | none ↦ (none, s)
    | some save ↦ save path (c ∷ contents) s
  ]

  abbrev pub audit_path : Text → Text
  audit_path path =
      let (dir, filename) = split path in
      txt "odfi/"
      ++ env.hostname
      ++ txt "/"
      ++ base dir
      ++ txt "/"
      ++ env.today
      ++ txt "/"
      ++ filename

  -- A failure of a processor is alerted.
  unfoldable pub run_processors :
      List (FileProcessor lib.File S) → Text → lib.File → S → Option Error × S
  run_processors pcs path file s =
      let (failed, t) = handle_all pcs path file s in
      elim failed [
        | none ↦ (none, t)
        | some e ↦
            let (unsent, u) = env.alert e t in
            (
              elim unsent [
                | some e' ↦ some (errorf_w (txt "problem alerting on error: ") e')
                | none ↦ some (errorf_v (txt "processing " ++ path ++ txt " error: ") e)
              ],
              u,
            )
      ]

  abbrev pub default_opts : ValidateOpts → ValidateOpts
  default_opts opts = record opts {
    allow_missing_file_control = true;
    allow_missing_file_header = true;
    allow_unordered_batch_numbers = true;
  }

  abbrev pub prepared : Text → lib.File → lib.File
  prepared contents file = lib.set_entry_ids env.hash (lib.set_id (env.hash contents) file)

  abbrev pub read_problem : Option Error → Option Error
  read_problem none = none
  read_problem (some e) = if lib.is_file_header_error e then none else some e

  unfoldable pub audit_and_run :
      List (FileProcessor lib.File S) → Text → Text → lib.File → S → Option Error × S
  audit_and_run pcs path contents file s =
      let (unsaved, t) = save_audit (audit_path path) contents s in
      elim unsaved [
        | some e ↦ (some (errorf_v (txt "audittrail " ++ audit_path path ++ txt " error: ") e), t)
        | none ↦ run_processors pcs path (prepared contents file) t
      ]

  unfoldable pub process_file :
      ValidateOpts → List (FileProcessor lib.File S) → Text → S → Option Error × S
  process_file opts pcs path s = elim (disk.read_file path s) [
    | err e ↦ (some (errorf_v (txt "problem opening " ++ path ++ txt ": ") e), s)
    | ok raw ↦
        let contents = trim_space raw in
        let (file, bad) = lib.read (default_opts opts) contents in
        elim (read_problem bad) [
          | some e ↦ (some (errorf_v (txt "problem parsing " ++ path ++ txt ": ") e), s)
          | none ↦ audit_and_run pcs path contents file s
        ]
  ]

  unfoldable pub process_each :
      ValidateOpts → List (FileProcessor lib.File S) → Text → List DirEntry → S → ErrorList × S
  unfolding join
  process_each opts pcs dir [] s = ([], s)
  process_each opts pcs dir (info ∷ infos) s =
      let (failed, t) = process_file opts pcs (join (dir ∷ info.name ∷ [])) s in
      let (rest, u) = process_each opts pcs dir infos t in (add_error failed rest, u)

  unfoldable pub process_dir :
      ValidateOpts → List (FileProcessor lib.File S) → Text → S → Option Error × S
  process_dir opts pcs dir s = elim (disk.read_dir dir s) [
    | err e ↦ (some (errorf_v (txt "reading " ++ dir ++ txt ": ") e), s)
    | ok infos ↦ let (errors, t) = process_each opts pcs dir infos s in (list_of errors, t)
  ]

  unfoldable pub process_dirs :
      ValidateOpts → List (FileProcessor lib.File S) → Text → List Text → S → ErrorList × S
  unfolding join
  process_dirs opts pcs dir [] s = ([], s)
  process_dirs opts pcs dir (p ∷ ps) s =
      let where_ = join (dir ∷ p ∷ []) in
      let (failed, t) = process_dir opts pcs where_ s in
      let (rest, u) = process_dirs opts pcs dir ps t in
      (
        elim failed [
          | none ↦ rest
          | some e ↦ errorf_v (txt "processDir " ++ where_ ++ txt ": ") e ∷ rest
        ],
        u,
      )

  unfoldable pub process_files :
      ValidateOpts → List (FileProcessor lib.File S) → Text → List Text → S → Option Error × S
  process_files opts pcs dir remote_dirs s =
      let (errors, t) = process_dirs opts pcs dir remote_dirs s in (list_of errors, t)
