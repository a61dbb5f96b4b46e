-- ===== src/Odfi/Scheduler.antt =====
-- internal/incoming/odfi/scheduler.go: one round of download, processing and deletion for each shard.
use achgateway.Base.{
  Text, txt, Error, errorf_v, Bool, Option, none, some, List, [], ◌∷◌, ◌++◌, if◌then◌else◌,
}
use achgateway.Odfi.{Disk, ValidateOpts, AchReader}
use achgateway.Odfi.Cleanup.{cleanup, cleanup_empty_files}
use achgateway.Odfi.Download.{copy_files_from_remote, remote_dirs, delete_files, delete_empty_dirs}
use achgateway.Odfi.Process.{FileProcessor, Processing, process_files}
use achgateway.Upload.{Agent}

-- internal/service/model_inbound.go
pub record OdfiStorage : Type 0 where
  pub directory : Text
  pub cleanup_local_directory : Bool
  pub keep_remote_files : Bool
  pub remove_zero_byte_files : Bool

-- The scheduler's fields, with what it calls outside: `find_shard` gives the upload agent's ID of a
-- shard, `new_agent` is upload.New, and `new_env` newAuditSaver with the rest of what processing needs.
pub record PeriodicScheduler (lib : AchReader) (S : Type 0) : Type 0 where
  pub storage : OdfiStorage
  pub validation : ValidateOpts
  pub shard_names : List Text
  pub find_shard : Text → Option Text
  pub new_agent : Text → S → (Agent S × Option Error) × S
  pub env : Text → Processing S
  pub audit_problem : Text → Option Error
  pub processors : List (FileProcessor lib.File S)
  pub alert : Error → S → Option Error × S

module _ (lib : AchReader) {S : Type 0} (disk : Disk S) (sched : PeriodicScheduler lib S) where
  unfoldable pub finish_local : Agent S → Text → S → Option Error × S
  finish_local agent dir s =
      if sched.storage.cleanup_local_directory
      then delete_files disk agent dir s
      else delete_empty_dirs disk agent dir s

  unfoldable pub clean_empty : Agent S → Text → S → Option Error × S
  clean_empty agent dir s =
      let (failed, t) =
        cleanup_empty_files disk agent (sched.env agent.hostname).join_errors dir
          (remote_dirs disk agent) s in
      if sched.storage.remove_zero_byte_files
      then (elim failed [
        | some e ↦ (some (errorf_v (txt "ERROR: deleting zero byte files: ") e), t)
        | none ↦ finish_local agent dir t
      ])
      else finish_local agent dir s

  unfoldable pub clean_remote : Agent S → Text → S → Option Error × S
  clean_remote agent dir s =
      let (failed, t) =
        cleanup disk agent (sched.env agent.hostname).join_errors dir (remote_dirs disk agent) s in
      if sched.storage.keep_remote_files then clean_empty agent dir s else (elim failed [
        | some e ↦ (some (errorf_v (txt "ERROR: deleting remote files: ") e), t)
        | none ↦ clean_empty agent dir t
      ])

  -- What follows the download.
  unfoldable pub process_and_clean : Agent S → Text → S → Option Error × S
  process_and_clean agent dir s =
      let (failed, t) =
        process_files lib disk (sched.env agent.hostname) sched.validation sched.processors dir
          (remote_dirs disk agent) s in
      elim (sched.audit_problem agent.hostname) [
        | some e ↦ (some (errorf_v (txt "ERROR: ") e), s)
        | none ↦ elim failed [
          | some e ↦ (some (errorf_v (txt "ERROR: processing files: ") e), t)
          | none ↦ clean_remote agent dir t
        ]
      ]

  unfoldable pub download_and_process : Agent S → S → Option Error × S
  download_and_process agent s =
      let (r, t) = copy_files_from_remote disk agent sched.storage.directory s in
      elim r.1 [
        | some e ↦ (some (errorf_v (txt "ERROR: problem copying files: ") e), t)
        | none ↦ elim r.0 [ none ↦ (none, t) | some dir ↦ process_and_clean agent dir t ]
      ]

  unfoldable pub tick : Text → S → Option Error × S
  tick upload_agent s =
      let (agent, t) = sched.new_agent upload_agent s in
      elim agent.1 [
        | some e ↦ (some (errorf_v (txt "agent: ") e), t)
        | none ↦ download_and_process agent.0 t
      ]

  unfoldable pub tick_each : List Text → S → S
  tick_each [] s = s
  tick_each (name ∷ names) s = elim (sched.find_shard name) [
    | none ↦ tick_each names s
    | some upload_agent ↦
        let (failed, t) = tick upload_agent s in
        elim failed [
          | none ↦ tick_each names t
          | some e ↦ tick_each names (sched.alert (errorf_v (name ++ txt " ") e) t).1
        ]
  ]

  -- The error that comes back is always nil.
  unfoldable pub tick_all : S → Option Error × S
  tick_all s = (none, tick_each sched.shard_names s)
