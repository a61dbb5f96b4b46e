-- ===== src/Aggregate.antt =====
-- internal/pipeline/aggregate.go: the aggregator of a shard takes files and cancellations, and at
-- a cutoff uploads what its merging gives it.
pub mod Laws
pub mod Dispatch
mod Tests
use achgateway.Base.{
  ℕ, Text, txt, text_eq, split, trim_suffix, nat_eq, ltb, leb, ◌-◌, Error, ErrorList, new_error,
  errorf_v, errorf_w, list_error, is_nil, Bool, true, false, ◌&&◌, ◌||◌, not, Option, none, some,
  List, [], ◌∷◌, ◌++◌, map, if◌then◌else◌,
}
use achgateway.Ach.{AchLib}
use achgateway.Incoming.{AchFile, CancelAchFile, FileCancellationResponse, QueueAchFileResponse}
use achgateway.Models.{Event, file_cancellation_response, file_uploaded}
use achgateway.Merging.Mapping.{MergedFile}
use achgateway.Merging.Cutoff.{add_error}
use achgateway.Transform.{Transformed, PreUpload, for_upload}
use achgateway.Upload.{Agent, File}

-- What happens to one merged file: its index, the agent and the file give the uploaded filename.
abbrev pub Callback : AchLib → Type 0 → Type 0
Callback lib S = ℕ → Agent S → lib.File → S → (Text × Option Error) × S

-- The interface XferMerging, where its methods return: what a panic of WithEachMerged leads to, which
-- ends the process, is not modelled here.
pub record XferMerging (lib : AchLib) (S : Type 0) : Type 0 where
  pub handle_xfer : AchFile lib.File → S → Option Error × S
  pub handle_cancel : CancelAchFile → S → (FileCancellationResponse × Option Error) × S
  pub with_each_merged : Callback lib S → S → (List (MergedFile lib) × Option Error) × S

-- upload.FilenameData
pub record FilenameData : Type 0 where
  pub routing_number : Text
  pub gpg : Bool
  pub shard_name : Text
  pub index : ℕ

-- The fields of an aggregator, and what its methods call outside this file. `has_agent` and
-- `new_sender` are uploadAgents.Find and notify.NewMultiSender for an agent's ID, and `notify_critical`
-- and `notify_info` the sender's methods on a filename; `render` is upload.RenderACHFilename with the
-- shard's template.
pub record Aggregator (lib : AchLib) (S : Type 0) : Type 0 where
  pub shard : Text
  pub audit_base_path : Option Text
  pub today : Text
  pub merger : XferMerging lib S
  pub transformers : List (PreUpload lib.File)
  pub render : FilenameData → Text × Option Error
  pub format : Transformed lib.File → Text × Option Error
  pub save_audit : Text → Text → S → Option Error × S
  pub has_agent : Text → Bool
  pub new_sender : Text → Option Error
  pub notify_critical : Text → S → Option Error × S
  pub notify_info : Text → S → Option Error × S
  pub alert : Error → S → S
  pub send : Event lib.File → S → Option Error × S
  pub join_errors : ErrorList → Error

-- strings.ToUpper and strings.ReplaceAll(" ", "-") on ASCII
abbrev upper_byte : ℕ → ℕ
upper_byte c = if leb b'a' c && leb c b'z' then c - 32 else c

abbrev blank_to_dash : ℕ → ℕ
blank_to_dash c = if nat_eq c b' ' then b'-' else c

unfoldable pub prepare_shard_name : Text → Text
prepare_shard_name name = map upper_byte (map blank_to_dash name)

module _ {lib : AchLib} {S : Type 0} (xfagg : Aggregator lib S) where
  unfoldable pub accept_file : AchFile lib.File → S → (QueueAchFileResponse × Option Error) × S
  accept_file msg s =
      let (failed, t) = xfagg.merger.handle_xfer msg s in
      let message : Text = elim failed [ none ↦ [] | some e ↦ e.message ] in
      let resp : QueueAchFileResponse = record {
        file_id = msg.file_id;
        shard_key = msg.shard_key;
        error = message;
      } in
      ((resp, failed), t)

  abbrev no_response : FileCancellationResponse
  no_response = record { file_id = []; shard_key = []; successful = false }

  unfoldable pub cancel_file : CancelAchFile → S → (FileCancellationResponse × Option Error) × S
  cancel_file msg s =
      let (result, t) = xfagg.merger.handle_cancel msg s in
      let (unsent, u) = xfagg.send (file_cancellation_response result.0) t in
      elim result.1 [
        | some e ↦ ((no_response, some e), t)
        | none ↦ elim unsent [
          | none ↦ ((result.0, none), u)
          | some e ↦ (
            (result.0, some (errorf_w (txt "problem emitting file cancellation response: ") e)),
            u,
          )
        ]
      ]

  -- FileID's don't have .ach suffix
  abbrev pub uploaded_event : MergedFile lib → Text → Event lib.File
  uploaded_event m path =
      file_uploaded (trim_suffix (split path).1 (txt ".ach")) m.shard m.uploaded_filename

  unfoldable pub emit_file : MergedFile lib → List Text → S → ErrorList × S
  unfolding trim_suffix split
  emit_file m [] s = ([], s)
  emit_file m (path ∷ paths) s =
      let (unsent, t) = xfagg.send (uploaded_event m path) s in
      let (rest, u) = emit_file m paths t in (add_error unsent rest, u)

  unfoldable pub emit_all : List (MergedFile lib) → S → ErrorList × S
  unfolding emit_file
  emit_all [] s = ([], s)
  emit_all (m ∷ ms) s =
      let (el, t) = emit_file m m.input_filepaths s in
      let (rest, u) = emit_all ms t in (el ++ rest, u)

  unfoldable pub emit_files_uploaded : List (MergedFile lib) → S → Option Error × S
  unfolding emit_all
  emit_files_uploaded merged s =
      let (el, t) = emit_all merged s in (list_error xfagg.join_errors el, t)

  -- The notification itself: a critical one where the upload failed.
  unfoldable pub send_notification : Text → Option Error → S → Option Error × S
  send_notification filename upload_err s =
      let (critical_err, t) = xfagg.notify_critical filename s in
      let (info_err, u) = xfagg.notify_info filename s in
      if is_nil upload_err
      then (elim info_err [
        | none ↦ (none, u)
        | some e ↦ (
          some (
              errorf_v (txt "problem sending info notification for file=" ++ filename ++ txt ": ")
                e),
          u,
        )
      ])
      else (elim critical_err [
        | none ↦ (none, t)
        | some e ↦ (
          some (
              errorf_v
                (txt "problem sending critical notification for file=" ++ filename ++ txt ": ") e),
          t,
        )
      ])

  unfoldable pub notify_after_upload : Text → Agent S → Option Error → S → Option Error × S
  notify_after_upload filename agent upload_err s =
      if xfagg.has_agent agent.id
      then (elim (xfagg.new_sender agent.id) [
        | none ↦ send_notification filename upload_err s
        | some e ↦ (some (errorf_v (txt "notify: unable to create multi-sender: ") e), s)
      ])
      else (some (new_error (txt "no uploadAgent found for id=" ++ agent.id)), s)

  abbrev pub alert_on_error : Option Error → S → S
  alert_on_error none s = s
  alert_on_error (some e) s = xfagg.alert e s

  abbrev pub audit_path : Agent S → Text → Text
  audit_path agent filename =
      let base : Text = elim xfagg.audit_base_path [
        | none ↦ txt "outbound"
        | some p ↦ if text_eq p [] then txt "outbound" else p
      ] in
      base ++ (b'/' ∷ (agent.hostname ++ (b'/' ∷ (xfagg.today ++ (b'/' ∷ filename)))))

  abbrev pub filename_data : ℕ → lib.File → Transformed lib.File → FilenameData
  filename_data index file res = record {
    routing_number = lib.immediate_destination file;
    gpg = not (text_eq res.encrypted []);
    shard_name = prepare_shard_name xfagg.shard;
    index = index;
  }

  -- The upload itself, with the notifications that follow it.
  unfoldable pub upload_and_notify : Agent S → Text → Text → S → (Text × Option Error) × S
  unfolding notify_after_upload
  upload_and_notify agent filename contents s =
      let file : File = record { filepath = filename; contents = contents } in
      let (failed, rest) = agent.upload_file file s in
      let (unsent, u) = notify_after_upload filename agent failed rest.1 in
      ((filename, failed), alert_on_error unsent u)

  -- The audit record comes before the upload.
  unfoldable pub audit_and_upload : Agent S → Text → Text → S → (Text × Option Error) × S
  audit_and_upload agent filename contents s =
      let (unsaved, t) = xfagg.save_audit (audit_path agent filename) contents s in
      elim unsaved [
        | some e ↦ (([], some (errorf_v (txt "problem saving file in audit record: ") e)), t)
        | none ↦ upload_and_notify agent filename contents t
      ]

  unfoldable pub upload_result :
      ℕ → Agent S → lib.File → Transformed lib.File → S → (Text × Option Error) × S
  upload_result index agent file res s =
      let (filename, unnamed) = xfagg.render (filename_data index file res) in
      let (contents, unformatted) = xfagg.format res in
      elim unnamed [
        | some e ↦ (([], some (errorf_v (txt "problem rendering filename template: ") e)), s)
        | none ↦ elim unformatted [
          | some e ↦ (([], some (errorf_v (txt "problem formatting output: ") e)), s)
          | none ↦ audit_and_upload agent filename contents s
        ]
      ]

  unfoldable pub upload_file :
      ℕ → Agent S → Option (Transformed lib.File) → S → (Text × Option Error) × S
  unfolding upload_result
  upload_file index agent none s = (([], some (new_error (txt "uploadFile: nil Result / File"))), s)
  upload_file index agent (some res) s = elim res.file [
    | none ↦ (([], some (new_error (txt "uploadFile: nil Result / File"))), s)
    | some file ↦ upload_result index agent file res s
  ]

  unfoldable pub run_transformers : Callback lib S
  unfolding for_upload
  run_transformers index agent outgoing s =
      let (result, failed) = for_upload outgoing xfagg.transformers in
      elim failed [ some e ↦ (([], some e), s) | none ↦ upload_file index agent result s ]

  -- What goes wrong with the events is only logged.
  unfoldable pub with_each_file : S → Option Error × S
  with_each_file s =
      let (result, t) = xfagg.merger.with_each_merged run_transformers s in
      elim result.1 [
        | some e ↦ (some (errorf_v (txt "merging ACH files: ") e), t)
        | none ↦ (none, (emit_files_uploaded result.0 t).1)
      ]

  -- The error goes back to who asked for the cutoff.
  unfoldable pub manual_cutoff : S → Option Error × S
  manual_cutoff s =
      let (result, t) = xfagg.merger.with_each_merged run_transformers s in
      elim result.1 [ some e ↦ (some e, t) | none ↦ (none, (emit_files_uploaded result.0 t).1) ]
