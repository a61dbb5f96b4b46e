-- ===== src/Aggregate/Laws.antt =====
-- What a cutoff and a cancellation do in internal/pipeline/aggregate.go.
use achgateway.Base.{
  ℕ, Text, txt, Error, errorf_v, is_nil, Option, none, some, List, [], ◌∷◌, ◌++◌, map, ◌≡◌, refl,
  ap, sym, ◌∙◌, arith,
}
use achgateway.Ach.{AchLib}
use achgateway.Incoming.{CancelAchFile, FileCancellationResponse}
use achgateway.Models.{Event, file_cancellation_response}
use achgateway.Merging.Mapping.{MergedFile}
use achgateway.Transform.{Transformed}
use achgateway.Upload.{Agent}
use achgateway.Aggregate.{
  Aggregator, cancel_file, uploaded_event, emit_file, emit_all, emit_files_uploaded, filename_data,
  audit_path, upload_and_notify, audit_and_upload, upload_file, run_transformers, with_each_file,
}

-- The events of merged files: one for each input file, in order.
abbrev pub events_of :
    {lib : AchLib} {S : Type 0} → Aggregator lib S → List (MergedFile lib) → List (Event lib.File)
events_of xfagg [] = []
events_of xfagg (m ∷ ms) = map (uploaded_event xfagg m) m.input_filepaths ++ events_of xfagg ms

-- Sending events one after the other, whether or not one of them fails.
abbrev pub send_all : {F S : Type 0} → (Event F → S → Option Error × S) → List (Event F) → S → S
send_all send [] s = s
send_all send (e ∷ es) s = send_all send es (send e s).1

send_all-append :
    {F S : Type 0} (send : Event F → S → Option Error × S) (es fs : List (Event F)) (s : S)
    → send_all send (es ++ fs) s ≡ send_all send fs (send_all send es s)
send_all-append send [] fs s = refl
send_all-append send (e ∷ es) fs s = send_all-append send es fs (send e s).1

module _ {lib : AchLib} {S : Type 0} (xfagg : Aggregator lib S) where
  emit_file-send_all :
      (m : MergedFile lib) (paths : List Text) (s : S)
      → (emit_file xfagg m paths s).1 ≡ send_all xfagg.send (map (uploaded_event xfagg m) paths) s
  unfolding emit_file
  emit_file-send_all m [] s = refl
  emit_file-send_all m (p ∷ paths) s = emit_file-send_all m paths _

  emit_all-send_all :
      (ms : List (MergedFile lib)) (s : S)
      → (emit_all xfagg ms s).1 ≡ send_all xfagg.send (events_of xfagg ms) s
  unfolding emit_all
  emit_all-send_all [] s = refl
  emit_all-send_all (m ∷ ms) s =
      emit_all-send_all ms _
      ∙ ap (send_all xfagg.send (events_of xfagg ms)) (emit_file-send_all m m.input_filepaths s)
      ∙ sym (send_all-append xfagg.send (map (uploaded_event xfagg m) m.input_filepaths) _ s)

  -- A cutoff whose merging reports no error sends one FileUploaded event for each input file of
  -- each merged file, in order, also where sending one fails, and ends with no error.
  pub with_each_file-emits :
      (s : S) {merged : List (MergedFile lib)} {t : S}
      → xfagg.merger.with_each_merged (run_transformers xfagg) s ≡ ((merged, none), t)
      → with_each_file xfagg s ≡ (none, send_all xfagg.send (events_of xfagg merged) t)
  unfolding with_each_file emit_files_uploaded
  with_each_file-emits s {merged} {t} h = ground (arith, h, emit_all-send_all merged t)

  -- A file that is uploaded with no error was rendered and formatted, and its audit record was
  -- saved first, under the path of its filename and with the contents that the agent then took.
  pub upload_file-audited :
      (index : ℕ) (agent : Agent S) (file : lib.File) (res : Transformed lib.File) (s : S)
      {filename : Text} {v : S}
      → res.file ≡ some file
      → upload_file xfagg index agent (some res) s ≡ ((filename, none), v)
      → (contents : Text) × (t : S) × (u : Text × S) × (xfagg.render
            (filename_data xfagg index file res)
          ≡ (filename, none))
        × (xfagg.format res ≡ (contents, none))
        × (xfagg.save_audit (audit_path xfagg agent filename) contents s ≡ (none, t))
        × (agent.upload_file (record { filepath = filename; contents = contents }) t ≡ (none, u))
  unfolding upload_file audit_and_upload upload_and_notify
  upload_file-audited index agent file res s {filename} there h =
      let contents = (xfagg.format res).0 in
      let t = (xfagg.save_audit (audit_path xfagg agent filename) contents s).1 in
      let u = (agent.upload_file (record { filepath = filename; contents = contents }) t).1 in
      (contents, t, u, ground arith, ground arith, ground arith, ground arith)

  -- A file that was rendered and formatted, but whose audit record cannot be saved, does not reach
  -- the upload agent.
  pub unaudited_is_not_uploaded :
      (index : ℕ) (agent : Agent S) (file : lib.File) (res : Transformed lib.File) (s : S)
      {filename contents : Text} {e : Error} {t : S}
      → res.file ≡ some file
      → xfagg.render (filename_data xfagg index file res) ≡ (filename, none)
      → xfagg.format res ≡ (contents, none)
      → xfagg.save_audit (audit_path xfagg agent filename) contents s ≡ (some e, t)
      → upload_file xfagg index agent (some res) s
        ≡ (([], some (errorf_v (txt "problem saving file in audit record: ") e)), t)
  unfolding upload_file audit_and_upload
  unaudited_is_not_uploaded index agent file res s there named formatted unsaved = ground arith

  -- A cancellation that the merging handled with no error is followed by one response event with
  -- its result, and comes back with that result, also where the event cannot be sent.
  pub cancel_file_responds :
      (msg : CancelAchFile) (s : S) {resp : FileCancellationResponse} {t : S}
      → xfagg.merger.handle_cancel msg s ≡ ((resp, none), t)
      → let (unsent, u) = xfagg.send (file_cancellation_response resp) t in
        (cancel_file xfagg msg s).1 ≡ u
        × (cancel_file xfagg msg s).0.0 ≡ resp
        × (is_nil (cancel_file xfagg msg s).0.1 ≡ is_nil unsent)
  unfolding cancel_file
  cancel_file_responds msg s h = (ground arith, ground arith, ground arith)
