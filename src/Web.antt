-- ===== src/Web.antt =====
-- internal/incoming/web/api_files.go: files and cancellations are submitted over HTTP, published as
-- messages, and answered with the response of the pipeline or after ten seconds.
pub mod Waiting
pub mod Answers
mod Tests
use achgateway.Base.{
  ℕ, Text, txt, text_eq, trim_suffix, ltb, Bool, true, false, ◌||◌, Error, errorf_v, Result, ok,
  err, Option, none, some, List, [], ◌∷◌, if◌then◌else◌,
}
use achgateway.Compliance.{TransformConfig, Codecs, protect, reveal}
use achgateway.Incoming.{AchFile, CancelAchFile, QueueAchFileResponse, FileCancellationResponse}
use achgateway.Models.{Event, queue_ach_file, cancel_ach_file}
use achgateway.Web.Waiting.{Pending, Step, received, register, run}

-- MaxBodyBytes is not negative: what is not positive is no limit.
pub record HttpConfig : Type 0 where
  pub max_body_bytes : ℕ
  pub transform : Option TransformConfig

-- pubsub.Message
pub record Message : Type 0 where
  pub body : Text
  pub metadata : List (Text × Text)

-- The vars of the router, and the body.
pub record Request (B : Type 0) : Type 0 where
  pub shard_key : Text
  pub file_id : Text
  pub body : B

-- io.ReadAll of a body, with io.LimitReader where there is a limit, the two readers of moov-io/ach,
-- json.Marshal of an event, and the publisher.
pub record Ports (F B S : Type 0) : Type 1 where
  pub codecs : Codecs
  pub read_all : Option ℕ → B → Result Text
  pub read_ach : Text → Result F
  pub file_from_json : Text → Option F × Option Error
  pub marshal : Event F → Result Text
  pub send : Message → S → Option Error × S

pub record FilesController (S : Type 0) : Type 0 where
  pub queue_files : Pending QueueAchFileResponse
  pub cancellations : Pending FileCancellationResponse
  pub services : S

-- The status, and the response that is encoded as the body.
pub record Answer (R : Type 0) : Type 0 where
  pub status : ℕ
  pub response : Option R

abbrev or_timeout : {R : Type 0} → Option R → R → R
or_timeout none timeout = timeout
or_timeout (some resp) timeout = resp

abbrev status_only : {R : Type 0} → ℕ → Answer R
status_only n = record { status = n; response = none }

-- The select on the channel and the timer, after the steps of ten seconds.
unfoldable pub answer_of : {R : Type 0} → ℕ → R → Pending R → Answer R
unfolding received
answer_of w timeout p = record {
  status = 200;
  response = some (or_timeout (received w p.sent) timeout);
}

abbrev message_of : Text → Text → Text → Message
message_of shard_key file_id bs = record {
  body = bs;
  metadata = (txt "fileID", file_id) ∷ (txt "shardKey", shard_key) ∷ [];
}

abbrev pub file_timeout : Text → Text → QueueAchFileResponse
file_timeout shard_key file_id = record {
  file_id = file_id;
  shard_key = shard_key;
  error = txt "timeout exceeded";
}

abbrev pub cancel_timeout : Text → Text → FileCancellationResponse
cancel_timeout shard_key file_id = record {
  file_id = file_id;
  shard_key = shard_key;
  successful = false;
}

module _ {F B S : Type 0} (ports : Ports F B S) (cfg : HttpConfig) where
  unfoldable pub read_body : B → Result Text
  unfolding reveal
  read_body body =
      elim (ports.read_all (if ltb 0 cfg.max_body_bytes then some cfg.max_body_bytes else none)
        body) [ err e ↦ err e | ok bs ↦ reveal ports.codecs cfg.transform bs ]

  -- A file in the Nacha format, or else in JSON.
  unfoldable pub decode_file : Text → Option F
  decode_file bs = elim (ports.read_ach bs) [
    | ok file ↦ some file
    | err _ ↦
        let (file, failed) = ports.file_from_json bs in elim failed [ none ↦ file | some _ ↦ none ]
  ]

  -- What publishFile and cancelFile do after the waiter is registered.
  unfoldable pub publish : Text → Text → Text → Event F → S → Option Error × S
  unfolding protect
  publish kind shard_key file_id event s =
      elim (protect ports.codecs cfg.transform (ports.marshal event)) [
        | err e ↦ (some (errorf_v kind e), s)
        | ok bs ↦ ports.send (message_of shard_key file_id bs) s
      ]

  unfoldable pub publish_file :
      Text → Text → F → FilesController S → Option Error × FilesController S
  unfolding register publish
  publish_file shard_key file_id file c =
      let event =
        queue_ach_file (record { file_id = file_id; shard_key = shard_key; file = some file }) in
      let (failed, t) =
        publish (txt "unable to protect incoming file event: ") shard_key file_id event
          c.services in
      (failed, record c { queue_files = register file_id c.queue_files; services = t })

  unfoldable pub cancel_file : Text → Text → FilesController S → Option Error × FilesController S
  unfolding register publish
  cancel_file shard_key file_id c =
      let event = cancel_ach_file (record { file_id = file_id; shard_key = shard_key }) in
      let (failed, t) =
        publish (txt "unable to protect cancel file event: ") shard_key file_id event c.services in
      (failed, record c { cancellations = register file_id c.cancellations; services = t })

  -- The file was decoded: it is published, and its response awaited.
  unfoldable pub submit_file :
      Text
      → Text
      → F
      → List (Step QueueAchFileResponse)
      → FilesController S
      → Answer QueueAchFileResponse × FilesController S
  unfolding publish_file run answer_of
  submit_file shard_key file_id file meanwhile c =
      let (failed, d) = publish_file shard_key file_id file c in
      let later = run meanwhile d.queue_files in
      elim failed [
        | some _ ↦ (status_only 500, d)
        | none ↦ (
          answer_of c.queue_files.made (file_timeout shard_key file_id) later,
          record d { queue_files = later },
        )
      ]

  unfoldable pub create_file_handler :
      Request B
      → List (Step QueueAchFileResponse)
      → FilesController S
      → Answer QueueAchFileResponse × FilesController S
  unfolding read_body decode_file submit_file text_eq
  create_file_handler req meanwhile c =
      if text_eq req.shard_key [] || text_eq req.file_id []
      then (status_only 400, c)
      else elim (read_body req.body) [
        | err _ ↦ (status_only 400, c)
        | ok bs ↦ elim (decode_file bs) [
          | none ↦ (status_only 400, c)
          | some file ↦ submit_file req.shard_key req.file_id file meanwhile c
        ]
      ]

  unfoldable pub submit_cancellation :
      Text
      → Text
      → List (Step FileCancellationResponse)
      → FilesController S
      → Answer FileCancellationResponse × FilesController S
  unfolding cancel_file run answer_of
  submit_cancellation shard_key file_id meanwhile c =
      let (failed, d) = cancel_file shard_key file_id c in
      let later = run meanwhile d.cancellations in
      elim failed [
        | some _ ↦ (status_only 500, d)
        | none ↦ (
          answer_of c.cancellations.made (cancel_timeout shard_key file_id) later,
          record d { cancellations = later },
        )
      ]

  -- An ".ach" that the request put behind the ID is taken off first.
  unfoldable pub cancel_file_handler :
      Request B
      → List (Step FileCancellationResponse)
      → FilesController S
      → Answer FileCancellationResponse × FilesController S
  unfolding submit_cancellation text_eq trim_suffix
  cancel_file_handler req meanwhile c =
      if text_eq req.shard_key [] || text_eq req.file_id []
      then (status_only 400, c)
      else submit_cancellation req.shard_key (trim_suffix req.file_id (txt ".ach")) meanwhile c
