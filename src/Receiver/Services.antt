-- ===== src/Receiver/Services.antt =====
-- What the file receiver calls: the repositories of internal/shards and internal/files, the
-- aggregators, the event emitter, and the decoding of messages. They act on one state.
use achgateway.Base.{Text, Error, Bool, Option}
use achgateway.Incoming.{AchFile, CancelAchFile, FileCancellationResponse, QueueAchFileResponse}
use achgateway.Models.{Event}

-- An aggregator goes by the name of its shard. `unique_violation` is database.UniqueViolation.
pub record Ports (F S : Type 0) : Type 0 where
  pub reveal : Text → Text × Option Error
  pub read : Text → Option (Event F) × Option Error
  pub lookup : Text → S → Text × Option Error
  pub record_file : AchFile F → S → Option Error × S
  pub cleanup : AchFile F → S → Option Error × S
  pub cancel_record : Text → S → Option Error × S
  pub accept_file : Text → AchFile F → S → (QueueAchFileResponse × Option Error) × S
  pub cancel_file : Text → CancelAchFile → S → (FileCancellationResponse × Option Error) × S
  pub send : Event F → S → Option Error × S
  pub unique_violation : Error → Bool
