-- ===== src/Incoming.antt =====
-- internal/incoming/models.go: the messages that the pipeline works on.
use achgateway.Base.{
  Text, txt, text_eq, Bool, Option, none, some, Error, new_error, [], if◌then◌else◌,
}

pub record AchFile (F : Type 0) : Type 0 where
  pub file_id : Text
  pub shard_key : Text
  pub file : Option F

unfoldable pub validate : {F : Type 0} → AchFile F → Option Error
unfolding text_eq
validate f =
    if text_eq f.file_id []
    then some (new_error (txt "missing fileID"))
    else if text_eq f.shard_key []
    then some (new_error (txt "missing shardKey"))
    else elim f.file [ none ↦ some (new_error (txt "missing File")) | some _ ↦ none ]

pub record QueueAchFileResponse : Type 0 where
  pub file_id : Text
  pub shard_key : Text
  pub error : Text

pub record CancelAchFile : Type 0 where
  pub file_id : Text
  pub shard_key : Text

pub record FileCancellationResponse : Type 0 where
  pub file_id : Text
  pub shard_key : Text
  pub successful : Bool
