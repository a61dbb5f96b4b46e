-- ===== src/Models.antt =====
-- pkg/models/events.go: the events that the gateway reads and emits.
use achgateway.Base.{ℕ, Text, List}
use achgateway.Incoming.{AchFile, CancelAchFile, FileCancellationResponse}

-- *ach.EntryDetail: its String(), its transaction code and its amount.
pub record EntryDetail : Type 0 where
  pub line : Text
  pub transaction_code : ℕ
  pub amount : ℕ

-- models.Batch: String() of its header, and its entries.
pub record EntryBatch : Type 0 where
  pub header : Text
  pub entries : List EntryDetail

-- The files that come from an ODFI go with the name that they had there. `other` is an event of
-- another kind, with its type.
pub data Event (F : Type 0) : Type 0 where
  queue_ach_file : AchFile F → Event F
  cancel_ach_file : CancelAchFile → Event F
  invalid_queue_file : AchFile F → Text → Text → Event F
  file_cancellation_response : FileCancellationResponse → Event F
  file_uploaded : Text → Text → Text → Event F
  incoming_file : Text → F → Event F
  correction_file : Text → F → List EntryBatch → Event F
  return_file : Text → F → List EntryBatch → Event F
  prenote_file : Text → F → List EntryBatch → Event F
  reconciliation_file : Text → F → List EntryBatch → Event F
  reconciliation_entry : Text → Text → EntryDetail → Event F
  other : Text → Event F
