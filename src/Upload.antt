-- ===== src/Upload.antt =====
-- internal/upload: the agents that talk to a remote server.
pub mod Retry
pub mod Network
pub mod Registry
use achgateway.Base.{Text, Option, Error, List}

-- upload.File: `contents` is what the reader of the file still gives.
pub record File : Type 0 where
  pub filepath : Text
  pub contents : Text

-- upload.Agent over the state of the remote server. Contents are read once: an upload also gives what
-- it left unread.
pub record Agent (S : Type 0) : Type 0 where
  pub id : Text
  pub hostname : Text
  pub inbound_path : Text
  pub outbound_path : Text
  pub reconciliation_path : Text
  pub return_path : Text
  pub get_inbound_files : S → (List Text × Option Error) × S
  pub get_reconciliation_files : S → (List Text × Option Error) × S
  pub get_return_files : S → (List Text × Option Error) × S
  pub upload_file : File → S → Option Error × (Text × S)
  pub delete : Text → S → Option Error × S
  pub read_file : Text → S → (Option File × Option Error) × S
  pub ping : S → Option Error × S
  pub close : S → Option Error × S
