-- ===== src/Odfi.antt =====
-- internal/incoming/odfi: files are downloaded from the servers of the ODFIs, processed and deleted
-- there. What they stand on is not part of the repository: the local file system (package os) and the
-- reader of ACH files (moov-io/ach).
pub mod Download
pub mod Events
pub mod Process
pub mod Cleanup
pub mod Scheduler
pub mod Keeps
pub mod KeepsProcess
pub mod Safety
mod Tests
use achgateway.Base.{ℕ, Text, Error, Result, Bool, Option, List}
use achgateway.Models.{EntryBatch}
use achgateway.Storage.{DirEntry}
use achgateway.Upload.{File}

-- The calls of package os, on a state. `create` and `copy` are os.Create and io.Copy into the file
-- that it gave; `close_file` is upload.File's Close; `size` is entry.Info() with the size in it.
pub record Disk (S : Type 0) : Type 0 where
  pub mkdir_temp : Text → Text → S → Result Text × S
  pub mkdir_all : Text → S → Option Error × S
  pub remove_all : Text → S → Option Error × S
  pub remove : Text → S → Option Error × S
  pub read_dir : Text → S → Result (List DirEntry)
  pub stat : Text → S → Option Error
  pub size : Text → DirEntry → S → Result ℕ
  pub read_file : Text → S → Result Text
  pub create : Text → S → Option Error × S
  pub copy : Text → Text → S → Option Error × S
  pub sync : Text → S → Option Error × S
  pub close : Text → S → Option Error × S
  pub close_file : File → S → Option Error × S

-- ach.ValidateOpts; `rest` has the options that this code does not name.
pub record ValidateOpts : Type 0 where
  pub allow_missing_file_control : Bool
  pub allow_missing_file_header : Bool
  pub allow_unordered_batch_numbers : Bool
  pub rest : Text

-- Reading gives a file beside an error. `set_entry_ids` sets the ID of each entry of Batches and
-- IATBatches to a function of its String(), `prenote_codes` has the seven transaction codes of
-- prenotes.
pub record AchReader : Type 1 where
  pub File : Type 0
  pub read : ValidateOpts → Text → File × Option Error
  pub is_file_header_error : Error → Bool
  pub set_id : Text → File → File
  pub set_entry_ids : (Text → Text) → File → File
  pub batches : File → List EntryBatch
  pub notifications_of_change : File → List EntryBatch
  pub return_entries : File → List EntryBatch
  pub prenote_codes : List ℕ
