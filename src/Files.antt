-- ===== src/Files.antt =====
-- internal/files/repo_files.go: the table of accepted files in a SQL database, whose primary key is
-- the file ID (migrations/). The database is not part of the repository: `Database` has the errors
-- with which it refuses a statement, and those of a second row with one key.
pub mod Laws
use achgateway.Base.{Text, txt, text_eq, Error, errorf_w, Bool, Option, none, some, if◌then◌else◌}

pub record Row : Type 0 where
  pub file_id : Text
  pub shard_key : Text
  pub hostname : Text
  pub canceled : Bool

-- The rows by their key.
abbrev pub Table : Type 0
Table = Text → Option Row

pub record Database : Type 0 where
  pub refuses_insert : Table → Option Error
  pub refuses_delete : Table → Option Error
  pub refuses_update : Table → Option Error
  pub duplicate : Error

abbrev pub put_row : Text → Option Row → Table → Table
put_row k row t j = if text_eq k j then row else t j

module _ (db : Database) where
  -- INSERT INTO files
  unfoldable pub insert_row : Row → Table → Option Error × Table
  insert_row row t = elim (db.refuses_insert t) [
    | some e ↦ (some e, t)
    | none ↦ elim (t row.file_id) [
      | some _ ↦ (some db.duplicate, t)
      | none ↦ (none, put_row row.file_id (some row) t)
    ]
  ]

  -- DELETE FROM files WHERE file_id = ? AND shard_key = ?
  unfoldable pub delete_row : Text → Text → Table → Option Error × Table
  delete_row file_id shard_key t = elim (db.refuses_delete t) [
    | some e ↦ (some e, t)
    | none ↦ elim (t file_id) [
      | some row ↦
          if text_eq row.shard_key shard_key then (none, put_row file_id none t) else (none, t)
      | none ↦ (none, t)
    ]
  ]

  -- UPDATE files SET canceled_at = ? WHERE file_id = ? AND canceled_at IS NULL
  unfoldable pub cancel_row : Text → Table → Option Error × Table
  cancel_row file_id t = elim (db.refuses_update t) [
    | some e ↦ (some e, t)
    | none ↦ elim (t file_id) [
      | some row ↦ (none, put_row file_id (some (record row { canceled = Bool.true })) t)
      | none ↦ (none, t)
    ]
  ]

  abbrev wrapped : Text → Option Error × Table → Option Error × Table
  wrapped m (none, t) = (none, t)
  wrapped m (some e, t) = (some (errorf_w m e), t)

  unfoldable pub record_file : Row → Table → Option Error × Table
  unfolding insert_row
  record_file row t = wrapped (txt "recording file failed: ") (insert_row row t)

  unfoldable pub cleanup : Text → Text → Table → Option Error × Table
  unfolding delete_row
  cleanup file_id shard_key t =
      wrapped (txt "cleaning up fileID record: ") (delete_row file_id shard_key t)

  unfoldable pub cancel : Text → Table → Option Error × Table
  unfolding cancel_row
  cancel file_id t = wrapped (txt "saving file cancellation failed: ") (cancel_row file_id t)
