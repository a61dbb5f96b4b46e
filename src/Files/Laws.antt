-- ===== src/Files/Laws.antt =====
-- The row of a file ID through the operations of the files table.
use achgateway.Base.{
  Text, txt, text_eq_iff, text_eq_refl, Error, errorf_w, Option, none, some, ◌≡◌, ◌≢◌, ap, arith,
  Option-cases, inl, inr,
}
use achgateway.Files.{Row, Table, Database, put_row, record_file, cleanup}

-- The shard key in the row of a file ID.
abbrev pub recorded : Table → Text → Option Text
recorded t id = elim (t id) [ none ↦ none | some row ↦ some row.shard_key ]

module _ (db : Database) where
  -- A file that is recorded with no error was not in the table before, and its row is the only
  -- thing that changes.
  pub record_file_lem :
      (row : Row) (t : Table) {u : Table}
      → record_file db row t ≡ (none, u)
      → (t row.file_id ≡ none) × (u ≡ put_row row.file_id (some row) t)
  unfolding record_file
  record_file_lem row t h = ground arith

  -- Where the database refuses no insertion for another reason, a second row with a file ID is
  -- refused with its duplicate error, and changes nothing.
  pub record_file-again :
      (row : Row) (t : Table)
      → db.refuses_insert t ≡ none
      → t row.file_id ≢ none
      → record_file db row t ≡ (some (errorf_w (txt "recording file failed: ") db.duplicate), t)
  unfolding record_file
  record_file-again row t up there = ground arith

  -- A cleanup with no error removes the row of the file ID if its shard key is the one given.
  pub cleanup_lem :
      (id key : Text) (t : Table) {u : Table}
      → cleanup db id key t ≡ (none, u)
      → recorded t id ≡ some key
      → u id ≡ none
  unfolding cleanup
  cleanup_lem id key t h r = elim (Option-cases (t id)) [
    | inl gone ↦ ground (arith, gone)
    | inr (row, there) ↦ ground (
      arith,
      there,
      text_eq_iff row.shard_key key,
      text_eq_refl id,
      ap (λ (x : Option Error × Table). x.1 id) h,
    )
  ]
