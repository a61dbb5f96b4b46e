-- ===== src/Shards/Sql.antt =====
-- internal/shards/repository.go: the mapping of shard keys to shard names in an SQL database.
pub mod Laws
mod Tests
use achgateway.Base.{
  ℕ, Text, txt, nat_eq, print_v, is, no_rows, Error, Result, ok, err, Option, none, some, List, [],
  ◌∷◌, ◌++◌, if◌then◌else◌,
}
use achgateway.Shards.{ShardMapping}

-- sql.Rows: what Scan gives for each row, and what Err says behind the last.
pub record Rows (A : Type 0) : Type 0 where
  pub scans : List (Result A)
  pub failed : Option Error

-- The queries of the repository, with package database/sql behind them. An insert gives its result,
-- of which the number of rows is read; rollback does nothing to what was committed.
pub record Db (S : Type 0) : Type 0 where
  pub query_names : Text → S → Result (Rows Text)
  pub query_mappings : S → Result (Rows ShardMapping)
  pub begin_tx : S → Option Error × S
  pub insert_mapping : ShardMapping → S → Result (Result ℕ) × S
  pub commit : S → Option Error × S
  pub rollback : S → S

-- errors.Wrap of github.com/pkg/errors: a nil error stays nil.
unfoldable pub wrap : Option Error → Text → Option Error
wrap none message = none
wrap (some e) message =
    some (record { message = message ++ txt ": " ++ e.message; wraps = e.wraps })

-- The name of the last row; a row that cannot be read ends the search.
unfoldable pub last_name : Text → Rows Text → List (Result Text) → Text × Option Error
last_name name rows [] = (name, rows.failed)
last_name name rows (ok n ∷ scans) = last_name n rows scans
last_name name rows (err e ∷ scans) = if is e no_rows then ([], none) else ([], some e)

unfoldable pub scan_all : List (Result ShardMapping) → Result (List ShardMapping)
scan_all [] = ok []
scan_all (err e ∷ scans) = err e
scan_all (ok m ∷ scans) =
    let rest = scan_all scans in elim rest [ err e ↦ err e | ok ms ↦ ok (m ∷ ms) ]

module _ {S : Type 0} (db : Db S) where
  unfoldable pub lookup : Text → S → Text × Option Error
  unfolding last_name
  lookup key s = elim (db.query_names key s) [
    | err e ↦ ([], some e)
    | ok rows ↦ last_name [] rows rows.scans
  ]

  unfoldable pub query_scan_shard_mappings : S → Result (List ShardMapping)
  unfolding scan_all
  query_scan_shard_mappings s = elim (db.query_mappings s) [
    | err e ↦ err (record { message = txt "querying: " ++ e.message; wraps = e.wraps })
    | ok rows ↦ elim (scan_all rows.scans) [
      | err e ↦ err e
      | ok items ↦ elim rows.failed [ some e ↦ err e | none ↦ ok items ]
    ]
  ]

  -- The transaction, from the result of the insert on.
  unfoldable pub finish_add : (S → Option Error × S) → Result (Result ℕ) → S → Option Error × S
  unfolding wrap
  finish_add run (err e) s = (wrap (some e) (txt "executing add"), s)
  finish_add run (ok (err e)) s = (wrap (some e) (txt "getting rows affected"), s)
  finish_add run (ok (ok count)) s =
      let (failed, t) = run s in
      if nat_eq count 1
      then elim failed [ some e ↦ (some e, t) | none ↦ db.commit t ]
      else (wrap none (txt "affecting no rows"), s)

  -- `run` is what the caller does in the transaction; the rollback is deferred.
  unfoldable pub add : ShardMapping → (S → Option Error × S) → S → Option Error × S
  unfolding finish_add wrap
  add create run s =
      let (failed, t) = db.begin_tx s in
      let (res, u) = db.insert_mapping create t in
      let (result, v) = finish_add run res u in
      elim failed [
        | some e ↦ (wrap (some e) (txt "start adding shard mapping"), t)
        | none ↦ (result, db.rollback v)
      ]
