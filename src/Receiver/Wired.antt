-- ===== src/Receiver/Wired.antt =====
-- The receiver's services as internal/pipeline sets them up: the table of accepted files
-- (internal/files/repo_files.go), the shard mappings (internal/shards/inmemory_repository.go), and
-- the rest of the gateway, which does not touch the table, as parameters.
use achgateway.Base.{
  Text, txt, text_eq_refl, Error, errorf_w, Bool, true, false, Option, none, some, List, ◌≡◌, ◌≢◌,
  refl, ap, arith,
}
use achgateway.Files.{Row, Table, Database, record_file, cleanup, cancel}
use achgateway.Files.Laws.{recorded, record_file_lem, record_file-again, cleanup_lem}
use achgateway.Incoming.{AchFile, CancelAchFile, FileCancellationResponse, QueueAchFileResponse}
use achgateway.Models.{Event}
use achgateway.Receiver.Once.{IsFilesTable}
use achgateway.Receiver.Services.{Ports}
use achgateway.Shards.{ShardMapping, lookup}

-- The rest of the gateway, on a state of its own.
pub record Gateway (F A : Type 0) : Type 0 where
  pub reveal : Text → Text × Option Error
  pub read : Text → Option (Event F) × Option Error
  pub accept_file : Text → AchFile F → A → (QueueAchFileResponse × Option Error) × A
  pub cancel_file : Text → CancelAchFile → A → (FileCancellationResponse × Option Error) × A
  pub send : Event F → A → Option Error × A
  pub unique_violation : Error → Bool

module _ {F A : Type 0} (db : Database) (mappings : List ShardMapping) (hostname : Text)
    (gateway : Gateway F A) where
  abbrev pub row_of : AchFile F → Row
  row_of f = record {
    file_id = f.file_id;
    shard_key = f.shard_key;
    hostname = hostname;
    canceled = false;
  }

  abbrev on_rest : {B : Type 0} → (A → B × A) → Table × A → B × (Table × A)
  on_rest step s = ((step s.1).0, (s.0, (step s.1).1))

  abbrev on_table : (Table → Option Error × Table) → Table × A → Option Error × (Table × A)
  on_table step s = ((step s.0).0, ((step s.0).1, s.1))

  abbrev pub wired : Ports F (Table × A)
  wired = record {
    reveal = gateway.reveal;
    read = gateway.read;
    lookup = λ key s. lookup key mappings;
    record_file = λ f. on_table (record_file db (row_of f));
    cleanup = λ f. on_table (cleanup db f.file_id f.shard_key);
    cancel_record = λ id. on_table (cancel db id);
    accept_file = λ agg f. on_rest (gateway.accept_file agg f);
    cancel_file = λ agg c. on_rest (gateway.cancel_file agg c);
    send = λ e. on_rest (gateway.send e);
    unique_violation = gateway.unique_violation;
  }

  -- The database's refusal of a second row is a unique violation, and no other refusal is one.
  pub record TellsDuplicates : Type 0 where
    pub never_refuses : (t : Table) → db.refuses_insert t ≡ none
    pub duplicate_violates :
        gateway.unique_violation (errorf_w (txt "recording file failed: ") db.duplicate) ≡ true

  record_file-row :
      (f : AchFile F) (t : Table) {u : Table}
      → record_file db (row_of f) t ≡ (none, u)
      → recorded u f.file_id ≡ some f.shard_key
  record_file-row f t {u} h =
      let row = ap (λ (x : Table). x f.file_id) (record_file_lem db (row_of f) t h).1 in
      ground (arith, row, text_eq_refl f.file_id)

  record_file-twice :
      (f : AchFile F) (t : Table)
      → db.refuses_insert t ≡ none
      → {u : Table} {e : Error} → record_file db (row_of f) t ≡ (some e, u)
      → recorded u f.file_id ≢ none
  unfolding record_file
  record_file-twice f t up {u} h =
      let same = ap (λ (x : Option Error × Table). recorded x.1 f.file_id) h in
      ground (arith, up, h, same)

  record_file-unchanged :
      (f : AchFile F) (t : Table) {u : Table} {e : Error}
      → record_file db (row_of f) t ≡ (some e, u)
      → recorded u f.file_id ≡ recorded t f.file_id
  unfolding record_file
  record_file-unchanged f t {u} h =
      let same = ap (λ (x : Option Error × Table). recorded x.1 f.file_id) h in
      ground (arith, h, same)

  absent : (f : AchFile F) (t : Table) → recorded t f.file_id ≢ none → t f.file_id ≢ none
  absent f t h gone = h (ground (arith, gone))

  forgotten : (f : AchFile F) (t : Table) → t f.file_id ≡ none → recorded t f.file_id ≡ none
  forgotten f t gone = ground (arith, gone)

  -- Over a database that refuses an insertion only for a duplicate key, which counts as a unique
  -- violation, the files table and the shard mappings keep the contract on which the receiver
  -- relies: rows are recorded, refused a second time, and forgotten on a cleanup.
  pub wired-IsFilesTable : TellsDuplicates → IsFilesTable wired (λ s. recorded s.0)
  wired-IsFilesTable d = record {
    record_file-records = λ f s {t} h. record_file-row f s.0 (λ i. ((h i).0, (h i).1.0));
    record_file-again = λ f s h.
        let again = record_file-again db (row_of f) s.0 (d.never_refuses s.0) (absent f s.0 h) in
        (
          errorf_w (txt "recording file failed: ") db.duplicate,
          λ i. ((again i).0, ((again i).1, s.1)),
          d.duplicate_violates,
        );
    record_file-refused = λ f s {t} {e} h. record_file-unchanged f s.0 (λ i. ((h i).0, (h i).1.0));
    violation-recorded = λ f s {t} {e} h v.
        record_file-twice f s.0 (d.never_refuses s.0) (λ i. ((h i).0, (h i).1.0));
    cleanup-forgets = λ f s {t} h k.
        forgotten f t.0 (cleanup_lem db f.file_id f.shard_key s.0 (λ i. ((k i).0, (k i).1.0)) h);
    accept_file-frame = λ agg f s id. refl;
    lookup-record_file = λ key f s. refl;
    lookup-accept_file = λ key agg f s. refl;
  }
