-- ===== src/Receiver/Once.antt =====
-- internal/pipeline/file_receiver.go: the record in the files table decides who handles a file.
use achgateway.Base.{
  Text, text_eq, Error, true, ◌||◌, Bool-cases, Option-cases, inl, inr, Option, none, some, [], ◌≡◌,
  ◌≢◌, arith,
}
use achgateway.Incoming.{AchFile, validate}
use achgateway.Receiver.{
  Config, Receiver, get_aggregator, accept_recorded, record_and_accept, process_ach_file,
}
use achgateway.Receiver.Services.{Ports}

-- The table of accepted files has one row for a file ID; `recorded` gives the
-- shard key in it.
pub record IsFilesTable {F S : Type 0} (ports : Ports F S) (recorded : S → Text → Option Text)
    : Type 0 where
  pub record_file-records :
      (f : AchFile F) (s : S) {t : S}
      → ports.record_file f s ≡ (none, t)
      → recorded t f.file_id ≡ some f.shard_key
  pub record_file-again :
      (f : AchFile F) (s : S)
      → recorded s f.file_id ≢ none
      → (e : Error) × (ports.record_file f s ≡ (some e, s)) × (ports.unique_violation e ≡ true)
  pub record_file-refused :
      (f : AchFile F) (s : S) {t : S} {e : Error}
      → ports.record_file f s ≡ (some e, t)
      → recorded t f.file_id ≡ recorded s f.file_id
  pub violation-recorded :
      (f : AchFile F) (s : S) {t : S} {e : Error}
      → ports.record_file f s ≡ (some e, t)
      → ports.unique_violation e ≡ true
      → recorded t f.file_id ≢ none
  pub cleanup-forgets :
      (f : AchFile F) (s : S) {t : S}
      → recorded s f.file_id ≡ some f.shard_key
      → ports.cleanup f s ≡ (none, t)
      → recorded t f.file_id ≡ none
  pub accept_file-frame :
      (agg : Text) (f : AchFile F) (s : S) (id : Text)
      → recorded (ports.accept_file agg f s).1 id ≡ recorded s id
  pub lookup-record_file :
      (key : Text) (f : AchFile F) (s : S)
      → ports.lookup key (ports.record_file f s).1 ≡ ports.lookup key s
  pub lookup-accept_file :
      (key agg : Text) (f : AchFile F) (s : S)
      → ports.lookup key (ports.accept_file agg f s).1 ≡ ports.lookup key s

module _ {F S : Type 0} (ports : Ports F S) (cfg : Config) (recorded : S → Text → Option Text)
    (L : IsFilesTable ports recorded) where
  get_aggregator-eq :
      (key : Text) (s t : S)
      → ports.lookup key s ≡ ports.lookup key t
      → get_aggregator ports cfg key s ≡ get_aggregator ports cfg key t
  unfolding get_aggregator
  get_aggregator-eq key s t h = ground (arith, h)

  -- A file that was handled has its row, and the shard of its key is what it was.
  record_and_accept-records :
      (agg : Text) (f : AchFile F) (r : Receiver S) {r' : Receiver S}
      → record_and_accept ports cfg agg f r ≡ (none, r')
      → (recorded r'.services f.file_id ≢ none)
        × (ports.lookup f.shard_key r'.services ≡ ports.lookup f.shard_key r.services)
  unfolding record_and_accept accept_recorded
  record_and_accept-records agg f r {r'} h = elim (Option-cases recording.0) [
    | inl new ↦
        let row : recorded recording.1 f.file_id ≡ some f.shard_key =
          L.record_file-records f r.services (λ i. (new i, recording.1)) in
        ground (
          arith,
          new,
          row,
          L.accept_file-frame agg f recording.1 f.file_id,
          L.lookup-record_file f.shard_key f r.services,
          L.lookup-accept_file f.shard_key agg f recording.1,
        )
    | inr (e, old) ↦ elim (Bool-cases (ports.unique_violation e)) [
      | inl twice ↦
          let row : recorded recording.1 f.file_id ≢ none =
            L.violation-recorded f r.services (λ i. (old i, recording.1)) twice in
          ground (arith, old, twice, row, L.lookup-record_file f.shard_key f r.services)
      | inr failed ↦ ground (arith, old, failed)
    ]
  ]
    where
      recording : Option Error × S
      recording = ports.record_file f r.services

  record_and_accept-again :
      (agg : Text) (f : AchFile F) (r : Receiver S)
      → recorded r.services f.file_id ≢ none
      → record_and_accept ports cfg agg f r ≡ (none, r)
  unfolding record_and_accept
  record_and_accept-again agg f r h =
      let (e, again, violates) = L.record_file-again f r.services h in
      ground (arith, again, violates)

  -- Over a files table that refuses a second row with a file ID as a unique violation, and that
  -- accepting a file leaves alone, a file that was handled with no error (accepted, handled before,
  -- or invalid) and is delivered again is handled with no error, and nothing changes.
  pub redelivery_changes_nothing :
      (f : AchFile F) (r : Receiver S) {r' : Receiver S}
      → process_ach_file ports cfg f r ≡ (none, r')
      → process_ach_file ports cfg f r' ≡ (none, r')
  unfolding process_ach_file
  redelivery_changes_nothing f r {r'} h =
      elim (Bool-cases (text_eq f.file_id [] || text_eq f.shard_key [])) [
        | inl missing ↦ ground (arith, missing)
        | inr named ↦ elim (Option-cases (validate f)) [
          | inr (e, invalid) ↦ ground (arith, named, invalid)
          | inl valid ↦ elim (Option-cases (get_aggregator ports cfg f.shard_key r.services)) [
            | inl unknown ↦ ground (arith, named, valid, unknown)
            | inr (agg, found) ↦
                let first : record_and_accept ports cfg agg f r ≡ (none, r') =
                  ground (arith, named, valid, found, h) in
                let (row, same) = record_and_accept-records agg f r first in
                ground (
                  arith,
                  named,
                  valid,
                  found,
                  record_and_accept-again agg f r' row,
                  get_aggregator-eq f.shard_key r'.services r.services same,
                )
          ]
        ]
      ]
