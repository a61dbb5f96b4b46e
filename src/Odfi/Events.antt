-- ===== src/Odfi/Events.antt =====
-- internal/incoming/odfi: the processors that turn a downloaded file into events (corrections.go,
-- incoming.go, prenotes.go, reconciliation.go, returns.go).
pub mod Laws
use achgateway.Base.{
  ℕ, Text, txt, text_eq, text_contains, to_lower, base, length, leb, nat_eq, Error, new_error,
  errorf_w, Bool, true, false, not, ◌&&◌, ◌||◌, Option, none, some, List, [], ◌∷◌, ◌++◌, map,
  if◌then◌else◌,
}
use achgateway.Models.{
  EntryDetail, EntryBatch, Event, incoming_file, correction_file, return_file, prenote_file,
  reconciliation_file, reconciliation_entry,
}
use mathlib.Core.List.{Perm}
use achgateway.Odfi.{AchReader}

-- internal/service/model_inbound.go
pub record OdfiCorrections : Type 0 where
  pub enabled : Bool
  pub path_matcher : Text

pub record OdfiIncoming : Type 0 where
  pub enabled : Bool
  pub path_matcher : Text
  pub exclude_corrections : Bool
  pub exclude_prenotes : Bool
  pub exclude_returns : Bool
  pub exclude_reconciliations : Bool

pub record OdfiReconciliation : Type 0 where
  pub enabled : Bool
  pub path_matcher : Text
  pub produce_file_events : Bool
  pub produce_entry_events : Bool

pub record OdfiPrenotes : Type 0 where
  pub enabled : Bool
  pub path_matcher : Text

pub record OdfiReturns : Type 0 where
  pub enabled : Bool
  pub path_matcher : Text

-- The test with which every processor leaves a file alone.
unfoldable pub path_skipped : Text → Text → Bool
unfolding text_eq text_contains
path_skipped matcher filepath =
    not (text_eq matcher []) && not (text_contains (to_lower filepath) matcher)

abbrev pub mem_nat : ℕ → List ℕ → Bool
mem_nat n [] = false
mem_nat n (m ∷ ms) = nat_eq m n || mem_nat n ms

-- `svc` is the emitter, or nil. What a nil ACH file leads to, a panic in some processors, is not
-- modelled there: they take the file that was read.
module _ (lib : AchReader) {S : Type 0} (svc : Option (Event lib.File → S → Option Error × S)) where
  unfoldable pub send_event : Text → Event lib.File → S → Option Error × S
  send_event kind event s = elim svc [
    | none ↦ (none, s)
    | some send ↦
        let (failed, t) = send event s in
        (
          elim failed [
            | none ↦ none
            | some e ↦ some (errorf_w (txt "sending " ++ kind ++ txt " event: ") e)
          ],
          t,
        )
  ]

  -- len(...) >= 0
  unfoldable pub is_correction_file : lib.File → Bool
  is_correction_file file = leb 0 (length (lib.notifications_of_change file))

  unfoldable pub is_return_file : lib.File → Bool
  is_return_file file = leb 0 (length (lib.return_entries file))

  -- The first result of isPrenoteEntry: an amount other than zero gives an error beside it, which no
  -- caller looks at.
  unfoldable pub is_prenote_entry : EntryDetail → Bool
  is_prenote_entry entry = mem_nat entry.transaction_code lib.prenote_codes

  unfoldable pub has_prenote : List EntryDetail → Bool
  unfolding is_prenote_entry
  has_prenote [] = false
  has_prenote (e ∷ es) = is_prenote_entry e || has_prenote es

  unfoldable pub has_prenote_batch : List EntryBatch → Bool
  unfolding has_prenote
  has_prenote_batch [] = false
  has_prenote_batch (b ∷ bs) = has_prenote b.entries || has_prenote_batch bs

  unfoldable pub is_prenote_file : lib.File → Bool
  unfolding has_prenote_batch
  is_prenote_file file = has_prenote_batch (lib.batches file)

  unfoldable pub is_reconciliation_file : OdfiReconciliation → Text → Bool
  unfolding text_eq text_contains
  is_reconciliation_file cfg filepath =
      cfg.enabled
      && not (text_eq cfg.path_matcher [])
      && text_contains (to_lower filepath) cfg.path_matcher

  unfoldable pub handle_correction : OdfiCorrections → Text → lib.File → S → Option Error × S
  unfolding path_skipped base
  handle_correction cfg filepath file s =
      if not (is_correction_file file)
      then (none, s)
      else if path_skipped cfg.path_matcher filepath
      then (none, s)
      else send_event (txt "correction")
          (correction_file (base filepath) file (lib.notifications_of_change file)) s

  unfoldable pub handle_return : OdfiReturns → Text → lib.File → S → Option Error × S
  unfolding path_skipped base
  handle_return cfg filepath file s =
      if not (is_return_file file)
      then (none, s)
      else if path_skipped cfg.path_matcher filepath
      then (none, s)
      else send_event (txt "return") (return_file (base filepath) file (lib.return_entries file)) s

  -- The batch of the loop body, which is not put into the list of batches: the source builds it and
  -- does not append it.
  unfoldable pub prenotes_of : List EntryDetail → List EntryDetail
  unfolding is_prenote_entry
  prenotes_of [] = []
  prenotes_of (e ∷ es) = let rest = prenotes_of es in if is_prenote_entry e then e ∷ rest else rest

  unfoldable pub collect_batches : List EntryBatch → List EntryBatch → List EntryBatch
  unfolding prenotes_of
  collect_batches [] batches = batches
  collect_batches (b ∷ bs) batches =
      let batch : EntryBatch = record { header = b.header; entries = prenotes_of b.entries } in
      collect_batches bs batches

  unfoldable pub handle_prenotes : OdfiPrenotes → Text → lib.File → S → Option Error × S
  unfolding path_skipped base
  handle_prenotes cfg filepath file s =
      let batches = collect_batches (lib.batches file) [] in
      let event = prenote_file (base filepath) file batches in
      if path_skipped cfg.path_matcher filepath
      then (none, s)
      else (elim batches [ [] ↦ (none, s) | _ ∷ _ ↦ send_event (txt "pre-note") event s ])

  unfoldable pub is_excluded : OdfiIncoming → OdfiReconciliation → Text → lib.File → Bool
  is_excluded cfg recon filepath file =
      (cfg.exclude_corrections && is_correction_file file)
      || (cfg.exclude_prenotes && is_prenote_file file)
      || (cfg.exclude_returns && is_return_file file)
      || (cfg.exclude_reconciliations && is_reconciliation_file recon filepath)

  unfoldable pub handle_incoming :
      OdfiIncoming → OdfiReconciliation → Text → lib.File → S → Option Error × S
  unfolding path_skipped base
  handle_incoming cfg recon filepath file s =
      if path_skipped cfg.path_matcher filepath
      then (none, s)
      else if is_excluded cfg recon filepath file
      then (none, s)
      else send_event (txt "incoming file") (incoming_file (base filepath) file) s

  unfoldable pub nonempty_batches : List EntryBatch → List EntryBatch
  nonempty_batches [] = []
  nonempty_batches (b ∷ bs) =
      let rest = nonempty_batches bs in elim b.entries [ [] ↦ rest | _ ∷ _ ↦ b ∷ rest ]

  unfoldable pub produce_file_event : Text → lib.File → S → Option Error × S
  unfolding base
  produce_file_event filepath file s =
      let recons = nonempty_batches (lib.batches file) in
      elim recons [
        | [] ↦ (none, s)
        | b ∷ bs ↦
            send_event (txt "reconciliations") (reconciliation_file (base filepath) file (b ∷ bs)) s
      ]

  abbrev pub entry_event : Text → Text → EntryDetail → Event lib.File
  entry_event filepath header entry = reconciliation_entry (base filepath) header entry

  abbrev pub entry_events : Text → List EntryBatch → List (Event lib.File)
  entry_events filepath [] = []
  entry_events filepath (b ∷ bs) =
      map (entry_event filepath b.header) b.entries ++ entry_events filepath bs

  -- The goroutines of an errgroup, in the order in which they send: all of them do.
  unfoldable pub send_group : Text → List (Event lib.File) → S → List Error × S
  unfolding send_event
  send_group kind [] s = ([], s)
  send_group kind (event ∷ events) s =
      let (failed, t) = send_event kind event s in
      let (later, u) = send_group kind events t in
      (elim failed [ some e ↦ e ∷ later | none ↦ later ], u)

  -- The order in which the goroutines of the groups send, which the Go scheduler settles.
  abbrev pub Schedule : Type 0
  Schedule = (events : List (Event lib.File)) → (order : List (Event lib.File)) × Perm order events

  -- `pick` is which of their errors the outer Wait gives.
  module _ (schedule : Schedule) (pick : Error → List Error → Error) where
    abbrev wait : List Error → Option Error
    wait [] = none
    wait (e ∷ es) = some (pick e es)

    unfoldable pub produce_entry_events : Text → lib.File → S → Option Error × S
    unfolding send_group
    produce_entry_events filepath file s =
        let (errors, t) =
          send_group (txt "reconciliations") (schedule (entry_events filepath (lib.batches file))).0
            s in
        (wait errors, t)

    abbrev produce_entries_if : Bool → Text → lib.File → S → Option Error × S
    produce_entries_if wanted filepath file s =
        let (failed, t) = produce_entry_events filepath file s in
        if wanted
        then (elim failed [
          | none ↦ (none, t)
          | some e ↦ (some (errorf_w (txt "producing entry event: ") e), t)
        ])
        else (none, s)

    unfoldable pub handle_reconciliation :
        OdfiReconciliation → Text → Option lib.File → S → Option Error × S
    handle_reconciliation cfg filepath none s = (some (new_error (txt "nil ach.File")), s)
    handle_reconciliation cfg filepath (some file) s =
        let (failed, t) = produce_file_event filepath file s in
        if not (is_reconciliation_file cfg filepath)
        then (none, s)
        else if not cfg.produce_file_events
        then produce_entries_if cfg.produce_entry_events filepath file s
        else elim failed [
          | some e ↦ (some (errorf_w (txt "producing file event: ") e), t)
          | none ↦ produce_entries_if cfg.produce_entry_events filepath file t
        ]
