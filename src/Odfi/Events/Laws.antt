-- ===== src/Odfi/Events/Laws.antt =====
-- Which events the processors of internal/incoming/odfi send.
use achgateway.Base.{
  Text, base, Error, true, false, ◌||◌, Option, none, some, List, [], ◌∷◌, ◌≡◌, refl, arith,
}
use achgateway.Models.{EntryBatch, Event, correction_file, return_file}
use achgateway.Odfi.{AchReader}
use achgateway.Odfi.Events.{
  OdfiCorrections, OdfiIncoming, OdfiReconciliation, OdfiPrenotes, OdfiReturns, path_skipped,
  send_event, is_correction_file, is_return_file, collect_batches, handle_correction, handle_return,
  handle_prenotes, is_excluded, handle_incoming,
}

module _ (lib : AchReader) {S : Type 0} where
  collect_batches-same :
      (svc : Option (Event lib.File → S → Option Error × S)) (bs batches : List EntryBatch)
      → collect_batches lib svc bs batches ≡ batches
  unfolding collect_batches
  collect_batches-same svc [] batches = refl
  collect_batches-same svc (b ∷ bs) batches = collect_batches-same svc bs batches

  -- No file leads to a PrenoteFile event, whatever prenote entries it has: the processor never
  -- sends anything, and never fails.
  pub prenotes_are_never_sent :
      (svc : Option (Event lib.File → S → Option Error × S)) (cfg : OdfiPrenotes) (path : Text)
      (file : lib.File) (s : S)
      → handle_prenotes lib svc cfg path file s ≡ (none, s)
  unfolding handle_prenotes
  prenotes_are_never_sent svc cfg path file s =
      ground (arith, collect_batches-same svc (lib.batches file) [])

  -- With corrections or returns excluded, no file leads to an IncomingFile event, whether it holds
  -- a correction or a return or not.
  pub exclusion_stops_every_file :
      (svc : Option (Event lib.File → S → Option Error × S)) (cfg : OdfiIncoming)
      (recon : OdfiReconciliation) (path : Text) (file : lib.File) (s : S)
      → (cfg.exclude_corrections || cfg.exclude_returns) ≡ true
      → handle_incoming lib svc cfg recon path file s ≡ (none, s)
  unfolding handle_incoming is_excluded is_correction_file is_return_file
  exclusion_stops_every_file svc cfg recon path file s h = ground (arith, h)

  module _ (send : Event lib.File → S → Option Error × S) where
    -- A file whose path fits both path matchers is sent as a CorrectionFile and as a ReturnFile
    -- event, with its notifications of change and its return entries, which need not be any.
    pub every_file_is_a_correction_and_a_return :
        (corrections : OdfiCorrections) (returns : OdfiReturns) (path : Text) (file : lib.File)
        (s : S)
        → path_skipped corrections.path_matcher path ≡ false
        → path_skipped returns.path_matcher path ≡ false
        → ((handle_correction lib (some send) corrections path file s).1
            ≡ (send (correction_file (base path) file (lib.notifications_of_change file)) s).1)
          × ((handle_return lib (some send) returns path file s).1
              ≡ (send (return_file (base path) file (lib.return_entries file)) s).1)
    unfolding handle_correction handle_return is_correction_file is_return_file send_event
    every_file_is_a_correction_and_a_return corrections returns path file s fits fits' =
        (ground (arith, fits), ground (arith, fits'))
