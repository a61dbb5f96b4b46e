-- ===== src/Receiver/Process.antt =====
-- internal/pipeline/file_receiver.go, processMessage: from the bytes of a message to its handling.
use achgateway.Base.{
  Text, txt, Error, new_error, errorf_v, errorf_w, Bool, Option, none, some, if◌then◌else◌,
}
use achgateway.Incoming.{AchFile, CancelAchFile}
use achgateway.Models.{Event}
use achgateway.Receiver.{
  Config, Receiver, should_autocommit, ack, set_services, produce_invalid_queue_file,
  process_ach_file, cancel_ach_file,
}
use achgateway.Receiver.Services.{Ports}

module _ {F S : Type 0} (ports : Ports F S) (cfg : Config) where
  abbrev ack_if_needed : Bool → Receiver S → Receiver S
  ack_if_needed committed r = if committed then r else ack ports cfg r

  -- An InvalidQueueFile event, and the error that the message ends with.
  unfoldable pub report_invalid : Text → AchFile F → Error → Receiver S → Option Error × Receiver S
  unfolding produce_invalid_queue_file
  report_invalid problem file e r =
      let (failed, t) = produce_invalid_queue_file ports cfg file e r.services in
      elim failed [
        | some e' ↦ (some (errorf_w problem e'), set_services ports cfg r t)
        | none ↦ (some e, set_services ports cfg r t)
      ]

  unfoldable pub handle_file :
      Bool → AchFile F → Option Error → Receiver S → Option Error × Receiver S
  handle_file committed file (some read_err) r =
      report_invalid (txt "problem producing InvalidQueueFile: ") file read_err r
  handle_file committed file none r =
      let (failed, r') = process_ach_file ports cfg file r in
      elim failed [
        | none ↦ (none, ack_if_needed committed r')
        | some e ↦
            report_invalid (txt "problem producing InvalidQueueFile after processing file: ") file e
              r'
      ]

  unfoldable pub handle_cancellation : Bool → CancelAchFile → Receiver S → Option Error × Receiver S
  handle_cancellation committed cancel r =
      let (failed, r') = cancel_ach_file ports cfg cancel r in
      elim failed [ none ↦ (none, ack_if_needed committed r') | some e ↦ (some e, r') ]

  unfoldable pub handle_event :
      Bool → Event F → Option Error → Receiver S → Option Error × Receiver S
  unfolding handle_file handle_cancellation
  handle_event committed (Event.queue_ach_file file) read_err r =
      handle_file committed file read_err r
  handle_event committed (Event.cancel_ach_file cancel) read_err r =
      handle_cancellation committed cancel r
  handle_event committed event read_err r = (some (new_error (txt "unhandled message")), r)

  unfoldable pub process_message : Text → Receiver S → Option Error × Receiver S
  process_message body r =
      let committed = should_autocommit cfg in
      let r' = if committed then ack ports cfg r else r in
      let (bytes, hidden) = ports.reveal body in
      let (event, read_err) = ports.read bytes in
      elim hidden [
        | some e ↦ (some (errorf_v (txt "unable to reveal event: ") e), r')
        | none ↦ elim event [
          | none ↦ (none, r')
          | some evt ↦ handle_event committed evt read_err r'
        ]
      ]
