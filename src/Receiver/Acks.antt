-- ===== src/Receiver/Acks.antt =====
-- When a message is acknowledged, and what becomes of messages that cannot be handled.
use achgateway.Base.{
  ◌+◌, Text, Error, is, no_rows, Bool, true, false, ◌&&◌, is_nil, Option, none, some, ◌≡◌, ◌≢◌, ◌↔◌,
  arith, if◌then◌else◌, Option-cases, Bool-cases, inl, inr,
}
use achgateway.Incoming.{AchFile, CancelAchFile}
use achgateway.Models.{Event}
use achgateway.Receiver.{
  Config, Receiver, should_autocommit, ack, get_aggregator, find_aggregator, shard_name_of,
  accept_recorded, record_and_accept, process_ach_file, cancel_recorded, cancel_ach_file,
}
use achgateway.Receiver.Process.{report_invalid, handle_event, process_message}
use achgateway.Receiver.Services.{Ports}

-- An event that asks for a file or a cancellation to be handled.
abbrev pub is_request : {F : Type 0} → Option (Event F) → Bool
is_request (some (Event.queue_ach_file f)) = true
is_request (some (Event.cancel_ach_file c)) = true
is_request _ = false

-- The aggregators are set up: no entry is nil and the default shard has one.
pub record IsConfigured (cfg : Config) : Type 0 where
  pub no_nil : (name : Text) → find_aggregator name cfg.aggregators ≢ some none
  pub default_exists : find_aggregator cfg.default_shard cfg.aggregators ≢ none

module _ {F S : Type 0} (ports : Ports F S) (cfg : Config) where
  acks-process_ach_file :
      (f : AchFile F) (r : Receiver S) → (process_ach_file ports cfg f r).1.acks ≡ r.acks
  unfolding process_ach_file record_and_accept accept_recorded
  acks-process_ach_file f r = ground arith

  acks-cancel_ach_file :
      (c : CancelAchFile) (r : Receiver S) → (cancel_ach_file ports cfg c r).1.acks ≡ r.acks
  unfolding cancel_ach_file cancel_recorded
  acks-cancel_ach_file c r = ground arith

  -- One acknowledgement for a request that ends with no error, none for anything else.
  acks-handle_event :
      (committed : Bool) (event : Event F) (read_err : Option Error) (r : Receiver S)
      → let (failed, r') = handle_event ports cfg committed event read_err r in
        r'.acks
        ≡ r.acks
          + (if committed then 0 else if is_request (some event) && is_nil failed then 1 else 0)
  unfolding handle_event report_invalid
  acks-handle_event committed (Event.queue_ach_file f) none r =
      ground (arith, acks-process_ach_file f r)
  acks-handle_event committed (Event.cancel_ach_file c) e r =
      ground (arith, acks-cancel_ach_file c r)
  acks-handle_event committed _ e r = ground arith

  -- With AutoCommit a message is acknowledged once; without it, it is acknowledged once if it could
  -- be revealed, asks for a file or a cancellation and was handled with no error, and in no other
  -- case.
  pub acks-process_message :
      (body : Text) (r : Receiver S)
      → let (failed, r') = process_message ports cfg body r in
        let (bytes, hidden) = ports.reveal body in
        r'.acks
        ≡ r.acks
          + (if should_autocommit cfg
              then 1
              else if is_nil hidden && is_request (ports.read bytes).0 && is_nil failed
              then 1
              else 0)
  unfolding process_message
  acks-process_message body r = elim (Option-cases (ports.read (ports.reveal body).0).0) [
    | inl nothing ↦ ground (arith, nothing)
    | inr (event, found) ↦ ground (
      arith,
      found,
      acks-handle_event (should_autocommit cfg) event (ports.read (ports.reveal body).0).1
          (if should_autocommit cfg then ack ports cfg r else r),
    )
  ]

  -- Where no aggregator is nil and the default shard has one, a shard key finds no aggregator
  -- exactly if its lookup fails with an error other than sql.ErrNoRows.
  pub get_aggregator_total :
      (key : Text) (s : S)
      → IsConfigured cfg
      → (get_aggregator ports cfg key s ≡ none)
        ↔ ((e : Error) × ((ports.lookup key s).1 ≡ some e) × (is e no_rows ≡ false))
  unfolding get_aggregator
  get_aggregator_total key s c = (λ h. no_aggregator h, λ (e, failed, other). ground arith)
    where
      found : (name : Text) → find_aggregator name cfg.aggregators ≢ some none
      found = c.no_nil

      no_aggregator :
          get_aggregator ports cfg key s ≡ none
          → (e : Error) × ((ports.lookup key s).1 ≡ some e) × (is e no_rows ≡ false)
      no_aggregator h = elim (Option-cases (ports.lookup key s).1) [
        | inl fine ↦ absurd (
            ground (
              arith,
              fine,
              found (shard_name_of ports cfg key s),
              found cfg.default_shard,
              c.default_exists,
            ))
        | inr (e, failed) ↦ elim (Bool-cases (is e no_rows)) [
          | inl no_row ↦ absurd (
              ground (
                arith,
                failed,
                no_row,
                found (shard_name_of ports cfg key s),
                found cfg.default_shard,
                c.default_exists,
              ))
          | inr other ↦ (e, failed, other)
        ]
      ]
