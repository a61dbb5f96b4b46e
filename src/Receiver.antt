-- ===== src/Receiver.antt =====
-- internal/pipeline/file_receiver.go: messages come in, files and cancellations go to the
-- aggregator of their shard.
pub mod Services
pub mod Process
pub mod Once
pub mod Acks
pub mod Wired
pub mod Loop
pub mod Admin
mod Tests
use achgateway.Base.{
  ℕ, ◌+◌, Text, txt, text_eq, text_contains, Error, new_error, errorf_v, errorf_w, print_v, is,
  no_rows, Bool, true, false, ◌||◌, not, Option, none, some, List, [], ◌∷◌, ◌++◌, if◌then◌else◌,
}
use achgateway.Incoming.{
  AchFile, validate, CancelAchFile, FileCancellationResponse, QueueAchFileResponse,
}
use achgateway.Models.{invalid_queue_file}
use achgateway.Receiver.Services.{Ports}

-- The fields that do not change: whether Kafka is configured and commits by itself, the default
-- shard, and the aggregators by shard name, each with its own name. A nil aggregator is `none`.
pub record Config : Type 0 where
  pub autocommit : Option Bool
  pub default_shard : Text
  pub aggregators : List (Text × Option Text)
  pub hostname : Text

-- The services, what went into the two response channels, and how often a message was acknowledged.
pub record Receiver (S : Type 0) : Type 0 where
  pub services : S
  pub queue_responses : List QueueAchFileResponse
  pub cancellation_responses : List FileCancellationResponse
  pub acks : ℕ

unfoldable pub contains_any : Text → List Text → Bool
unfolding text_contains
contains_any es [] = false
contains_any es (o ∷ options) = text_contains es o || contains_any es options

unfoldable pub is_network_error : Error → Bool
unfolding contains_any
is_network_error e =
    contains_any e.message
      (txt "connect: " ∷ txt "write:" ∷ txt "broken pipe" ∷ txt "pubsub" ∷ txt "EOF" ∷ [])

unfoldable pub should_autocommit : Config → Bool
should_autocommit cfg = elim cfg.autocommit [ none ↦ false | some auto ↦ auto ]

-- shardAggregators[name], with the test whether the key is there.
unfoldable pub find_aggregator : Text → List (Text × Option Text) → Option (Option Text)
unfolding text_eq
find_aggregator name [] = none
find_aggregator name ((key, agg) ∷ rest) =
    if text_eq key name then some agg else find_aggregator name rest

abbrev or_default : Option (Option Text) → Option (Option Text) → Option Text
or_default (some agg) d = agg
or_default none (some agg) = agg
or_default none none = none

-- An error of the lookup that is not sql.ErrNoRows ends the search.
abbrev lookup_failed : Option Error → Bool
lookup_failed none = false
lookup_failed (some e) = not (is e no_rows)

module _ {F S : Type 0} (ports : Ports F S) (cfg : Config) where
  abbrev pub shard_name_of : Text → S → Text
  shard_name_of shard_key s =
      let name = (ports.lookup shard_key s).0 in if text_eq name [] then shard_key else name

  unfoldable pub get_aggregator : Text → S → Option Text
  get_aggregator shard_key s =
      if lookup_failed (ports.lookup shard_key s).1
      then none
      else or_default (find_aggregator (shard_name_of shard_key s) cfg.aggregators)
          (find_aggregator cfg.default_shard cfg.aggregators)

  abbrev pub ack : Receiver S → Receiver S
  ack r = record r { acks = r.acks + 1 }

  abbrev pub set_services : Receiver S → S → Receiver S
  set_services r s = record r { services = s }

  unfoldable pub produce_invalid_queue_file : AchFile F → Error → S → Option Error × S
  produce_invalid_queue_file file e s =
      ports.send (invalid_queue_file file e.message cfg.hostname) s

  -- The error of acceptFile is not in the message: the source formats `err`, which is nil here.
  unfoldable pub accept_recorded : Text → AchFile F → Receiver S → Option Error × Receiver S
  accept_recorded agg file r =
      let (result, t) = ports.accept_file agg file r.services in
      elim result.1 [
        | none ↦ (
          none,
          record r { services = t; queue_responses = r.queue_responses ++ (result.0 ∷ []) },
        )
        | some _ ↦ (
          some (new_error (txt "problem accepting file: " ++ print_v none)),
          set_services r (ports.cleanup file t).1,
        )
      ]

  unfoldable pub record_and_accept : Text → AchFile F → Receiver S → Option Error × Receiver S
  record_and_accept agg file r =
      let (failed, t) = ports.record_file file r.services in
      elim failed [
        | none ↦ accept_recorded agg file (set_services r t)
        | some e ↦
            if ports.unique_violation e
            then (none, set_services r t)
            else (some (errorf_v (txt "not handling received ACH file: ") e), set_services r t)
      ]

  unfoldable pub process_ach_file : AchFile F → Receiver S → Option Error × Receiver S
  process_ach_file file r =
      if text_eq file.file_id [] || text_eq file.shard_key []
      then (some (new_error (txt "missing fileID or shardKey")), r)
      else elim (validate file) [
        | some e ↦ (none, r)
        | none ↦ elim (get_aggregator file.shard_key r.services) [
          | none ↦ (
            some (
                new_error (txt "no aggregator for shard key " ++ (file.shard_key ++ txt " found"))),
            r,
          )
          | some agg ↦ record_and_accept agg file r
        ]
      ]

  unfoldable pub cancel_recorded : Text → CancelAchFile → Receiver S → Option Error × Receiver S
  cancel_recorded agg cancel r =
      let (result, t) = ports.cancel_file agg cancel r.services in
      elim result.1 [
        | some e ↦ (some (errorf_v (txt "problem canceling file: ") e), set_services r t)
        | none ↦ (
          none,
          record r {
            services = t;
            cancellation_responses = r.cancellation_responses ++ (result.0 ∷ []);
          },
        )
      ]

  unfoldable pub cancel_ach_file : CancelAchFile → Receiver S → Option Error × Receiver S
  cancel_ach_file cancel r =
      if text_eq cancel.file_id [] || text_eq cancel.shard_key []
      then (some (new_error (txt "missing fileID or shardKey")), r)
      else elim (get_aggregator cancel.shard_key r.services) [
        | none ↦ (none, r)
        | some agg ↦
            let (failed, t) = ports.cancel_record cancel.file_id r.services in
            elim failed [
              | some e ↦
                  (some (errorf_v (txt "problem recording cancellation: ") e), set_services r t)
              | none ↦ cancel_recorded agg cancel (set_services r t)
            ]
      ]
