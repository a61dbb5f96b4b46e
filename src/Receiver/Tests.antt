-- ===== src/Receiver/Tests.antt =====
-- The receiver's theorems at a small gateway: two shards, no file accepted yet, and an aggregator
-- that refuses the file "bad".
use achgateway.Base.{
  Text, txt, text_eq, text_contains, Error, new_error, is, no_rows, Bool, true, false, Option, none,
  some, List, [], ◌∷◌, ◌≡◌, ◌≢◌, ◌↔◌, ◌+◌, ◌&&◌, is_nil, refl, if◌then◌else◌, arith,
}
use achgateway.Files.{Table, Database, put_row, record_file}
use achgateway.Files.Laws.{recorded}
use achgateway.Incoming.{AchFile, validate}
use achgateway.Models.{Event}
use achgateway.Receiver.{
  Config, Receiver, find_aggregator, get_aggregator, accept_recorded, record_and_accept,
  process_ach_file, should_autocommit,
}
use achgateway.Receiver.Acks.{IsConfigured, is_request, acks-process_message, get_aggregator_total}
use achgateway.Receiver.Once.{IsFilesTable, redelivery_changes_nothing}
use achgateway.Receiver.Process.{process_message}
use achgateway.Receiver.Wired.{Gateway, wired, TellsDuplicates, wired-IsFilesTable}
use achgateway.Shards.{ShardMapping, lookup}

abbrev db : Database
db = record {
  refuses_insert = λ t. none;
  refuses_delete = λ t. none;
  refuses_update = λ t. none;
  duplicate = new_error (txt "Duplicate entry");
}

abbrev good : AchFile Text
good = record { file_id = txt "one"; shard_key = txt "key"; file = some (txt "101") }

abbrev bad : AchFile Text
bad = record { file_id = txt "bad"; shard_key = txt "key"; file = some (txt "101") }

abbrev rejected : AchFile Text → Bool
rejected f = text_eq f.file_id (txt "bad")

-- A message that starts with X does not decode in full.
abbrev decode : Text → Option (Event Text) × Option Error
decode [] = (none, none)
decode (c ∷ _) =
    if text_eq (c ∷ []) (txt "X")
    then (some (Event.queue_ach_file good), some (new_error (txt "bad file")))
    else (some (Event.queue_ach_file good), none)

abbrev gateway : Gateway Text (List (Event Text))
gateway = record {
  reveal = λ body. (body, none);
  read = decode;
  accept_file = λ agg f log. (
    (
      record { file_id = f.file_id; shard_key = f.shard_key; error = [] },
      if rejected f then some (new_error (txt "disk is full")) else none,
    ),
    log,
  );
  cancel_file = λ agg c log.
      ((record { file_id = c.file_id; shard_key = c.shard_key; successful = true }, none), log);
  send = λ e log. (none, e ∷ log);
  unique_violation = λ e. text_contains e.message (txt "Duplicate entry");
}

abbrev mappings : List ShardMapping
mappings = record { shard_key = txt "key"; shard_name = txt "SD" } ∷ []

abbrev cfg : Config
cfg = record {
  autocommit = some false;
  default_shard = txt "main";
  aggregators = (txt "SD", some (txt "SD")) ∷ (txt "main", some (txt "main")) ∷ [];
  hostname = txt "host";
}

duplicates : TellsDuplicates db mappings (txt "host") gateway
unfolding text_contains
duplicates = record { never_refuses = λ t. refl; duplicate_violates = refl }

abbrev start : Receiver (Table × List (Event Text))
start = record {
  services = (λ id. none, []);
  queue_responses = [];
  cancellation_responses = [];
  acks = 0;
}

abbrev one_row : Table
one_row =
    put_row (txt "one")
      (some (record {
        file_id = txt "one";
        shard_key = txt "key";
        hostname = txt "host";
        canceled = false;
      }))
      (λ id. none)

abbrev accepted : Receiver (Table × List (Event Text))
accepted = record {
  services = (one_row, []);
  queue_responses = record { file_id = txt "one"; shard_key = txt "key"; error = [] } ∷ [];
  cancellation_responses = [];
  acks = 0;
}

runs_process :
    process_ach_file (wired db mappings (txt "host") gateway) cfg good start ≡ (none, accepted)
unfolding process_ach_file record_and_accept get_aggregator find_aggregator record_file lookup
    validate text_eq accept_recorded
runs_process = refl

redelivery_changes_nothing_example :
    process_ach_file (wired db mappings (txt "host") gateway) cfg good accepted ≡ (none, accepted)
redelivery_changes_nothing_example =
    redelivery_changes_nothing (wired db mappings (txt "host") gateway) cfg (λ s. recorded s.0)
      (wired-IsFilesTable db mappings (txt "host") gateway duplicates) good start runs_process

abbrev bad_row : Table
bad_row =
    put_row (txt "bad")
      (some (record {
        file_id = txt "bad";
        shard_key = txt "key";
        hostname = txt "host";
        canceled = false;
      }))
      (λ id. none)

acks-process_message_example :
    let (failed, r') =
      process_message (wired db mappings (txt "host") gateway) cfg (txt "one") start in
    r'.acks
    ≡ 0
      + (if should_autocommit cfg
          then 1
          else if is_nil {A = Error} none && is_request (decode (txt "one")).0 && is_nil failed
          then 1
          else 0)
acks-process_message_example =
    acks-process_message (wired db mappings (txt "host") gateway) cfg (txt "one") start

no_nil_aggregator : (name : Text) → find_aggregator name cfg.aggregators ≢ some none
unfolding find_aggregator
no_nil_aggregator name h = ground (arith, h)

has_aggregators : IsConfigured cfg
unfolding find_aggregator text_eq
has_aggregators = record {
  no_nil = λ name h. absurd (no_nil_aggregator name h);
  default_exists = λ h. absurd (cc h);
}

get_aggregator_total_example :
    (get_aggregator (wired db mappings (txt "host") gateway) cfg (txt "other") start.services
      ≡ none)
    ↔ ((e : Error) × ((lookup (txt "other") mappings).1 ≡ some e) × (is e no_rows ≡ false))
get_aggregator_total_example =
    get_aggregator_total (wired db mappings (txt "host") gateway) cfg (txt "other") start.services
      has_aggregators

wired-IsFilesTable_example :
    IsFilesTable (wired db mappings (txt "host") gateway) (λ s. recorded s.0)
wired-IsFilesTable_example = wired-IsFilesTable db mappings (txt "host") gateway duplicates
