-- ===== src/Receiver/Loop/Tests.antt =====
-- The loop at a stream that breaks once and is opened again.
use achgateway.Base.{
  ℕ, ◌+◌, ◌≤◌, txt, text_contains, new_error, ok, true, none, some, List, [], ◌∷◌, ◌++◌,
}
use achgateway.Receiver.{Config}
use achgateway.Receiver.Services.{Ports}
use achgateway.Receiver.Loop.{Streams, Running, Wakeup, http, stream, dropped, late, done, start}
use achgateway.Receiver.Loop.Laws.{acks-start}

-- The services count the subscriptions that were opened; no message has an event.
abbrev ports : Ports ℕ ℕ
ports = record {
  reveal = λ body. (body, none);
  read = λ bytes. (none, none);
  lookup = λ key s. (txt "SD", none);
  record_file = λ f s. (none, s);
  cleanup = λ f s. (none, s);
  cancel_record = λ id s. (none, s);
  accept_file =
      λ agg f s. ((record { file_id = f.file_id; shard_key = f.shard_key; error = [] }, none), s);
  cancel_file = λ agg c s.
      ((record { file_id = c.file_id; shard_key = c.shard_key; successful = true }, none), s);
  send = λ e s. (none, s);
  unique_violation = λ e. text_contains e.message (txt "Duplicate");
}

abbrev cfg : Config
cfg = record {
  autocommit = some true;
  default_shard = txt "SD";
  aggregators = [];
  hostname = txt "host";
}

abbrev streams : Streams ℕ
streams = record {
  has_http = true;
  shutdown_http = λ s. (none, s);
  shutdown_stream = λ s. (none, s);
  open_subscription = λ s. (ok true, s + 1);
}

abbrev running : Running ℕ
running = record {
  receiver = record { services = 0; queue_responses = []; cancellation_responses = []; acks = 0 };
  has_stream = true;
}

abbrev arrivals : List Wakeup
arrivals =
    http none (some (txt "hello"))
    ∷ dropped (txt "lost")
    ∷ stream (some (new_error (txt "broken pipe"))) none
    ∷ late (txt "beside")
    ∷ []

acks-start_example :
    (start ports cfg streams (arrivals ++ (done ∷ late (txt "later") ∷ [])) running).receiver.acks
    ≤ 0 + 2
acks-start_example =
    acks-start ports cfg streams (arrivals ++ (done ∷ late (txt "later") ∷ [])) running
