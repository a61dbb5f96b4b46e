-- ===== src/Config/Tests.antt =====
-- A configuration with one shard.
use achgateway.Base.{txt, true, none, some, [], ◌∷◌, ◌≡◌, ◌↔◌}
use achgateway.Config.{Config, validate}
use achgateway.Config.Checks.{passed}
use achgateway.Config.Sharding.{Clock, Shard}
use achgateway.Config.Valid.{IsConfig, validate_iff}

abbrev clock : Clock
clock = record {
  has_location = λ zone. true;
  quote = λ t. t;
  show_index = λ n. txt "0";
  show_duration = λ n. txt "0s";
}

abbrev live : Shard
live = record {
  name = txt "live";
  cutoffs = record { timezone = txt "America/New_York"; windows = txt "14:30" ∷ [] };
  gpg_key_file = none;
  upload_agent = txt "sftp";
  outbound_filename_template = [];
  notifications = some (record { emails = []; pager_duties = []; slacks = [] });
  audit = none;
}

abbrev config : Config
config = record {
  inbound = record {
    in_mem = some (record { url = txt "mem://achgateway" });
    kafka = none;
    odfi = none;
  };
  events = none;
  shards = live ∷ [];
  upload = record {
    retry = some (record { interval = 5; max_retries = 3 });
    cleanup = some (record { enabled = true; retention_duration = 24; check_interval = 1 });
  };
  pager_duty_alerting = none;
}

validate_iff_example : (validate clock config ≡ passed) ↔ IsConfig clock config
validate_iff_example = validate_iff clock config
