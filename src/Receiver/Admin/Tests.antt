-- ===== src/Receiver/Admin/Tests.antt =====
-- A request for a shard that is there and for one that is not.
use achgateway.Base.{ℕ, ◌+◌, Text, txt, text_eq, true, none, some, [], ◌∷◌, All, ◌≡◌, if◌then◌else◌}
use achgateway.Receiver.{Config, find_aggregator}
use achgateway.Receiver.Admin.{Answers, has_errors, AdminPorts, trigger_manual_cutoff}
use achgateway.Receiver.Admin.Laws.{is_answered, answer_name, trigger_answers}

-- The state counts the cutoffs.
abbrev ports : AdminPorts ℕ
ports = record {
  manual_cutoff = λ agg s. (none, s + 1);
  alert = λ agg e s. s;
  storage = λ agg. none;
  stat_name = λ path s. path;
  File = Text;
  read = λ contents. (contents, none);
  write = λ file. (file, none);
  validate_file = λ file. none;
  base64 = λ bytes. bytes;
}

abbrev cfg : Config
cfg = record {
  autocommit = none;
  default_shard = txt "SD";
  aggregators = (txt "SD", some (txt "SD")) ∷ [];
  hostname = txt "host";
}

trigger_answers_example :
    (answers : Answers) × (t : ℕ) × (trigger_manual_cutoff ports cfg true
        (txt "SD" ∷ txt "XX" ∷ [])
        0
      ≡ some (record { status = if has_errors answers then 400 else 200; body = some answers }, t))
    × All (λ n. is_answered (answer_name ports cfg n) answers ≡ true) (txt "SD" ∷ txt "XX" ∷ [])
unfolding find_aggregator text_eq
trigger_answers_example =
    trigger_answers ports cfg (txt "SD") (txt "XX" ∷ []) 0 ((λ e. cc e), ((λ e. cc e), tt))
