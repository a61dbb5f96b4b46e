-- ===== src/Aggregate/Tests.antt =====
-- The aggregator's theorems at a merging that uploads one file. The state is what went to the
-- upload agent and out as events.
use achgateway.Base.{
  Text, txt, text_eq, trim_suffix, split, Error, new_error, Bool, true, false, Option, none, some,
  List, [], ◌∷◌, ◌≡◌, refl, if◌then◌else◌,
}
use achgateway.Aggregate.{
  Aggregator, XferMerging, upload_result, filename_data, audit_path, run_transformers,
  with_each_file, upload_file, audit_and_upload, upload_and_notify, notify_after_upload,
  send_notification,
}
use achgateway.Aggregate.Laws.{with_each_file-emits, upload_file-audited}
use achgateway.Incoming.{CancelAchFile, FileCancellationResponse}
use achgateway.Merging.Tests.{toy}
use achgateway.Merging.Mapping.{MergedFile}
use achgateway.Models.{Event, file_uploaded}
use achgateway.Transform.{Transformed, for_upload}
use achgateway.Aggregate.Dispatch.{
  Setup, tick, format_holiday_message, send_slacks, on_cutoff, notify_about_holiday,
}
use achgateway.Schedule.{CutoffTimes, Now, maybe_tick}
use achgateway.Upload.{Agent, File}

pub record World : Type 0 where
  pub uploads : List File
  pub audits : List Text
  pub events : List (Event Text)

abbrev pub nothing : World
nothing = record { uploads = []; audits = []; events = [] }

abbrev pub agent : Agent World
agent = record {
  id = txt "sftp";
  hostname = txt "host";
  inbound_path = txt "inbound";
  outbound_path = txt "outbound";
  reconciliation_path = txt "reconciliation";
  return_path = txt "return";
  get_inbound_files = λ w. (([], none), w);
  get_reconciliation_files = λ w. (([], none), w);
  get_return_files = λ w. (([], none), w);
  upload_file = λ f w. (none, ([], record w { uploads = f ∷ w.uploads }));
  delete = λ p w. (none, w);
  read_file = λ p w. ((none, none), w);
  ping = λ s. (none, s);
  close = λ s. (none, s);
}

abbrev merged : MergedFile toy
merged = record {
  input_filepaths = txt "one.ach" ∷ txt "two.ach" ∷ [];
  uploaded_filename = txt "OUT.ach";
  ach_file = txt "101";
  shard = txt "SD";
}

-- The merging gives its file to the callback, and goes wrong where `failing` says so.
abbrev merging : Bool → XferMerging toy World
merging failing = record {
  handle_xfer = λ f w. (none, w);
  handle_cancel = λ c w.
      ((record { file_id = c.file_id; shard_key = c.shard_key; successful = true }, none), w);
  with_each_merged = λ callback w. (
    (merged ∷ [], if failing then some (new_error (txt "problem from callback")) else none),
    (callback 0 agent (txt "101") w).1,
  );
}

abbrev aggregator : Bool → (Text → Text → World → Option Error × World) → Aggregator toy World
aggregator failing save = record {
  shard = txt "SD";
  audit_base_path = none;
  today = txt "2025-01-01";
  merger = merging failing;
  transformers = [];
  render = λ d. (txt "OUT.ach", none);
  format = λ r. (txt "101", none);
  save_audit = save;
  has_agent = λ id. true;
  new_sender = λ id. none;
  notify_critical = λ name w. (none, w);
  notify_info = λ name w. (none, w);
  alert = λ e w. w;
  send = λ e w. (none, record w { events = e ∷ w.events });
  join_errors = λ es. new_error (txt "errors");
}

abbrev saves : Text → Text → World → Option Error × World
saves path contents w = (none, record w { audits = path ∷ w.audits })

abbrev fails_to_save : Text → Text → World → Option Error × World
fails_to_save path contents w = (some (new_error (txt "no space")), w)

abbrev upload : File
upload = record { filepath = txt "OUT.ach"; contents = txt "101" }

abbrev uploaded : World
uploaded = record {
  uploads = upload ∷ [];
  audits = txt "outbound/host/2025-01-01/OUT.ach" ∷ [];
  events = [];
}

abbrev transformed : Transformed Text
transformed = record { file = some (txt "101"); original = []; encrypted = [] }

-- Newest first.
abbrev sent : World
sent = record uploaded {
  events =
      file_uploaded (txt "two") (txt "SD") (txt "OUT.ach")
      ∷ file_uploaded (txt "one") (txt "SD") (txt "OUT.ach")
      ∷ [];
}

with_each_file-emits_example : with_each_file (aggregator false saves) nothing ≡ (none, sent)
unfolding run_transformers upload_file audit_and_upload upload_and_notify notify_after_upload
    send_notification for_upload upload_result trim_suffix split
with_each_file-emits_example =
    with_each_file-emits (aggregator false saves) nothing {merged = merged ∷ []} {t = uploaded} refl

runs_upload_file :
    upload_file (aggregator false saves) 0 agent (some transformed) nothing
    ≡ ((txt "OUT.ach", none), uploaded)
unfolding upload_file audit_and_upload upload_and_notify notify_after_upload send_notification
runs_upload_file = refl

upload_file-audited_example :
    let agg = aggregator false saves in
    (contents : Text) × (t : World) × (u : Text × World) × (agg.render
        (filename_data agg 0 (txt "101") transformed)
      ≡ (txt "OUT.ach", none))
    × (agg.format transformed ≡ (contents, none))
    × (agg.save_audit (audit_path agg agent (txt "OUT.ach")) contents nothing ≡ (none, t))
    × (agent.upload_file (record { filepath = txt "OUT.ach"; contents = contents }) t ≡ (none, u))
upload_file-audited_example =
    upload_file-audited (aggregator false saves) 0 agent (txt "101") transformed nothing refl
      runs_upload_file

abbrev one : CancelAchFile
one = record { file_id = txt "one"; shard_key = txt "SD" }

abbrev response : FileCancellationResponse
response = record { file_id = txt "one"; shard_key = txt "SD"; successful = true }

abbrev times : CutoffTimes
times = record { first_cutoff = txt "10:30"; schedule = (10, 30) ∷ [] }

abbrev saturday : Now
saturday = record {
  clock = txt "10:30";
  date = txt "Jan 04";
  holiday = none;
  is_banking_day = false;
  is_holiday = false;
  is_weekend = true;
}

abbrev new_year : Now
new_year = record {
  clock = txt "10:30";
  date = txt "Jan 01";
  holiday = some (txt "New Year's Day");
  is_banking_day = false;
  is_holiday = true;
  is_weekend = false;
}

-- A sender whose messages show up among the audits.
abbrev setup : Text → Setup World
setup on = record {
  cutoffs_on = on;
  has_upload_agent = true;
  slacks = none ∷ some (λ msg w. (none, record w { audits = msg ∷ w.audits })) ∷ [];
  hostname = txt "host";
}

abbrev holiday_message : Text
holiday_message = txt "Jan 01 (New Year's Day) is a holiday so host will skip processing for SD"

runs_holiday :
    tick (aggregator false saves) (setup (txt "banking-days")) times new_year nothing
    ≡ some (record nothing { audits = holiday_message ∷ [] })
unfolding tick maybe_tick on_cutoff notify_about_holiday format_holiday_message send_slacks text_eq
runs_holiday = refl

abbrev unnamed_holiday : Now
unnamed_holiday = record new_year { holiday = none }
