-- ===== src/Odfi/Tests.antt =====
-- The theorems about the ODFI processing at a file with a prenote entry and at a server with one file.
use achgateway.Base.{
  ℕ, Text, txt, base, join, is, text_eq, Error, new_error, ok, true, false, Option, none, some,
  List, [], ◌∷◌, ◌≡◌, ◌≢◌, refl, if◌then◌else◌,
}
use achgateway.Models.{EntryDetail, EntryBatch, Event, correction_file, return_file}
use achgateway.Odfi.{Disk, AchReader}
use achgateway.Odfi.Download.{
  finish_file, copy_file, read_and_copy, save_file, save_each, save_filepaths, make_dirs,
  remote_dirs, setup, download_kind, download_all, copy_files_from_remote, delete_files,
}
use achgateway.Odfi.Cleanup.{delete_each, delete_files_on_remote, cleanup_dirs, cleanup}
use achgateway.Odfi.Events.{
  OdfiCorrections, OdfiIncoming, OdfiReconciliation, OdfiPrenotes, OdfiReturns, path_skipped,
  handle_correction, handle_return, handle_prenotes, handle_incoming, produce_entry_events,
  Schedule,
}
use achgateway.Odfi.Events.Laws.{
  prenotes_are_never_sent, exclusion_stops_every_file, every_file_is_a_correction_and_a_return,
}
use mathlib.Core.List.{reverse, reverse_perm}
use achgateway.Odfi.Keeps.{Keeps}
use achgateway.Odfi.KeepsProcess.{Quiet}
use achgateway.Odfi.Process.{
  FileProcessor, Processing, handle_each, handle_all, save_audit, run_processors, audit_and_run,
  process_file, process_each, process_dir, process_dirs, process_files,
}
use achgateway.Odfi.Safety.{Saves, save_filepaths-Saves, remote_files_wait}
use achgateway.Odfi.Scheduler.{
  PeriodicScheduler, clean_remote, clean_empty, finish_local, process_and_clean,
  download_and_process,
}
use achgateway.Storage.{DirEntry}
use achgateway.Upload.{Agent}

abbrev Batches : Type 0
Batches = List EntryBatch

abbrev entry : ℕ → ℕ → EntryDetail
entry code amount = record { line = txt "6"; transaction_code = code; amount = amount }

-- One prenote entry and one that is not.
abbrev batches : Batches
batches = record { header = txt "5"; entries = entry 23 0 ∷ entry 22 100 ∷ [] } ∷ []

abbrev lib : AchReader
lib = record {
  File = Batches;
  read = λ opts contents. (batches, none);
  is_file_header_error = λ e. false;
  set_id = λ id file. file;
  set_entry_ids = λ hash file. file;
  batches = λ file. file;
  notifications_of_change = λ file. [];
  return_entries = λ file. [];
  prenote_codes = 23 ∷ 28 ∷ 33 ∷ 38 ∷ [];
}

record World : Type 0 where
  remote : List Text
  local : List Text
  sent : List (Event Batches)

abbrev send : Event Batches → World → Option Error × World
send e w = (none, record w { sent = e ∷ w.sent })

abbrev world : World
world = record { remote = txt "inbound/a.ach" ∷ []; local = []; sent = [] }

abbrev prenotes : OdfiPrenotes
prenotes = record { enabled = true; path_matcher = [] }

abbrev corrections : OdfiCorrections
corrections = record { enabled = true; path_matcher = [] }

abbrev returns : OdfiReturns
returns = record { enabled = true; path_matcher = txt "return" }

abbrev incoming : OdfiIncoming
incoming = record {
  enabled = true;
  path_matcher = [];
  exclude_corrections = true;
  exclude_prenotes = false;
  exclude_returns = false;
  exclude_reconciliations = false;
}

abbrev reconciliation : OdfiReconciliation
reconciliation = record {
  enabled = true;
  path_matcher = txt "recon";
  produce_file_events = true;
  produce_entry_events = true;
}

prenotes_are_never_sent_example :
    handle_prenotes lib (some send) prenotes (txt "inbound/a.ach") batches world ≡ (none, world)
prenotes_are_never_sent_example =
    prenotes_are_never_sent lib (some send) prenotes (txt "inbound/a.ach") batches world

exclusion_stops_every_file_example :
    handle_incoming lib (some send) incoming reconciliation (txt "inbound/a.ach") batches world
    ≡ (none, world)
exclusion_stops_every_file_example =
    exclusion_stops_every_file lib (some send) incoming reconciliation (txt "inbound/a.ach") batches
      world refl

every_file_is_a_correction_and_a_return_example :
    ((handle_correction lib (some send) corrections (txt "return/a.ach") batches world).1
      ≡ (send
          (correction_file
            (base (txt "return/a.ach"))
            batches
            (lib.notifications_of_change batches))
          world).1)
    × ((handle_return lib (some send) returns (txt "return/a.ach") batches world).1
        ≡ (send
            (return_file (base (txt "return/a.ach")) batches (lib.return_entries batches))
            world).1)
unfolding path_skipped
every_file_is_a_correction_and_a_return_example =
    every_file_is_a_correction_and_a_return lib send corrections returns (txt "return/a.ach")
      batches world refl refl

abbrev first_error : Error → List Error → Error
first_error e es = e

-- The goroutines run in the reverse order.
abbrev backwards : Schedule lib (some send)
backwards = λ events. (reverse events, reverse_perm events)

abbrev nothing : World → Option Error × World
nothing w = (none, w)

abbrev keep : Text → World → Option Error × World
keep path w = (none, record w { local = path ∷ w.local })

abbrev a_file : List DirEntry
a_file = record { name = txt "a.ach"; is_dir = false } ∷ []

-- The local directory of the inbound files has the one that was downloaded.
abbrev disk : Disk World
disk = record {
  mkdir_temp = λ dir name w. (ok (txt "tmp/download"), w);
  mkdir_all = λ path w. nothing w;
  remove_all = λ path w. nothing w;
  remove = λ path w. nothing w;
  read_dir = λ path w. if text_eq path (txt "tmp/download/inbound") then ok a_file else ok [];
  stat = λ path w. none;
  size = λ path info w. ok 940;
  read_file = λ path w. ok (txt "101");
  create = keep;
  copy = λ path contents w. nothing w;
  sync = λ path w. nothing w;
  close = λ path w. nothing w;
  close_file = λ file w. nothing w;
}

abbrev agent : Agent World
agent = record {
  id = txt "sftp";
  hostname = txt "sftp.bank.com";
  inbound_path = txt "inbound";
  outbound_path = txt "outbound";
  reconciliation_path = txt "reconciliation";
  return_path = txt "returned";
  get_inbound_files = λ w. ((w.remote, none), w);
  get_reconciliation_files = λ w. (([], none), w);
  get_return_files = λ w. (([], none), w);
  upload_file = λ file w. (none, ([], w));
  delete = λ path w. (none, record w { remote = [] });
  read_file = λ path w. ((some (record { filepath = path; contents = txt "101" }), none), w);
  ping = nothing;
  close = nothing;
}

save_filepaths-Saves_example :
    Saves disk agent
      (txt "tmp")
      (txt "inbound/a.ach" ∷ [])
      world
      (record world { local = txt "tmp/a.ach" ∷ [] })
unfolding save_filepaths save_each save_file read_and_copy copy_file finish_file
save_filepaths-Saves_example =
    save_filepaths-Saves disk agent (txt "inbound/a.ach" ∷ []) (txt "tmp") world refl

abbrev incoming_processor : FileProcessor Batches World
incoming_processor = record { kind = txt "incoming"; handle = λ path file w. nothing w }

abbrev env : Text → Processing World
env hostname = record {
  audit = none;
  hostname = hostname;
  alert = λ e w. nothing w;
  today = txt "2024-01-01";
  hash = λ t. t;
  join_errors = λ es. new_error (txt "errors");
}

abbrev sched : PeriodicScheduler lib World
sched = record {
  storage = record {
    directory = txt "tmp";
    cleanup_local_directory = true;
    keep_remote_files = false;
    remove_zero_byte_files = false;
  };
  validation = record {
    allow_missing_file_control = false;
    allow_missing_file_header = false;
    allow_unordered_batch_numbers = false;
    rest = [];
  };
  shard_names = txt "live" ∷ [];
  find_shard = λ name. some (txt "sftp");
  new_agent = λ id w. ((agent, none), w);
  env = env;
  audit_problem = λ hostname. none;
  processors = incoming_processor ∷ [];
  alert = λ e w. nothing w;
}

abbrev remote_of : World → List Text
remote_of w = w.remote

keeps : Keeps disk agent remote_of
keeps = record {
  mkdir_temp = λ dir name w. refl;
  mkdir_all = λ path w. refl;
  create = λ path w. refl;
  copy = λ path contents w. refl;
  sync = λ path w. refl;
  close = λ path w. refl;
  close_file = λ file w. refl;
  get_inbound_files = λ w. refl;
  get_reconciliation_files = λ w. refl;
  get_return_files = λ w. refl;
  read_file = λ path w. refl;
}

quiet : Quiet lib (env agent.hostname) sched.processors remote_of
quiet = record {
  handle = λ path file. ((λ w. refl), tt);
  alert = λ e w. refl;
  save = λ save path contents w h. cc h;
}

deleted : remote_of (download_and_process lib disk sched agent world).1 ≢ remote_of world
unfolding download_and_process process_and_clean clean_remote clean_empty finish_local
    copy_files_from_remote download_all download_kind setup make_dirs save_filepaths save_each
    save_file read_and_copy copy_file finish_file cleanup cleanup_dirs delete_files_on_remote
    delete_each delete_files process_files process_dirs process_dir process_each process_file
    audit_and_run save_audit run_processors handle_all handle_each text_eq join base is
deleted = λ h. cc h

remote_files_wait_example :
    (dir : Text) × (t : World) × (copy_files_from_remote disk agent (txt "tmp") world
      ≡ ((some dir, none), t))
    × (sched.audit_problem agent.hostname ≡ none)
    × ((process_files lib disk
          (env agent.hostname)
          sched.validation
          sched.processors
          dir
          (remote_dirs disk agent)
          t).0
        ≡ none)
remote_files_wait_example =
    remote_files_wait lib disk sched agent remote_of world keeps quiet deleted
