-- ===== src/Merging/Tests.antt =====
-- The merging theorems over the storage in memory and a toy ACH library.
use achgateway.Base.{
  Text, txt, if◌then◌else◌, new_error, split, trim_suffix, text_eq, IsPlain, NoSlash, IsPlain-check,
  NoSlash-check, looks_plain, lacks_slash, All, Bool, true, false, Option, none, some, List, [],
  ◌∷◌, ◌≡◌, refl,
}
use achgateway.Storage.Memory.{Files, memory, memory_view, memory-IsChest, lookup}
use achgateway.Ach.{TreeMap, IsTreeMap, AchLib, skip_file}
use achgateway.Incoming.{AchFile, CancelAchFile}
use achgateway.Merging.{
  pending_path, handle_cancel, handle_xfer, write_ach_file, isolate_mergable_dir,
  get_canceled_files,
}
use achgateway.Upload.{Agent}
use achgateway.Merging.Mapping.{
  MergedFile, make_key, claim_entries, claim_batches, claim_files, build_dir_mapping,
  find_input_filepaths, sort, compact,
}
use achgateway.Merging.Cutoff.{
  Cutoff, merge_dir, merge_isolated, run_loops, finish, setup_dirs, prepare_files, upload_files,
  flattened, save_merged_file,
}
use achgateway.Merging.Complete.{Uploaded, to_upload, merge_isolated_complete}
use achgateway.Merging.Uploads.{claim_entries_once}
use achgateway.Merging.Accept.{file_acceptor}
use achgateway.Merging.Cancel.{handle_cancel_effect}
use achgateway.Merging.Canceled.{Message, submit, cancel, handle_all, canceled_is_skipped}

-- Files are texts, and are written as they are.
abbrev pub toy : AchLib
toy = record {
  File = Text;
  ValidateOpts = Text;
  Conditions = Unit {0};
  no_conditions = tt;
  write = λ f. elim f [ none ↦ ([], none) | some t ↦ (t, none) ];
  get_validation = λ f. none;
  encode_opts = λ o. (o, none);
  decode_opts = λ t. (some t, none);
  read = λ o t. (t, none);
  batches = λ f. [];
  flatten_batches = λ f. (f, none);
  immediate_destination = λ f. f;
  merge_dir = λ S chest s dir conditions accept. (txt "101" ∷ [], none);
}

abbrev shard : Text
shard = txt "SD"

shard-IsPlain : IsPlain shard
unfolding looks_plain
shard-IsPlain = IsPlain-check shard refl

abbrev one : CancelAchFile
one = record { file_id = txt "one.ach"; shard_key = txt "SD" }

abbrev submission : AchFile Text
submission = record { file_id = txt "one"; shard_key = txt "SD"; file = some (txt "101") }

abbrev waiting : Files
waiting = (txt "mergable/SD/one.ach", txt "101") ∷ []

abbrev after_cancel : Files
after_cancel = (txt "mergable/SD/one.ach.canceled", txt "101") ∷ []

runs_cancel : handle_cancel memory shard one waiting ≡ (
  (record { file_id = txt "one.ach"; shard_key = txt "SD"; successful = true }, none),
  after_cancel,
)
unfolding handle_cancel pending_path memory
runs_cancel = refl

-- A second cancellation is successful too, and empties the canceled file.
runs_cancel_again :
    (handle_cancel memory shard one after_cancel).1
    ≡ (txt "mergable/SD/one.ach.canceled", []) ∷ after_cancel
unfolding handle_cancel pending_path memory
runs_cancel_again = refl

named : NoSlash (trim_suffix (txt "one.ach") (txt ".ach"))
unfolding trim_suffix lacks_slash
named = NoSlash-check (txt "one") refl

named_one : NoSlash (trim_suffix (txt "one") (txt ".ach"))
unfolding trim_suffix lacks_slash
named_one = NoSlash-check (txt "one") refl

handle_cancel_effect_example :
    (lookup (txt "mergable/SD/one.ach.canceled") after_cancel ≡ some (txt "101"))
    × (lookup (txt "mergable/SD/one.ach") after_cancel ≡ none)
    × (◌≡◌ {A = Bool} true true)
unfolding memory pending_path
handle_cancel_effect_example =
    handle_cancel_effect memory memory_view memory-IsChest shard shard-IsPlain one waiting named
      refl runs_cancel

abbrev late : List (Message Text)
late = submit submission ∷ cancel one ∷ submit submission ∷ []

abbrev isolated : Files
isolated =
    (txt "SD-20250101-120000/one.ach", txt "101")
    ∷ (txt "SD-20250101-120000/one.ach.canceled", txt "101")
    ∷ (txt "SD-20250101-120000/one.ach.canceled", txt "101")
    ∷ []

canceled_is_skipped_example :
    file_acceptor (txt "one.ach" ∷ txt "one.ach" ∷ []) (txt "SD-20250101-120000/one.ach")
    ≡ skip_file
unfolding looks_plain memory pending_path trim_suffix split isolate_mergable_dir get_canceled_files
    handle_all handle_xfer handle_cancel write_ach_file
canceled_is_skipped_example =
    canceled_is_skipped memory memory_view memory-IsChest shard shard-IsPlain (txt "one.ach") named
      toy late (txt "20250101-120000") (txt "SD-20250101-120000") (txt "SD-20250101-120000/one.ach")
      (txt "SD") waiting {u = isolated} refl runs_cancel (named_one, (named, (named_one, tt)))
      (IsPlain-check (txt "SD-20250101-120000") refl) refl refl refl

abbrev map_of : TreeMap
map_of = record {
  Map = Text → Option Text;
  empty = λ k. none;
  get = λ m k. m k;
  put = λ k v m j. if text_eq k j then some v else m j;
  del = λ k m j. if text_eq k j then none else m j;
}

map_of-IsTreeMap : IsTreeMap map_of
map_of-IsTreeMap = record {
  get-empty = λ k. refl;
  get-put = λ k j v m. refl;
  get-del = λ k j m. refl;
}

abbrev idle : Agent Files
idle = record {
  id = txt "sftp";
  hostname = txt "host";
  inbound_path = [];
  outbound_path = txt "outbound";
  reconciliation_path = [];
  return_path = [];
  get_inbound_files = λ w. (([], none), w);
  get_reconciliation_files = λ w. (([], none), w);
  get_return_files = λ w. (([], none), w);
  upload_file = λ f w. (none, ([], w));
  delete = λ p w. (none, w);
  read_file = λ p w. ((none, none), w);
  ping = λ s. (none, s);
  close = λ s. (none, s);
}

abbrev cutoff : Cutoff toy Files
cutoff = record {
  shard = txt "SD";
  conditions = none;
  flatten = false;
  now = txt "20250101-120000";
  hash = λ t. txt "5a";
  join_errors = λ es. new_error (txt "errors");
  new_agent = λ w. ((idle, none), w);
  callback = λ i agent f w. ((txt "OUT.ach", none), w);
}

abbrev one_uploaded : MergedFile toy
one_uploaded = record {
  input_filepaths = [];
  uploaded_filename = txt "OUT.ach";
  ach_file = txt "101";
  shard = txt "SD";
}

abbrev at_cutoff : Files
at_cutoff = (txt "SD-1/one.ach", txt "101") ∷ []

abbrev merged_dir : Files
merged_dir = (elim (merge_isolated toy memory cutoff map_of (txt "SD-1") [] at_cutoff) [
  | none ↦ at_cutoff
  | some out ↦ out.1
])

runs_merge :
    merge_isolated toy memory cutoff map_of (txt "SD-1") [] at_cutoff
    ≡ some ((one_uploaded ∷ [], none), merged_dir)
unfolding merge_isolated run_loops finish find_input_filepaths merge_dir upload_files setup_dirs
    prepare_files compact flattened sort claim_files save_merged_file claim_batches memory
    build_dir_mapping
runs_merge = refl

merge_isolated_complete_example :
    (agent : Agent Files) × (u : Files) × Uploaded memory cutoff agent 0
      (to_upload memory cutoff (merge_dir toy memory cutoff (txt "SD-1") [] at_cutoff).0)
      (one_uploaded ∷ [])
      u
      merged_dir
merge_isolated_complete_example =
    merge_isolated_complete memory cutoff map_of (txt "SD-1") [] at_cutoff {out = merged_dir}
      runs_merge

abbrev key_map : Text → Option Text
key_map = map_of.put (make_key (txt "5200") (txt "6221")) (txt "one.ach") map_of.empty

claim_entries_once_example :
    All
      (λ e.
        map_of.get
          (claim_entries toy map_of (txt "5200") (txt "6221" ∷ txt "6222" ∷ []) key_map).1
          (make_key (txt "5200") e)
        ≡ none)
      (txt "6221" ∷ txt "6222" ∷ [])
claim_entries_once_example =
    claim_entries_once toy map_of map_of-IsTreeMap (txt "5200") (txt "6221" ∷ txt "6222" ∷ [])
      key_map
