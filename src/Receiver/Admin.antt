-- ===== src/Receiver/Admin.antt =====
-- internal/pipeline/manual_cutoff_times.go and pending_files_api.go: the admin routes that trigger
-- cutoffs and show pending files.
pub mod Laws
mod Tests
use achgateway.Base.{
  ℕ, Text, txt, text_eq, split, any, is_some, Error, errorf_v, Result, ok, err, Bool, not, Option,
  none, some, List, [], ◌∷◌, ◌++◌, map, if◌then◌else◌,
}
use achgateway.Receiver.{Config, find_aggregator}
use achgateway.Storage.{Chest}

-- The answers by shard: nil, or the text of an error.
abbrev pub Answers : Type 0
Answers = List (Text × Option Text)

unfoldable pub put_answer : Text → Option Text → Answers → Answers
unfolding text_eq
put_answer k v [] = (k, v) ∷ []
put_answer k v ((j, w) ∷ m) =
    let rest = put_answer k v m in if text_eq j k then (j, v) ∷ m else (j, w) ∷ rest

unfoldable pub has_errors : Answers → Bool
has_errors m = any (λ a. is_some a.1) m

pub record Response (A : Type 0) : Type 0 where
  pub status : ℕ
  pub body : Option A

abbrev pub status_only : {A : Type 0} → ℕ → Response A
status_only n = record { status = n; body = none }

-- What the routes call: manualCutoff in the loop of an aggregator, its alertOnError, the storage of
-- its merging, the name that Stat gives, the ACH library and base64.
pub record AdminPorts (S : Type 0) : Type 1 where
  pub manual_cutoff : Text → S → Option Error × S
  pub alert : Text → Error → S → S
  pub storage : Text → Option (Chest S)
  pub stat_name : Text → S → Text
  pub File : Type 0
  pub read : Text → File × Option Error
  pub write : File → Text × Option Error
  pub validate_file : File → Option Error
  pub base64 : Text → Text

module _ {S : Type 0} (ports : AdminPorts S) (cfg : Config) where
  -- One shard; a nil aggregator panics.
  unfoldable pub trigger_one : Text → Answers → S → Option (Answers × S)
  unfolding find_aggregator put_answer
  trigger_one name answers s = elim (find_aggregator name cfg.aggregators) [
    | none ↦ some (put_answer name (some (txt "unknown shard " ++ name)) answers, s)
    | some none ↦ none
    | some (some agg) ↦
        let (failed, t) = ports.manual_cutoff agg s in
        elim failed [
          | none ↦ some (put_answer agg none answers, t)
          | some e ↦ some (put_answer agg (some e.message) answers, ports.alert agg e t)
        ]
  ]

  unfoldable pub trigger_each : List Text → Answers → S → Option (Answers × S)
  unfolding trigger_one
  trigger_each [] answers s = some (answers, s)
  trigger_each (name ∷ names) answers s = elim (trigger_one name answers s) [
    | none ↦ none
    | some (answers', t) ↦ trigger_each names answers' t
  ]

  abbrev respond : Answers → Response Answers
  respond answers = record { status = if has_errors answers then 400 else 200; body = some answers }

  -- `none` is a panic.
  unfoldable pub trigger_manual_cutoff : Bool → List Text → S → Option (Response Answers × S)
  unfolding trigger_each has_errors
  trigger_manual_cutoff is_put [] s = some (status_only 400, s)
  trigger_manual_cutoff is_put (name ∷ names) s =
      let triggered = trigger_each (name ∷ names) [] s in
      if not is_put
      then some (status_only 400, s)
      else elim triggered [ none ↦ none | some (answers, t) ↦ some (respond answers, t) ]

  unfoldable pub list_shards : Response (List Text)
  list_shards = record { status = 200; body = some (map (λ a. a.0) cfg.aggregators) }

  -- A nil aggregator that is found counts as not found.
  unfoldable pub lookup_aggregator : Text → Option Text
  unfolding text_eq find_aggregator
  lookup_aggregator name =
      if text_eq name []
      then none
      else (elim (find_aggregator name cfg.aggregators) [ none ↦ none | some agg ↦ agg ])

  unfoldable pub named_files : List Text → List (Text × Text)
  unfolding split
  named_files [] = []
  named_files (path ∷ paths) =
      let rest = named_files paths in
      let name = (split path).1 in if text_eq name [] then rest else (name, path) ∷ rest

  unfoldable pub list_shard_files : Text → S → Response (List (Text × Text))
  unfolding lookup_aggregator named_files
  list_shard_files shard s = elim (lookup_aggregator shard) [
    | none ↦ status_only 404
    | some agg ↦ elim (ports.storage agg) [
      | none ↦ status_only 400
      | some chest ↦ elim (chest.glob (txt "mergable/" ++ agg ++ txt "/*") s) [
        | err e ↦ status_only 400
        | ok matches ↦ record { status = 200; body = some (named_files matches) }
      ]
    ]
  ]

  abbrev write_problem : Option Error → Option Error
  write_problem none = none
  write_problem (some e) = some (errorf_v (txt "error writing file: ") e)

  abbrev or_else : Option Error → Option Error → Option Error
  or_else (some e) later = some e
  or_else none later = later

  -- The file as the ACH library writes it, in base64, and what is wrong with it.
  unfoldable pub marshal_file : Text → Text × Option Error
  marshal_file contents =
      let (file, unread) = ports.read contents in
      let (bytes, unwritten) = ports.write file in
      elim unread [
        | some e ↦ (ports.base64 [], some e)
        | none ↦ (ports.base64 bytes, or_else (write_problem unwritten) (ports.validate_file file))
      ]

  unfoldable pub get_shard_file : Text → Text → S → Response (Text × (Text × Option Error))
  unfolding lookup_aggregator marshal_file
  get_shard_file shard path s = elim (lookup_aggregator shard) [
    | none ↦ status_only 404
    | some agg ↦ elim (ports.storage agg) [
      | none ↦ status_only 400
      | some chest ↦
          let full = txt "mergable/" ++ agg ++ txt "/" ++ path in
          elim (chest.open_file full s) [
            | err e ↦ status_only 400
            | ok contents ↦ record {
              status = 200;
              body = some (ports.stat_name full s, marshal_file contents);
            }
          ]
    ]
  ]
