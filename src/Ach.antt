-- ===== src/Ach.antt =====
-- The ACH library (github.com/moov-io/ach) and the ordered map (github.com/igrmk/treemap) that the
-- repository calls. They are no part of it, so they are parameters.
use achgateway.Base.{Text, Option, none, some, List, Error, ◌≡◌, text_eq, if◌then◌else◌}
use achgateway.Storage.{Chest}

pub data FileAcceptance : Type 0 where
  accept_file skip_file : FileAcceptance

-- One batch: GetHeader().String(), and String() of each of its entries.
pub record Batch : Type 0 where
  pub header : Text
  pub entries : List Text

-- `File` is *ach.File where it is not nil. Writing and reading give a partial result beside an error.
pub record AchLib : Type 1 where
  pub File : Type 0
  pub ValidateOpts : Type 0
  pub Conditions : Type 0
  pub no_conditions : Conditions
  pub write : Option File → Text × Option Error
  pub get_validation : Option File → Option ValidateOpts
  pub encode_opts : ValidateOpts → Text × Option Error
  pub decode_opts : Text → Option ValidateOpts × Option Error
  pub read : Option ValidateOpts → Text → File × Option Error
  pub batches : File → List Batch
  pub flatten_batches : File → File × Option Error
  pub immediate_destination : File → Text
  pub merge_dir :
      (S : Type 0)
      → Chest S
      → S
      → Text
      → Conditions
      → (Text → FileAcceptance)
      → List File × Option Error

-- treemap.TreeMap[string, string], of a pointer that is not nil.
pub record TreeMap : Type 1 where
  pub Map : Type 0
  pub empty : Map
  pub get : Map → Text → Option Text
  pub put : Text → Text → Map → Map
  pub del : Text → Map → Map

pub record IsTreeMap (T : TreeMap) : Type 0 where
  pub get-empty : (k : Text) → T.get T.empty k ≡ none
  pub get-put :
      (k j v : Text) (m : T.Map)
      → T.get (T.put k v m) j ≡ (if text_eq k j then some v else T.get m j)
  pub get-del :
      (k j : Text) (m : T.Map) → T.get (T.del k m) j ≡ (if text_eq k j then none else T.get m j)
