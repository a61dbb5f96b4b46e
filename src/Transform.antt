-- ===== src/Transform.antt =====
-- internal/transform/preupload.go: the transformers run over a merged file before its upload.
use achgateway.Base.{Text, Error, Option, none, some, List, [], ◌∷◌}

-- transform.Result
pub record Transformed (F : Type 0) : Type 0 where
  pub file : Option F
  pub original : Text
  pub encrypted : Text

-- transform.PreUpload: the result may be nil.
abbrev pub PreUpload : Type 0 → Type 0
PreUpload F = Option (Transformed F) → Option (Transformed F) × Option Error

module _ {F : Type 0} where
  unfoldable pub run_all :
      List (PreUpload F) → Option (Transformed F) → Option (Transformed F) × Option Error
  run_all [] res = (res, none)
  run_all (f ∷ fs) res =
      let rest = run_all fs (f res).0 in
      elim (f res).1 [ none ↦ rest | some e ↦ ((f res).0, some e) ]

  unfoldable pub for_upload : F → List (PreUpload F) → Option (Transformed F) × Option Error
  unfolding run_all
  for_upload file funcs =
      run_all funcs (some (record { file = some file; original = []; encrypted = [] }))
