-- ===== src/Base/Errors.antt =====
-- Go's `error`: nil is `none`. A value has its message, and the sentinels that `errors.Is` and the
-- tests of package `os` find in it.
use mathlib.Core.Bool.{Bool, true, false, ◌||◌}
use mathlib.Core.List.{List, [], ◌∷◌, ◌++◌}
use mathlib.Core.Logic.{◌⊎◌, inl, inr}
use mathlib.Core.Path.{◌≡◌, refl}
use mathlib.Core.Option.{Option, none, some}
use achgateway.Base.Bytes.{Text, txt}

-- sql.ErrNoRows, context.Canceled, a timeout, fs.ErrNotExist, io.EOF
pub data Sentinel : Type 0 where
  no_rows canceled timeout not_exist eof : Sentinel

abbrev pub same_sentinel : Sentinel → Sentinel → Bool
same_sentinel no_rows no_rows = true
same_sentinel canceled canceled = true
same_sentinel timeout timeout = true
same_sentinel not_exist not_exist = true
same_sentinel eof eof = true
same_sentinel _ _ = false

pub record Error : Type 0 where
  pub message : Text
  pub wraps : List Sentinel

-- errors.Is(err, target)
unfoldable pub wraps_sentinel : List Sentinel → Sentinel → Bool
wraps_sentinel [] s = false
wraps_sentinel (x ∷ xs) s = same_sentinel x s || wraps_sentinel xs s

unfoldable pub is : Error → Sentinel → Bool
unfolding wraps_sentinel
is e s = wraps_sentinel e.wraps s

-- errors.New(message)
abbrev pub new_error : Text → Error
new_error m = record { message = m; wraps = [] }

-- fmt.Errorf("<text>%v", err) keeps the message alone, with %w the sentinels too.
abbrev pub errorf_v : Text → Error → Error
errorf_v m e = record { message = m ++ e.message; wraps = [] }

abbrev pub errorf_w : Text → Error → Error
errorf_w m e = record { message = m ++ e.message; wraps = e.wraps }

-- The message of an error that may be nil, as the verb %v prints it.
abbrev pub print_v : Option Error → Text
print_v none = txt "<nil>"
print_v (some e) = e.message

-- base.ErrorList: the errors in order. `Empty` is the test for the empty list.
abbrev pub ErrorList : Type 0
ErrorList = List Error

-- A list of errors as an `error`: a parameter says how its message is put together.
abbrev pub list_error : (ErrorList → Error) → ErrorList → Option Error
list_error join [] = none
list_error join (e ∷ es) = some (join (e ∷ es))

-- The pair (value, error) of a function that returns a value exactly if the error is nil.
pub data Result {ℓ} (A : Type ℓ) : Type ℓ where
  ok : A → Result A
  err : Error → Result A

abbrev pub is_ok {ℓ} : {A : Type ℓ} → Result A → Bool
is_ok (ok _) = true
is_ok (err _) = false

-- err != nil, err == nil
abbrev pub is_some {ℓ} : {A : Type ℓ} → Option A → Bool
is_some none = false
is_some (some _) = true

abbrev pub is_nil {ℓ} : {A : Type ℓ} → Option A → Bool
is_nil none = true
is_nil (some _) = false

pub Result-cases {ℓ} :
    {A : Type ℓ} (r : Result A) → ((a : A) × (r ≡ ok a)) ⊎ ((e : Error) × (r ≡ err e))
Result-cases (ok a) = inl (a, refl)
Result-cases (err e) = inr (e, refl)
