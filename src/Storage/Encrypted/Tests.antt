-- ===== src/Storage/Encrypted/Tests.antt =====
-- An encrypted storage in memory, with a cipher that puts a byte in front.
use achgateway.Base.{
  Text, txt, looks_plain, join_slashes, Result, ok, err, new_error, is_ok, IsPlain-check, false,
  some, [], ◌∷◌, ◌≡◌, refl, arith, text_eq,
}
use achgateway.Storage.Laws.{IsPath}
use achgateway.Storage.Memory.{lookup, remove, memory, memory_view, memory-IsChest}
use achgateway.Storage.Encrypted.{CryptFs, write_disfigured, encrypted}
use achgateway.Storage.Encrypted.Laws.{IsCryptFs, open_file-write_file, missing_is_not_revealed}

abbrev strip : Text → Result Text
strip [] = err (new_error (txt "too short"))
strip (c ∷ s) = ok s

abbrev toy_fs : CryptFs
toy_fs = record { reveal = strip; disfigure = λ contents. ok (b'#' ∷ contents) }

toy_fs-IsCryptFs : IsCryptFs toy_fs
toy_fs-IsCryptFs = record { reveal-disfigure = reveals }
  where
    reveals :
        (contents : Text) {bytes : Text}
        → toy_fs.disfigure contents ≡ ok bytes
        → strip bytes ≡ ok contents
    reveals contents h = ground (arith, h)

abbrev pending : Text
pending = txt "mergable/a.ach"

abbrev renamed : Text
renamed = txt "mergable/a.ach.canceled"

pending-IsPath : IsPath pending
unfolding looks_plain join_slashes
pending-IsPath = (
  txt "mergable",
  txt "a.ach" ∷ [],
  (IsPlain-check (txt "mergable") refl, (IsPlain-check (txt "a.ach") refl, tt)),
  refl,
)

renamed-IsPath : IsPath renamed
unfolding looks_plain join_slashes
renamed-IsPath = (
  txt "mergable",
  txt "a.ach.canceled" ∷ [],
  (IsPlain-check (txt "mergable") refl, (IsPlain-check (txt "a.ach.canceled") refl, tt)),
  refl,
)

open_file-write_file_example :
    (encrypted memory (some toy_fs)).open_file pending ((pending, txt "#101") ∷ []) ≡ ok (txt "101")
unfolding encrypted write_disfigured memory lookup text_eq
open_file-write_file_example =
    open_file-write_file memory memory_view memory-IsChest toy_fs pending (txt "101") (txt "#101")
      [] toy_fs-IsCryptFs pending-IsPath refl refl

missing_is_not_revealed_example :
    is_ok ((encrypted memory (some toy_fs)).open_file renamed ((renamed, []) ∷ [])) ≡ false
unfolding encrypted memory lookup remove
missing_is_not_revealed_example =
    missing_is_not_revealed memory memory_view memory-IsChest toy_fs pending renamed [] refl
      pending-IsPath renamed-IsPath (λ e. cc e) refl refl refl
