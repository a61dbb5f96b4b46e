-- ===== src/Storage/Encrypted/Laws.antt =====
-- What an encrypted storage gives back.
use achgateway.Base.{
  Text, Error, ok, err, is_ok, Result-cases, inl, inr, false, Option, none, some, [], ◌≡◌, ◌≢◌, sym,
  ap, ◌∙◌, arith,
}
use achgateway.Storage.{Chest}
use achgateway.Storage.Laws.{IsPath, FileView, IsChest, contents_or_empty}
use achgateway.Storage.Encrypted.{CryptFs, open_revealed, write_disfigured, encrypted}

-- What was encrypted is decrypted again.
pub record IsCryptFs (fs : CryptFs) : Type 0 where
  pub reveal-disfigure :
      (contents : Text) {bytes : Text}
      → fs.disfigure contents ≡ ok bytes
      → fs.reveal bytes ≡ ok contents

module _ {S : Type 0} (chest : Chest S) (view : FileView S) (L : IsChest chest view)
    (fs : CryptFs) where
  -- Over a storage that keeps its laws and a cipher that reveals what it disfigured: contents that
  -- were written with no error to an encrypted storage come back when the file can be opened.
  pub open_file-write_file :
      (path contents raw : Text) (s : S) {t : S}
      → IsCryptFs fs
      → IsPath path
      → (encrypted chest (some fs)).write_file path contents s ≡ (none, t)
      → chest.open_file path t ≡ ok raw
      → (encrypted chest (some fs)).open_file path t ≡ ok contents
  unfolding encrypted open_revealed write_disfigured
  open_file-write_file path contents raw s {t} laws is_path h opened =
      elim (Result-cases (fs.disfigure contents)) [
        | inr (x, e) ↦ absurd (ground (arith, e, h))
        | inl (bytes, e) ↦
            let written : chest.write_file path bytes s ≡ (none, t) = ground (arith, e, h) in
            let same : ◌≡◌ {A = Option Text} (some bytes) (some raw) =
              sym (L.write_file-self path bytes s is_path written)
              ∙ L.open_file-holds path raw t is_path opened in
            ground (arith, opened, same, laws.reveal-disfigure contents e)
      ]

  -- Over a storage that keeps its laws and a cipher that does not reveal an empty text: where an
  -- encrypted storage replaces a missing file with no error, the file that this leaves at the new
  -- path cannot be opened.
  pub missing_is_not_revealed :
      (p q : Text) (s : S) {t : S} {refused : Error}
      → fs.reveal [] ≡ err refused
      → IsPath p
      → IsPath q
      → p ≢ q
      → view.is_dir s p ≡ false
      → view.holds s p ≡ none
      → (encrypted chest (some fs)).replace_file p q s ≡ (none, t)
      → is_ok ((encrypted chest (some fs)).open_file q t) ≡ false
  unfolding encrypted open_revealed
  missing_is_not_revealed p q s {t} {refused} empty pp pq ne file nothing h =
      let moved = L.replace_file-self p q s pp pq ne file h in
      elim (Result-cases (chest.open_file q t)) [
        | inr (x, e) ↦ ground (arith, e)
        | inl (raw, e) ↦
            let same : ◌≡◌ {A = Option Text} (some raw) (some []) =
              sym (L.open_file-holds q raw t pq e)
              ∙ moved.0
              ∙ ap (λ o. some (contents_or_empty o)) nothing in
            ground (arith, e, same, empty)
      ]
