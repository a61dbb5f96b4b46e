-- ===== src/Storage/Laws.antt =====
-- What the pipeline relies on in a storage.Chest, over a view of the files that it holds.
use achgateway.Base.{
  Text, txt, join_slashes, IsPlain, NoSlash, All, contains, ok, Bool, true, false, Option, none,
  some, List, [], ◌∷◌, ◌++◌, ◌≡◌, ◌≢◌,
}
use achgateway.Storage.{Chest}

-- A relative path that filepath.Clean leaves alone.
abbrev pub IsPath : Text → Type 0
IsPath p = (q : Text) × (qs : List Text) × All IsPlain (q ∷ qs) × (p ≡ join_slashes (q ∷ qs))

-- The file `name` in the directory `dir`.
abbrev pub inside : Text → Text → Text
inside dir name = dir ++ (b'/' ∷ name)

abbrev pub contents_or_empty : Option Text → Text
contents_or_empty none = []
contents_or_empty (some c) = c

-- What a state holds at a path: the contents of a file, and whether there is a directory.
pub record FileView (S : Type 0) : Type 0 where
  pub holds : S → Text → Option Text
  pub is_dir : S → Text → Bool

-- The laws of the operations on files. Those that speak of a nil error leave open what an operation
-- that fails does to the files it is about. A replaced path may be a directory, whose files move
-- with it; the files beside it stay.
pub record IsChest {S : Type 0} (chest : Chest S) (view : FileView S) : Type 0 where
  pub open_file-holds :
      (p c : Text) (s : S) → IsPath p → chest.open_file p s ≡ ok c → view.holds s p ≡ some c
  pub write_file-self :
      (p c : Text) (s : S) {t : S}
      → IsPath p
      → chest.write_file p c s ≡ (none, t)
      → view.holds t p ≡ some c
  pub write_file-frame :
      (p c r : Text) (s : S)
      → IsPath p
      → IsPath r
      → p ≢ r
      → view.holds (chest.write_file p c s).1 r ≡ view.holds s r
  pub replace_file-self :
      (p q : Text) (s : S) {t : S}
      → IsPath p
      → IsPath q
      → p ≢ q
      → view.is_dir s p ≡ false
      → chest.replace_file p q s ≡ (none, t)
      → (view.holds t q ≡ some (contents_or_empty (view.holds s p))) × (view.holds t p ≡ none)
  pub replace_file-frame :
      (dir a b c : Text) (s : S)
      → IsPath dir
      → IsPlain a
      → IsPlain b
      → IsPlain c
      → a ≢ c
      → b ≢ c
      → view.holds (chest.replace_file (inside dir a) (inside dir b) s).1 (inside dir c)
        ≡ view.holds s (inside dir c)
  pub replace_file-keeps :
      (p q c : Text) (s : S)
      → IsPath p
      → IsPath q
      → view.holds s q ≡ some c
      → (c' : Text) × (view.holds (chest.replace_file p q s).1 q ≡ some c')
  pub replace_dir-moves :
      (p q name c : Text) (s : S) {t : S}
      → IsPath p
      → IsPath q
      → IsPlain name
      → chest.replace_dir p q s ≡ (none, t)
      → view.holds s (inside p name) ≡ some c
      → view.holds t (inside q name) ≡ some c
  pub glob-finds :
      (dir name c : Text) (s : S) {matches : List Text}
      → IsPath dir
      → NoSlash name
      → chest.glob (dir ++ txt "/*.canceled") s ≡ ok matches
      → view.holds s (inside dir (name ++ txt ".canceled")) ≡ some c
      → contains matches (inside dir (name ++ txt ".canceled")) ≡ true
