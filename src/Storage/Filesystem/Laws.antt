-- ===== src/Storage/Filesystem/Laws.antt =====
-- What the storage on disk relies on in packages os and filepath.
use achgateway.Base.{
  Text, txt, IsRoot, NoSlash, contains, All, Error, is, eof, ok, true, false, Option, none, some,
  List, [], ◌∷◌, ◌++◌, ◌≡◌, ◌≢◌,
}
use achgateway.Storage.Laws.{FileView, inside}
use achgateway.Storage.Filesystem.{Os}

-- What the calls of Readdirnames give for a directory with some names, up to the end, which is an
-- empty slice with io.EOF, or up to a call that fails.
pub data Listing : List Text → List (List Text × Option Error) → Type 0 where
  ended :
      {chunks : List (List Text × Option Error)} (e : Error)
      → is e eof ≡ true
      → Listing [] (([], some e) ∷ chunks)
  named :
      {names : List Text} {chunks : List (List Text × Option Error)} (n : Text) (ns : List Text)
      → Listing names chunks
      → Listing ((n ∷ ns) ++ names) ((n ∷ ns, none) ∷ chunks)
  stopped :
      {names : List Text} {chunks : List (List Text × Option Error)} (ns : List Text) (e : Error)
      → is e eof ≡ false
      → Listing names ((ns, some e) ∷ chunks)

-- The end is the only call of Readdirnames that gives no names: one that fails gives some beside its
-- error. The documentation does not promise this.
abbrev pub EndsAtEof : {S : Type 0} → Os S → Type 0
EndsAtEof {S} os =
    (d : Text) (s : S) (chunks : List (List Text × Option Error))
    → os.readdirnames d s ≡ ok chunks
    → All (λ chunk. (e : Error) → chunk ≡ ([], some e) → is e eof ≡ true) chunks

-- The documented behaviour of packages os and filepath, for files that no other process changes. A
-- rename moves a file or a directory with all that is in it.
pub record IsOs {S : Type 0} (os : Os S) (view : FileView S) : Type 0 where
  pub open_read-holds : (p c : Text) (s : S) → os.open_read p s ≡ ok c → view.holds s p ≡ some c
  pub stat-holds : (p c : Text) (s : S) → view.holds s p ≡ some c → os.stat p s ≡ none
  pub mkdir_all-frame : (d r : Text) (s : S) → view.holds (os.mkdir_all d s).1 r ≡ view.holds s r
  -- Only the directory and those above it are made.
  pub mkdir_all-is_dir :
      (d r : Text) (s : S)
      → IsRoot r
      → view.is_dir s r ≡ false
      → view.is_dir (os.mkdir_all (d ++ txt "/") s).1 r ≡ true
      → (rest : Text) × (d ++ txt "/" ≡ r ++ (b'/' ∷ rest))
  pub open_trunc-self :
      (p : Text) (s : S) {t : S} → os.open_trunc p s ≡ (none, t) → view.holds t p ≡ some []
  pub open_trunc-frame :
      (p r : Text) (s : S) → p ≢ r → view.holds (os.open_trunc p s).1 r ≡ view.holds s r
  pub open_trunc-keeps :
      (p c : Text) (s : S)
      → view.holds s p ≡ some c
      → (c' : Text) × (view.holds (os.open_trunc p s).1 p ≡ some c')
  pub write-self :
      (p c : Text) (s : S) {t : S}
      → view.holds s p ≡ some []
      → os.write p c s ≡ (none, t)
      → view.holds t p ≡ some c
  pub write-frame :
      (p c r : Text) (s : S) → p ≢ r → view.holds (os.write p c s).1 r ≡ view.holds s r
  pub write-keeps :
      (p c d : Text) (s : S)
      → view.holds s p ≡ some d
      → (d' : Text) × (view.holds (os.write p c s).1 p ≡ some d')
  pub sync-frame : (p r : Text) (s : S) → view.holds (os.sync p s).1 r ≡ view.holds s r
  pub close-frame : (p r : Text) (s : S) → view.holds (os.close p s).1 r ≡ view.holds s r
  pub rename-self :
      (p q : Text) (s : S) {t : S}
      → p ≢ q
      → view.is_dir s p ≡ false
      → os.rename p q s ≡ (none, t)
      → (c : Text) × (view.holds s p ≡ some c) × (view.holds t q ≡ some c) × (view.holds t p ≡ none)
  pub rename-below :
      (p rest : Text) (s : S) {t : S} → os.rename p (p ++ (b'/' ∷ rest)) s ≢ (none, t)
  pub rename-frame :
      (d a b c : Text) (s : S)
      → NoSlash a
      → NoSlash b
      → NoSlash c
      → a ≢ c
      → b ≢ c
      → view.holds (os.rename (inside d a) (inside d b) s).1 (inside d c)
        ≡ view.holds s (inside d c)
  pub rename-keeps :
      (p q c : Text) (s : S)
      → view.holds s q ≡ some c
      → (c' : Text) × (view.holds (os.rename p q s).1 q ≡ some c')
  pub rename-inside :
      (p q name c : Text) (s : S) {t : S}
      → os.rename p q s ≡ (none, t)
      → view.holds s (inside p name) ≡ some c
      → view.holds t (inside q name) ≡ some c
  pub stat-inside :
      (p name c : Text) (s : S) → view.holds s (inside p name) ≡ some c → os.stat p s ≡ none
  pub readdirnames-lists :
      (d : Text) (s : S) {chunks : List (List Text × Option Error)}
      → os.readdirnames d s ≡ ok chunks
      → (names : List Text) × Listing names chunks
        × ((name c : Text)
            → NoSlash name
            → view.holds s (inside d name) ≡ some c
            → contains names name ≡ true)
  pub match-star :
      (name : Text) → NoSlash name → os.match (txt "*.canceled") (name ++ txt ".canceled") ≡ ok true

-- What the storage holds, by paths below its root.
abbrev pub below : {S : Type 0} → Text → FileView S → FileView S
below root view = record {
  holds = λ s p. view.holds s (inside root p);
  is_dir = λ s p. view.is_dir s (inside root p);
}
