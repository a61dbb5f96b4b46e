-- ===== src/Storage/Filesystem/Moves.antt =====
-- What moving a file or a directory on disk does, by absolute paths.
use achgateway.Base.{
  Text, split, split_joins, split-cases, join_slashes, IsRoot, NoSlash, Error, Option-cases,
  Bool-cases, inl, inr, true, false, Option, none, some, [], ◌∷◌, ◌++◌, append_assoc, ◌≡◌, ◌≢◌, sym,
  ap, ◌∙◌, subst, arith,
}
use achgateway.Storage.Laws.{FileView, inside, contents_or_empty}
use achgateway.Storage.Rooted.{inside-ne}
use achgateway.Storage.Filesystem.{Os, write, is_missing, move_file, move_dir, write_in}
use achgateway.Storage.Filesystem.Laws.{IsOs}
use achgateway.Storage.Filesystem.Writes.{write_self, write-frame, write-keeps, Held}

module _ {S : Type 0} (os : Os S) (view : FileView S) (laws : IsOs os view) where
  open view use {holds, is_dir}

  pub write_in_self :
      (dir p c : Text) (s : S) {t : S} → write_in os dir p c s ≡ (none, t) → holds t p ≡ some c
  unfolding write_in
  write_in_self dir p c s h = elim (Option-cases (os.mkdir_all dir s).0) [
    | inr (x, e) ↦ absurd (ground (arith, e, h))
    | inl e ↦ write_self os view laws p c (os.mkdir_all dir s).1 (ground (arith, e, h))
  ]

  pub write_in-frame :
      (dir p c r : Text) (s : S) → p ≢ r → holds (write_in os dir p c s).1 r ≡ holds s r
  unfolding write_in
  write_in-frame dir p c r s ne = ground (
    arith,
    laws.mkdir_all-frame dir r s,
    write-frame os view laws p c r (os.mkdir_all dir s).1 ne,
  )

  -- What is missing holds nothing.
  missing-holds : (p : Text) (s : S) → is_missing os p s ≡ true → holds s p ≡ none
  unfolding is_missing
  missing-holds p s h = elim (Option-cases (holds s p)) [
    | inl e ↦ e
    | inr (c, e) ↦ absurd (ground (arith, h, laws.stat-holds p c s e))
  ]

  split_rooted : (s : Text) → (split (b'/' ∷ s)).0 ≢ []
  unfolding split
  split_rooted s h = ground (arith, h)

  -- The directory that is made for the new path is the old path only where the new one lies below it.
  made_dir :
      (old new : Text) (s : S) {t : S}
      → IsRoot old
      → IsRoot new
      → is_dir s old ≡ false
      → os.rename old new (os.mkdir_all (split new).0 s).1 ≡ (none, t)
      → is_dir (os.mkdir_all (split new).0 s).1 old ≡ false
  made_dir old new s {t} rooted (q, qs, plain, e) file h = elim (split-cases new) [
    | inl (no_dir, _) ↦
        absurd
          (split_rooted (join_slashes (q ∷ qs)) (ap (λ (r : Text). (split r).0) (sym e) ∙ no_dir))
    | inr (d, dir, _) ↦ elim (Bool-cases (is_dir (os.mkdir_all (split new).0 s).1 old)) [
      | inr file' ↦ file'
      | inl made ↦
          let (rest, below) =
            laws.mkdir_all-is_dir d old s rooted file
              (subst (λ r. is_dir (os.mkdir_all r s).1 old ≡ true) dir made) in
          let lies : new ≡ old ++ (b'/' ∷ (rest ++ (split new).1)) =
            sym (split_joins new)
            ∙ ap (λ r. r ++ (split new).1) (dir ∙ below)
            ∙ append_assoc old (b'/' ∷ rest) (split new).1 in
          absurd (
            laws.rename-below old (rest ++ (split new).1) (os.mkdir_all (split new).0 s).1
              (subst (λ r. os.rename old r (os.mkdir_all (split new).0 s).1 ≡ (none, t)) lies h))
    ]
  ]

  pub move_file_self :
      (old new : Text) (s : S) {t : S}
      → IsRoot old
      → IsRoot new
      → old ≢ new
      → is_dir s old ≡ false
      → move_file os old new s ≡ (none, t)
      → (holds t new ≡ some (contents_or_empty (holds s old))) × (holds t old ≡ none)
  unfolding move_file
  move_file_self old new s {t} rooted rooted' ne file h =
      let u : S = (os.mkdir_all (split new).0 s).1 in
      let kept : holds u old ≡ holds s old = laws.mkdir_all-frame (split new).0 old s in
      elim (Option-cases (os.mkdir_all (split new).0 s).0) [
        | inr (x, e) ↦ absurd (ground (arith, e, h))
        | inl e ↦ elim (Bool-cases (is_missing os old u)) [
          | inl missing ↦
              let written : write os new [] u ≡ (none, t) = ground (arith, e, missing, h) in
              let none_held : holds u old ≡ none = missing-holds old u missing in
              (
                write_self os view laws new [] u written
                    ∙ ap (λ o. some (contents_or_empty o)) (sym none_held ∙ kept),
                ap (λ (r : Option Error × S). holds r.1 old) (sym written)
                    ∙ write-frame os view laws new [] old u (λ e'. ne (sym e'))
                    ∙ none_held,
              )
          | inr there ↦
              let renamed : os.rename old new u ≡ (none, t) = ground (arith, e, there, h) in
              let (c, held, moved, gone) =
                laws.rename-self old new u ne (made_dir old new s rooted rooted' file renamed)
                  renamed in
              (moved ∙ ap (λ o. some (contents_or_empty o)) (sym held ∙ kept), gone)
        ]
      ]

  pub move_file-frame :
      (d a b c : Text) (s : S)
      → NoSlash a
      → NoSlash b
      → NoSlash c
      → a ≢ c
      → b ≢ c
      → holds (move_file os (inside d a) (inside d b) s).1 (inside d c) ≡ holds s (inside d c)
  unfolding move_file
  move_file-frame d a b c s pa pb pc na nb =
      let u : S = (os.mkdir_all (split (inside d b)).0 s).1 in
      ground (
        arith,
        laws.mkdir_all-frame (split (inside d b)).0 (inside d c) s,
        write-frame os view laws (inside d b) [] (inside d c) u (inside-ne d b c nb),
        laws.rename-frame d a b c u pa pb pc na nb,
      )

  pub move_file-keeps :
      (old new c : Text) (s : S)
      → holds s new ≡ some c
      → Held os view laws new (move_file os old new s).1
  unfolding move_file
  move_file-keeps old new c s held =
      let u : S = (os.mkdir_all (split new).0 s).1 in
      let kept : holds u new ≡ some c = laws.mkdir_all-frame (split new).0 new s ∙ held in
      let (c', written) = write-keeps os view laws new [] c u kept in
      let (c'', moved) = laws.rename-keeps old new c u kept in
      elim (Option-cases (os.mkdir_all (split new).0 s).0) [
        | inr (x, e) ↦ (c, ground (arith, e, kept))
        | inl e ↦ elim (Bool-cases (is_missing os old u)) [
          | inl missing ↦ (c', ground (arith, e, missing, written))
          | inr there ↦ (c'', ground (arith, e, there, moved))
        ]
      ]

  pub move_dir-moves :
      (old new name c : Text) (s : S) {t : S}
      → move_dir os old new s ≡ (none, t)
      → holds s (inside old name) ≡ some c
      → holds t (inside new name) ≡ some c
  unfolding move_dir is_missing
  move_dir-moves old new name c s h held =
      laws.rename-inside old new name c s (ground (arith, h, laws.stat-inside old name c s held))
        held
