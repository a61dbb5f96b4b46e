-- ===== src/Storage/Filesystem/Globs.antt =====
-- The listing of canceled files by the storage on disk.
use achgateway.Base.{
  Text, txt, join, split, split-append, IsRoot, IsPlain, IsPlain-append, NoSlash, contains,
  contains-map, text_eq, text_eq_iff, trim_prefix, trim_prefix-append, All, is, eof, Error, Result,
  ok, Result-cases, Bool-cases, inl, inr, Bool, true, Option, none, some, List, [], ◌∷◌, ◌++◌,
  append_assoc, map, ◌≡◌, refl, sym, ap, ◌∙◌, subst, arith,
}
use achgateway.Storage.Laws.{FileView, IsPath, inside}
use achgateway.Storage.Rooted.{join-subdir, join-found}
use achgateway.Storage.Filesystem.{Os, all_names, matches, existing, relative, list_matches, glob}
use achgateway.Storage.Filesystem.Laws.{IsOs, Listing, named, ended, stopped, EndsAtEof}

-- The loop of Glob gives all names, or an error.
all_names-Listing :
    {S : Type 0} (os : Os S) {all names : List Text} {chunks : List (List Text × Option Error)}
    → Listing all chunks
    → All (λ chunk. (e : Error) → chunk ≡ ([], some e) → is e eof ≡ true) chunks
    → all_names os chunks ≡ ok names
    → names ≡ all
unfolding all_names
all_names-Listing os (ended e at_end) ends h = ground (arith, h)
all_names-Listing os (stopped [] e more) ends h = absurd (cc (more, ends.0 e refl))
all_names-Listing os (stopped (n ∷ ns) e more) ends h = absurd (cc h)
all_names-Listing os (named {chunks = chunks} n ns rest) ends h =
    elim (Result-cases (all_names os chunks)) [
      | inr (x, e) ↦ absurd (ground (arith, e, h))
      | inl (found, e) ↦
          let same = all_names-Listing os rest ends.1 e in
          ground (arith, e, h, ap (λ (l : List Text). (n ∷ ns) ++ l) same)
    ]

module _ {S : Type 0} (os : Os S) (view : FileView S) (laws : IsOs os view) (ends : EndsAtEof os)
    (root : Text) (rooted : IsRoot root) where
  open view use {holds}

  contains-matches :
      (suffix n : Text) (names : List Text) {found : List Text}
      → os.match suffix n ≡ ok true
      → matches os suffix names ≡ ok found
      → contains names n ≡ true
      → contains found n ≡ true
  unfolding matches contains
  contains-matches suffix n [] fits h held = absurd (cc held)
  contains-matches suffix n (m ∷ names) {found} fits h held =
      elim (Result-cases (os.match suffix m)) [
        | inr (x, e) ↦ absurd (ground (arith, e, h))
        | inl (b, e) ↦ elim (Result-cases (matches os suffix names)) [
          | inr (x, e') ↦ absurd (ground (arith, e, e', h))
          | inl (more, e') ↦ elim (Bool-cases (text_eq m n)) [
            | inl same ↦
                let found_m : ◌≡◌ {A = Result Bool} (ok b) (ok true) =
                  sym e ∙ ap (os.match suffix) ((text_eq_iff m n).0 same) ∙ fits in
                ground (arith, e, e', h, same, found_m)
            | inr other ↦
                let later : contains more n ≡ true =
                  contains-matches suffix n names fits e' (ground (arith, other, held)) in
                ground (arith, e, e', h, other, later)
          ]
        ]
      ]

  contains-existing :
      (p : Text) (paths : List Text) (s : S)
      → os.stat p s ≡ none
      → contains paths p ≡ true
      → contains (existing os paths s) p ≡ true
  unfolding existing contains
  contains-existing p [] s there h = h
  contains-existing p (q ∷ paths) s there h = elim (Bool-cases (text_eq q p)) [
    | inl same ↦ ground (arith, same, ap (λ r. os.stat r s) ((text_eq_iff q p).0 same) ∙ there)
    | inr other ↦ ground (arith, other, h, contains-existing p paths s there)
  ]

  contains-relative :
      (p : Text) (paths : List Text)
      → contains paths p ≡ true
      → contains (relative os root paths) (trim_prefix p (root ++ txt "/")) ≡ true
  unfolding relative
  contains-relative p paths h = contains-map (λ r. trim_prefix r (root ++ txt "/")) paths p h

  module _ (dir name c : Text) (s : S) (path : IsPath dir) (plain : NoSlash name) where
    abbrev found_name : Text
    found_name = name ++ txt ".canceled"

    found_name-IsPlain : IsPlain found_name
    found_name-IsPlain =
        IsPlain-append name (txt ".canceled") plain
          (refl, (refl, (refl, (refl, (refl, (refl, (refl, (refl, (refl, tt))))))))) (omega arith)

    trimmed :
        trim_prefix (inside root (inside dir found_name)) (root ++ txt "/") ≡ inside dir found_name
    trimmed =
        ap (λ r. trim_prefix r (root ++ txt "/"))
          (sym (append_assoc root (txt "/") (inside dir found_name)))
        ∙ trim_prefix-append (root ++ txt "/") (inside dir found_name)

    list_matches-finds :
        (chunks : List (List Text × Option Error)) {found : List Text}
        → os.readdirnames (inside root dir) s ≡ ok chunks
        → list_matches os root (dir ++ txt "/") (txt "*.canceled") chunks s ≡ ok found
        → holds s (inside root (inside dir found_name)) ≡ some c
        → contains found (inside dir found_name) ≡ true
    unfolding list_matches
    list_matches-finds chunks {found} listed h held = elim (Result-cases (all_names os chunks)) [
      | inr (x, e) ↦ absurd (ground (arith, e, h))
      | inl (names, e) ↦ elim (Result-cases (matches os (txt "*.canceled") names)) [
        | inr (x, e') ↦ absurd (ground (arith, e, e', h))
        | inl (fitting, e') ↦
            let full : Text → Text = λ n. join (root ∷ (dir ++ txt "/") ∷ n ∷ []) in
            let at : full found_name ≡ inside root (inside dir found_name) =
              join-found root dir found_name rooted path found_name-IsPlain in
            let (all, listing, there_is) = laws.readdirnames-lists (inside root dir) s listed in
            let listed_name : contains names found_name ≡ true =
              ap (λ (l : List Text). contains l found_name)
                (all_names-Listing os listing (ends (inside root dir) s chunks listed) e)
              ∙ there_is found_name c found_name-IsPlain.no_slash
                  (ap (holds s) (append_assoc root (b'/' ∷ dir) (b'/' ∷ found_name)) ∙ held) in
            let fits : contains fitting found_name ≡ true =
              contains-matches (txt "*.canceled") found_name names (laws.match-star name plain) e'
                listed_name in
            let there : os.stat (full found_name) s ≡ none =
              ap (λ p. os.stat p s) at
              ∙ laws.stat-holds (inside root (inside dir found_name)) c s held in
            let kept : contains (existing os (map full fitting) s) (full found_name) ≡ true =
              contains-existing (full found_name) (map full fitting) s there
                (contains-map full fitting found_name fits) in
            subst (λ l. contains l (inside dir found_name) ≡ true) (ground (arith, e, e', h))
              (subst (λ p. contains (relative os root (existing os (map full fitting) s)) p ≡ true)
                (ap (λ p. trim_prefix p (root ++ txt "/")) at ∙ trimmed)
                (contains-relative (full found_name) (existing os (map full fitting) s) kept))
      ]
    ]

    pub glob-finds :
        {found : List Text}
        → glob os root (dir ++ txt "/*.canceled") s ≡ ok found
        → holds s (inside root (inside dir found_name)) ≡ some c
        → contains found (inside dir found_name) ≡ true
    unfolding glob
    glob-finds {found} h held =
        let cut : split (dir ++ txt "/*.canceled") ≡ (dir ++ txt "/", txt "*.canceled") =
          split-append dir (txt "*.canceled")
            (refl, (refl, (refl, (refl, (refl, (refl, (refl, (refl, (refl, (refl, tt)))))))))) in
        let at : join (root ∷ (split (dir ++ txt "/*.canceled")).0 ∷ []) ≡ inside root dir =
          ap (λ r. join (root ∷ r.0 ∷ [])) cut ∙ join-subdir root dir rooted path in
        elim (Result-cases (os.readdirnames (inside root dir) s)) [
          | inr (x, e) ↦ absurd (ground (arith, ap (λ p. os.readdirnames p s) at ∙ e, h))
          | inl (chunks, e) ↦
              list_matches-finds chunks e
                (ap (λ r. list_matches os root r.0 r.1 chunks s) (sym cut)
                  ∙ ground (arith, ap (λ p. os.readdirnames p s) at ∙ e, h))
                held
        ]
