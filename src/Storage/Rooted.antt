-- ===== src/Storage/Rooted.antt =====
-- Where filepath.Join puts the files of a storage below its root directory.
use achgateway.Base.{
  Text, txt, join, join_slashes, join_slashes-append, join-rooted, join_three, parts, parts_cut,
  parts-join_slashes, parts-split, split, split_slashes, IsRoot, IsPlain, All, All-append, All-left,
  All-right, text_eq, List, [], ◌∷◌, ◌++◌, append_assoc, append-nil, ◌≡◌, ◌≢◌, refl, sym, ap, ◌∙◌,
  subst,
}
use achgateway.Storage.Laws.{IsPath, inside}

abbrev pub tail : Text → Text
tail [] = []
tail (c ∷ s) = s

pub inside-ne : (dir a b : Text) → a ≢ b → inside dir a ≢ inside dir b
inside-ne [] a b h e = h (ap (λ (t : Text). tail t) e)
inside-ne (c ∷ dir) a b h e = inside-ne dir a b h (ap (λ (t : Text). tail t) e)

pub IsPath-inside : (dir name : Text) → IsPath dir → IsPlain name → IsPath (inside dir name)
unfolding join_slashes
IsPath-inside dir name (q, qs, plain, e) h = (
  q,
  qs ++ (name ∷ []),
  All-append IsPlain (q ∷ qs) (name ∷ []) plain (h, tt),
  ap (λ d. inside d name) e ∙ sym (join_slashes-append q qs name []),
)

pub IsRoot-inside : (root p : Text) → IsRoot root → IsPath p → IsRoot (inside root p)
IsRoot-inside root p (q, qs, rooted, e) (r, rs, plain, e') = (
  q,
  qs ++ (r ∷ rs),
  All-append IsPlain (q ∷ qs) (r ∷ rs) rooted plain,
  (λ i. inside (e i) (e' i)) ∙ ap (λ d. b'/' ∷ d) (sym (join_slashes-append q qs r rs)),
)

parts-IsPath :
    (p q : Text) (qs : List Text)
    → All IsPlain (q ∷ qs)
    → p ≡ join_slashes (q ∷ qs)
    → parts p ≡ q ∷ qs
parts-IsPath p q qs plain e = ap parts e ∙ parts-join_slashes q qs plain

-- Any path with the elements of a path p goes to the same place.
join-parts :
    (root t p : Text)
    → IsRoot root
    → IsPath p
    → parts t ≡ parts p
    → join (root ∷ t ∷ []) ≡ inside root p
join-parts root t p (q, qs, rooted, e) (r, rs, plain, e') same =
    let elements : parts t ≡ r ∷ rs = same ∙ parts-IsPath p r rs plain e' in
    ap (λ d. join (d ∷ t ∷ [])) e
    ∙ join-rooted q qs t rooted (subst (All IsPlain) (sym elements) plain)
    ∙ ap (λ l. b'/' ∷ join_slashes ((q ∷ qs) ++ l)) elements
    ∙ ap (λ d. b'/' ∷ d) (join_slashes-append q qs r rs)
    ∙ (λ i. inside (sym e i) (sym e' i))

pub join-root : (root p : Text) → IsRoot root → IsPath p → join (root ∷ p ∷ []) ≡ inside root p
join-root root p rooted path = join-parts root p p rooted path refl

parts_open : (dir : Text) → parts (dir ++ txt "/") ≡ parts dir
unfolding split_slashes
parts_open dir = parts_cut dir [] ∙ append-nil (parts dir)

pub join-subdir :
    (root dir : Text)
    → IsRoot root
    → IsPath dir
    → join (root ∷ (dir ++ txt "/") ∷ []) ≡ inside root dir
join-subdir root dir rooted path = join-parts root (dir ++ txt "/") dir rooted path (parts_open dir)

pub join-found :
    (root dir name : Text)
    → IsRoot root
    → IsPath dir
    → IsPlain name
    → join (root ∷ (dir ++ txt "/") ∷ name ∷ []) ≡ inside root (inside dir name)
unfolding text_eq split_slashes
join-found root [] name rooted (q, qs, all, e) plain = absurd (cc (parts-IsPath [] q qs all e))
join-found root (c ∷ dir) [] rooted path plain = absurd (cc plain.not_empty)
join-found root (c ∷ dir) (n ∷ name) rooted path plain =
    join_three root c n (dir ++ txt "/") name rooted
    ∙ join-parts root (((c ∷ dir) ++ txt "/") ++ (b'/' ∷ n ∷ name)) (inside (c ∷ dir) (n ∷ name))
        rooted (IsPath-inside (c ∷ dir) (n ∷ name) path plain)
        (parts_cut ((c ∷ dir) ++ txt "/") (n ∷ name)
          ∙ ap (λ l. l ++ parts (n ∷ name)) (parts_open (c ∷ dir))
          ∙ sym (parts_cut (c ∷ dir) (n ∷ name)))

-- A path that is split and joined again.
pub join-split :
    (root p : Text)
    → IsRoot root
    → IsPath p
    → join (join (root ∷ (split p).0 ∷ []) ∷ (split p).1 ∷ []) ≡ inside root p
join-split root p (q, qs, rooted, e) (r, rs, plain, e') =
    let whole : parts (split p).0 ++ parts (split p).1 ≡ r ∷ rs =
      parts-split p ∙ parts-IsPath p r rs plain e' in
    let all : All IsPlain (parts (split p).0 ++ parts (split p).1) =
      subst (All IsPlain) (sym whole) plain in
    let dir_plain = All-left IsPlain (parts (split p).0) (parts (split p).1) all in
    let name_plain = All-right IsPlain (parts (split p).0) (parts (split p).1) all in
    ap (λ d. join (join (d ∷ (split p).0 ∷ []) ∷ (split p).1 ∷ [])) e
    ∙ ap (λ d. join (d ∷ (split p).1 ∷ [])) (join-rooted q qs (split p).0 rooted dir_plain)
    ∙ join-rooted q (qs ++ parts (split p).0) (split p).1
        (All-append IsPlain (q ∷ qs) (parts (split p).0) rooted dir_plain) name_plain
    ∙ ap (λ l. b'/' ∷ join_slashes l)
        (append_assoc (q ∷ qs) (parts (split p).0) (parts (split p).1)
          ∙ ap (λ l. (q ∷ qs) ++ l) whole)
    ∙ ap (λ d. b'/' ∷ d) (join_slashes-append q qs r rs)
    ∙ (λ i. inside (sym e i) (sym e' i))
