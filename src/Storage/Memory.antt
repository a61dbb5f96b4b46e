-- ===== src/Storage/Memory.antt =====
-- A storage that keeps its files in an association list, by relative path. It meets the laws that
-- the pipeline relies on, and the examples run over it.
use achgateway.Base.{
  Option-cases, text_eq-of_ne, cut_suffix-append, cut_prefix, cut_prefix-append, cut_prefix-some,
  Text, txt, text_eq, text_eq_iff, text_eq_refl, has_prefix, has_prefix-append, has_suffix, split,
  split-append, contains, Result, ok, new_error, NoSlash, true, false, ◌&&◌, Bool-cases, inl, inr,
  Option, none, some, List, [], ◌∷◌, ◌++◌, ◌≡◌, refl, sym, ap, ◌∙◌, arith, if◌then◌else◌,
  append_assoc,
}
use achgateway.Storage.{Chest}
use achgateway.Storage.Rooted.{inside-ne}
use achgateway.Storage.Laws.{FileView, IsChest, inside, contents_or_empty}

abbrev pub Files : Type 0
Files = List (Text × Text)

unfoldable pub lookup : Text → Files → Option Text
unfolding text_eq
lookup k [] = none
lookup k ((j, v) ∷ m) = if text_eq j k then some v else lookup k m

unfoldable pub remove : Text → Files → Files
unfolding text_eq
remove k [] = []
remove k ((j, v) ∷ m) = let rest = remove k m in if text_eq j k then rest else (j, v) ∷ rest

pub lookup-remove :
    (k j : Text) (m : Files) → lookup j (remove k m) ≡ (if text_eq k j then none else lookup j m)
unfolding lookup remove
lookup-remove k j [] = ground arith
lookup-remove k j ((i, v) ∷ m) =
    ground (arith, lookup-remove k j m, text_eq_iff i k, text_eq_iff i j, text_eq_iff k j)

abbrev pub under : Text → Text
under dir = dir ++ txt "/"

-- rename(2) of a directory; what the target directory held is replaced.
unfoldable pub rename_dir : Text → Text → Files → Files
unfolding cut_prefix
rename_dir p q [] = []
rename_dir p q ((k, v) ∷ m) =
    let rest = rename_dir p q m in
    elim (cut_prefix (under p) k) [
      | some name ↦ (under q ++ name, v) ∷ rest
      | none ↦ if has_prefix k (under q) then rest else (k, v) ∷ rest
    ]

unfoldable pub matching : Text → Files → List Text
unfolding has_prefix has_suffix
matching dir [] = []
matching dir ((k, v) ∷ m) =
    let rest = matching dir m in
    if has_prefix k dir && has_suffix k (txt ".canceled") then k ∷ rest else rest

unfoldable pub memory : Chest Files
unfolding lookup remove rename_dir matching split
memory = record {
  open_file = λ p s. elim (lookup p s) [
    | none ↦ Result.err (new_error (txt "no such file"))
    | some c ↦ ok c
  ];
  glob = λ p s. ok (matching (split p).0 s);
  read_dir = λ p s. ok [];
  replace_file = λ p q s. (none, (q, contents_or_empty (lookup p s)) ∷ remove p s);
  replace_dir = λ p q s. (none, rename_dir p q s);
  mkdir_all = λ p s. (none, s);
  rmdir_all = λ p s. (none, s);
  write_file = λ p c s. (none, (p, c) ∷ s);
}

text_eq-append : (p s t : Text) → text_eq (p ++ s) (p ++ t) ≡ text_eq s t
unfolding text_eq
text_eq-append [] s t = refl
text_eq-append (c ∷ p) s t = ground (arith, text_eq-append p s t)

pub lookup-rename_dir :
    (p q name : Text) (m : Files)
    → lookup (under q ++ name) (rename_dir p q m) ≡ lookup (under p ++ name) m
unfolding lookup rename_dir
lookup-rename_dir p q name [] = refl
lookup-rename_dir p q name ((k, v) ∷ m) = elim (Option-cases (cut_prefix (under p) k)) [
  | inl outside ↦
      let rhs : text_eq k (under p ++ name) ≡ false =
        text_eq-of_ne k (under p ++ name)
          (λ e. ground (arith, cut_prefix-append (under p) name, e)) in
      elim (Bool-cases (has_prefix k (under q))) [
        | inl gone ↦ ground (arith, outside, gone, rhs, lookup-rename_dir p q name m)
        | inr stays ↦
            let lhs : text_eq k (under q ++ name) ≡ false =
              text_eq-of_ne k (under q ++ name)
                (λ e. ground (arith, has_prefix-append (under q) name, e)) in
            ground (arith, outside, stays, rhs, lhs, lookup-rename_dir p q name m)
      ]
  | inr (n, moved) ↦
      let k_eq = cut_prefix-some (under p) k n moved in
      ground (
        arith,
        moved,
        ap (λ r. text_eq r (under p ++ name)) k_eq,
        text_eq-append (under q) n name,
        text_eq-append (under p) n name,
        lookup-rename_dir p q name m,
      )
]

contains-matching :
    (dir k c : Text) (m : Files)
    → has_prefix k dir ≡ true
    → has_suffix k (txt ".canceled") ≡ true
    → lookup k m ≡ some c
    → contains (matching dir m) k ≡ true
unfolding lookup matching contains
contains-matching dir k c [] hp hs h = cc
contains-matching dir k c ((j, v) ∷ m) hp hs h = elim (Bool-cases (text_eq j k)) [
  | inl same ↦
      let e = (text_eq_iff j k).0 same in
      rw (ap (λ r. has_prefix r dir) e ∙ hp, ap (λ r. has_suffix r (txt ".canceled")) e ∙ hs, same)
  | inr other ↦ ground (arith, other, contains-matching dir k c m hp hs)
]

pub has_suffix-append : (s p : Text) → has_suffix (s ++ p) p ≡ true
unfolding has_suffix
has_suffix-append s p = rw (cut_suffix-append, has_suffix)

pub under-append : (dir name : Text) → under dir ++ name ≡ inside dir name
under-append dir name = append_assoc dir (txt "/") name

glob_prefix : (dir : Text) → (split (dir ++ txt "/*.canceled")).0 ≡ under dir
glob_prefix dir = ap (λ r. r.0) (split-append dir (txt "*.canceled") plain)
  where
    plain : NoSlash (txt "*.canceled")
    plain = (refl, (refl, (refl, (refl, (refl, (refl, (refl, (refl, (refl, (refl, tt))))))))))

memory_glob :
    (dir name c : Text) (m : Files)
    → lookup (inside dir (name ++ txt ".canceled")) m ≡ some c
    → contains
        (matching (split (dir ++ txt "/*.canceled")).0 m)
        (inside dir (name ++ txt ".canceled"))
      ≡ true
memory_glob dir name c m h = rw glob_prefix (
    contains-matching (under dir) _ c m
      (rw (← under-append dir (name ++ txt ".canceled")) (has_prefix-append (under dir) _))
      (rw (← append_assoc dir (b'/' ∷ name) (txt ".canceled")) (has_suffix-append _ _)) h)

abbrev pub memory_view : FileView Files
memory_view = record { holds = λ s p. lookup p s; is_dir = λ s p. false }

pub memory-IsChest : IsChest memory memory_view
unfolding memory
memory-IsChest = record {
  open_file-holds = λ p c s path h. ground arith;
  write_file-self = λ p c s path h. ground (arith, text_eq_refl p, ap (λ r. lookup p r.1) h);
  write_file-frame = λ p c r s path path' ne. rw (text_eq-of_ne p r ne);
  replace_file-self = λ p q s path path' ne file h. (
    ground (arith, text_eq_refl q, ap (λ r. lookup q r.1) h),
    ground (
      arith,
      text_eq-of_ne q p (λ e. ne (sym e)),
      lookup-remove p p s,
      text_eq_refl p,
      ap (λ r. lookup p r.1) h,
    ),
  );
  replace_file-frame = λ dir a b c s path pa pb pc na nb. ground (
    arith,
    text_eq-of_ne (inside dir b) (inside dir c) (inside-ne dir b c nb),
    lookup-remove (inside dir a) (inside dir c) s,
    text_eq-of_ne (inside dir a) (inside dir c) (inside-ne dir a c na),
  );
  replace_file-keeps = λ p q c s pp pq h. (contents_or_empty (lookup p s), rw (text_eq_refl q));
  replace_dir-moves = λ p q name c s pp pq plain h held.
      ap (λ r. lookup (inside q name) r.1) (sym h)
      ∙ ap (λ r. lookup r (rename_dir p q s)) (sym (under-append q name))
      ∙ lookup-rename_dir p q name s
      ∙ ap (λ r. lookup r s) (under-append p name)
      ∙ held;
  glob-finds = λ dir name c s path plain h held. ground (arith, memory_glob dir name c s held);
}
