-- ===== src/Storage/Filesystem/Simulated/Laws.antt =====
-- The simulated packages os and filepath behave as documented.
use achgateway.Base.{
  Text, txt, text_eq, text_eq_iff, text_eq_refl, text_eq-of_ne, cut_prefix, cut_prefix-append,
  cut_prefix-some, is_some, NoSlash, contains, All, is, eof, Error, ok, Bool-cases, Option-cases,
  inl, inr, true, false, Option, none, some, List, [], ◌∷◌, ◌++◌, length, length-append, has_prefix,
  ◌≡◌, ◌≢◌, refl, sym, ap, ◌∙◌, subst, arith,
}
use mathlib.Core.Bool.{false≢true}
use achgateway.Storage.Laws.{inside}
use achgateway.Storage.Memory.{
  Files, lookup, remove, rename_dir, under, under-append, lookup-remove, lookup-rename_dir,
  has_suffix-append,
}
use achgateway.Storage.Rooted.{inside-ne, tail}
use achgateway.Storage.Filesystem.Laws.{IsOs, Listing, named, ended, EndsAtEof}
use achgateway.Storage.Filesystem.Simulated.{
  has_files, names_in, stat, rename, end, one_by_one, simulated, simulated_view,
}

has_files-lookup :
    (p name c : Text) (m : Files) → lookup (inside p name) m ≡ some c → has_files p m ≡ true
unfolding has_files lookup
has_files-lookup p name c [] h = cc h
has_files-lookup p name c ((k, v) ∷ m) h = elim (Bool-cases (text_eq k (inside p name))) [
  | inl same ↦
      let at : cut_prefix (under p) k ≡ some name =
        ap (cut_prefix (under p))
          ((text_eq_iff k (inside p name)).0 same ∙ sym (under-append p name))
        ∙ cut_prefix-append (under p) name in
      ground (arith, at)
  | inr other ↦ ground (arith, other, h, has_files-lookup p name c m)
]

names_in-lookup :
    (d name c : Text) (m : Files)
    → lookup (inside d name) m ≡ some c
    → contains (names_in d m) name ≡ true
unfolding names_in lookup contains
names_in-lookup d name c [] h = cc h
names_in-lookup d name c ((k, v) ∷ m) h = elim (Bool-cases (text_eq k (inside d name))) [
  | inl same ↦
      let at : cut_prefix (under d) k ≡ some name =
        ap (cut_prefix (under d))
          ((text_eq_iff k (inside d name)).0 same ∙ sym (under-append d name))
        ∙ cut_prefix-append (under d) name in
      ground (arith, at, text_eq_refl name)
  | inr other ↦ elim (Option-cases (cut_prefix (under d) k)) [
    | inl e ↦ ground (arith, e, other, h, names_in-lookup d name c m)
    | inr (n, e) ↦ ground (arith, e, other, h, names_in-lookup d name c m)
  ]
]

one_by_one-Listing : (xs : List Text) → Listing xs (one_by_one xs)
unfolding one_by_one is
one_by_one-Listing [] = ended end refl
one_by_one-Listing (x ∷ xs) = named x [] (one_by_one-Listing xs)

one_by_one-ends :
    (xs : List Text)
    → All (λ chunk. (e : Error) → chunk ≡ ([], some e) → is e eof ≡ true) (one_by_one xs)
unfolding one_by_one is
one_by_one-ends [] = ((λ e h. ground (arith, h)), tt)
one_by_one-ends (x ∷ xs) = ((λ e h. absurd (cc h)), one_by_one-ends xs)

-- A directory has no file of its own name, nor of that of a file beside it.
not-under : (p name : Text) → under p ++ name ≢ p
not-under p name e =
    omega (arith, ap length e, length-append (p ++ txt "/") name, length-append p (txt "/"))

slash-NoSlash : (a name c : Text) → NoSlash c → (a ++ txt "/") ++ name ≢ c
slash-NoSlash [] name c plain e = absurd (cc (subst NoSlash (sym e) plain).0)
slash-NoSlash (x ∷ a) name [] plain e = cc e
slash-NoSlash (x ∷ a) name (y ∷ c) plain e =
    slash-NoSlash a name c plain.1 (ap (λ (t : Text). tail t) e)

beside : (d a c name : Text) → NoSlash c → under (inside d a) ++ name ≢ inside d c
beside [] a c name plain e = slash-NoSlash a name c plain (ap (λ (t : Text). tail t) e)
beside (x ∷ d) a c name plain e = beside d a c name plain (ap (λ (t : Text). tail t) e)

has_prefix-some : (k p : Text) → has_prefix k p ≡ true → (rest : Text) × (k ≡ p ++ rest)
unfolding has_prefix
has_prefix-some k [] h = (k, refl)
has_prefix-some [] (d ∷ p) h = absurd (cc h)
has_prefix-some (c ∷ k) (d ∷ p) h =
    let (rest, e) = has_prefix-some k p (ground (arith, h)) in (rest, ground (arith, h, e))

rename_dir_frame :
    (p q r : Text) (m : Files)
    → ((name : Text) → under p ++ name ≢ r)
    → ((name : Text) → under q ++ name ≢ r)
    → lookup r (rename_dir p q m) ≡ lookup r m
unfolding lookup rename_dir
rename_dir_frame p q r [] np nq = refl
rename_dir_frame p q r ((k, v) ∷ m) np nq = elim (Option-cases (cut_prefix (under p) k)) [
  | inr (name, e) ↦
      let moved : text_eq (under q ++ name) r ≡ false =
        text_eq-of_ne (under q ++ name) r (nq name) in
      let other : text_eq k r ≡ false =
        text_eq-of_ne k r (λ e'. np name (sym (cut_prefix-some (under p) k name e) ∙ e')) in
      ground (arith, e, moved, other, rename_dir_frame p q r m np nq)
  | inl e ↦ elim (Bool-cases (has_prefix k (under q))) [
    | inl gone ↦
        let (name, e') = has_prefix-some k (under q) gone in
        let other : text_eq k r ≡ false = text_eq-of_ne k r (λ e''. nq name (sym e' ∙ e'')) in
        ground (arith, e, gone, other, rename_dir_frame p q r m np nq)
    | inr stays ↦ ground (arith, e, stays, rename_dir_frame p q r m np nq)
  ]
]

-- A target that is not below what is renamed stays or is replaced.
rename_dir_keeps :
    (p q c : Text) (m : Files)
    → cut_prefix (under p) q ≡ none
    → lookup q m ≡ some c
    → lookup q (rename_dir p q m) ≡ some c
rename_dir_keeps p q c m h held =
    rename_dir_frame p q q m
      (λ name e.
        false≢true
          (ground (arith, h, cut_prefix-append (under p) name, ap (cut_prefix (under p)) e)))
      (λ name. not-under q name)
    ∙ held

rename_frame :
    (d a b c : Text) (s : Files)
    → NoSlash a
    → NoSlash b
    → NoSlash c
    → a ≢ c
    → b ≢ c
    → lookup (inside d c) (rename (inside d a) (inside d b) s).1 ≡ lookup (inside d c) s
unfolding rename lookup
rename_frame d a b c s pa pb pc na nb =
    let p : Text = inside d a in
    let q : Text = inside d b in
    let r : Text = inside d c in
    ground (
      arith,
      rename_dir_frame p q r s (λ name. beside d a c name pc) (λ name. beside d b c name pc),
      lookup-remove p r s,
      text_eq-of_ne p r (inside-ne d a c na),
      text_eq-of_ne q r (inside-ne d b c nb),
    )

rename_self :
    (p q : Text) (s : Files) {t : Files}
    → p ≢ q
    → has_files p s ≡ false
    → rename p q s ≡ (none, t)
    → (c : Text) × (lookup p s ≡ some c) × (lookup q t ≡ some c) × (lookup p t ≡ none)
unfolding rename lookup
rename_self p q s {t} ne file h = elim (Bool-cases (is_some (cut_prefix (under p) q))) [
  | inl e ↦ absurd (ground (arith, e, h))
  | inr e ↦ elim (Option-cases (lookup p s)) [
    | inl e' ↦ absurd (ground (arith, e, e', file, h))
    | inr (c, e') ↦
        let moved : (q, c) ∷ remove p s ≡ t = ground (arith, e, e', file, h) in
        (
          c,
          e',
          ap (lookup q) (sym moved) ∙ ground (arith, text_eq_refl q),
          ap (lookup p) (sym moved)
              ∙ ground
                  (arith, text_eq-of_ne q p (λ x. ne (sym x)), lookup-remove p p s, text_eq_refl p),
        )
  ]
]

rename_keeps :
    (p q c : Text) (s : Files)
    → lookup q s ≡ some c
    → (c' : Text) × (lookup q (rename p q s).1 ≡ some c')
unfolding rename lookup
rename_keeps p q c s held = elim (Option-cases (cut_prefix (under p) q)) [
  | inr (x, e) ↦ (c, ground (arith, e, held))
  | inl e ↦ elim (Bool-cases (has_files p s)) [
    | inl dir ↦ (c, ground (arith, e, dir, rename_dir_keeps p q c s e held))
    | inr file ↦ elim (Option-cases (lookup p s)) [
      | inl e' ↦ (c, ground (arith, e, file, e', held))
      | inr (c', e') ↦ (c', ground (arith, e, file, e', text_eq_refl q))
    ]
  ]
]

rename_inside :
    (p q name c : Text) (s : Files) {t : Files}
    → rename p q s ≡ (none, t)
    → lookup (inside p name) s ≡ some c
    → lookup (inside q name) t ≡ some c
unfolding rename
rename_inside p q name c s {t} h held =
    let dir = has_files-lookup p name c s held in
    elim (Bool-cases (is_some (cut_prefix (under p) q))) [
      | inl e ↦ absurd (ground (arith, e, h))
      | inr e ↦
          let moved : rename_dir p q s ≡ t = ground (arith, e, dir, h) in
          ap (lookup (inside q name)) (sym moved)
          ∙ ap (λ r. lookup r (rename_dir p q s)) (sym (under-append q name))
          ∙ lookup-rename_dir p q name s
          ∙ ap (λ r. lookup r s) (under-append p name)
          ∙ held
    ]

rename_below : (p rest : Text) (s : Files) {t : Files} → rename p (p ++ (b'/' ∷ rest)) s ≢ (none, t)
unfolding rename
rename_below p rest s h =
    let refused : cut_prefix (under p) (p ++ (b'/' ∷ rest)) ≡ some rest =
      ap (cut_prefix (under p)) (sym (under-append p rest)) ∙ cut_prefix-append (under p) rest in
    ground (arith, h, refused)

readdirnames_lists :
    (d : Text) (s : Files) {chunks : List (List Text × Option Error)}
    → simulated.readdirnames d s ≡ ok chunks
    → (names : List Text) × Listing names chunks
      × ((name c : Text)
          → NoSlash name
          → lookup (inside d name) s ≡ some c
          → contains names name ≡ true)
unfolding simulated
readdirnames_lists d s {chunks} h =
    let same : one_by_one (names_in d s) ≡ chunks = ground (arith, h) in
    (
      names_in d s,
      subst (λ (l : List (List Text × Option Error)). Listing (names_in d s) l) same
          (one_by_one-Listing (names_in d s)),
      λ name c plain held. names_in-lookup d name c s held,
    )

pub simulated-EndsAtEof : EndsAtEof simulated
unfolding simulated
simulated-EndsAtEof d s chunks h =
    let same : one_by_one (names_in d s) ≡ chunks = ground (arith, h) in
    subst
      (λ (l : List (List Text × Option Error)).
        All (λ chunk. (e : Error) → chunk ≡ ([], some e) → is e eof ≡ true) l)
      same (one_by_one-ends (names_in d s))

pub simulated-IsOs : IsOs simulated simulated_view
unfolding simulated
simulated-IsOs = record {
  open_read-holds = λ p c s h. ground (arith, h);
  stat-holds = λ p c s h. unfold stat in ground (arith, h);
  mkdir_all-frame = λ d r s. refl;
  mkdir_all-is_dir = λ d r s rooted file made. absurd (false≢true (sym file ∙ made));
  open_trunc-self =
      λ p s h. unfold lookup in ground (arith, text_eq_refl p, ap (λ r. lookup p r.1) h);
  open_trunc-frame = λ p r s ne. unfold lookup in ground (arith, text_eq-of_ne p r ne);
  open_trunc-keeps = λ p c s h. ([], unfold lookup in ground (arith, text_eq_refl p));
  write-self =
      λ p c s empty h. unfold lookup in ground (arith, text_eq_refl p, ap (λ r. lookup p r.1) h);
  write-frame = λ p c r s ne. unfold lookup in ground (arith, text_eq-of_ne p r ne);
  write-keeps = λ p c d s h. (c, unfold lookup in ground (arith, text_eq_refl p));
  sync-frame = λ p r s. refl;
  close-frame = λ p r s. refl;
  rename-self = rename_self;
  rename-below = rename_below;
  rename-frame = rename_frame;
  rename-keeps = rename_keeps;
  rename-inside = rename_inside;
  stat-inside = λ p name c s h. unfold stat in ground (arith, has_files-lookup p name c s h);
  readdirnames-lists = λ d s h. readdirnames_lists d s h;
  match-star =
      λ name plain. unfold text_eq in ground (arith, has_suffix-append name (txt ".canceled"));
}
