-- ===== src/Base/TextLaws.antt =====
-- Laws of the functions on texts and paths.
use mathlib.Core.List.{reverse, reverse-cons}
use achgateway.Base.Tests.{nat_eq, Bool-cases, Option-cases}
use achgateway.Base.Lists.{length, length-append, All}
use achgateway.Base.Bytes.{
  Text, txt, text_eq, text_eq_refl, text_eq-of_ne, text_eq_iff, cut_prefix, trim_prefix, cut_suffix,
  trim_suffix, has_prefix, text_contains, contains,
}
use achgateway.Base.Paths.{
  split_slashes, join_slashes, clean_parts, clean, drop_empty, is_rooted, or_dot, join, split,
}
use Prim.Native.Nat.{ℕ, ◌<◌, ◌≤◌}
use mathlib.Core.Path.{◌≡◌, refl, ap, sym, ◌∙◌}
use mathlib.Core.Logic.{◌≢◌, inl, inr}
use mathlib.Core.Bool.{Bool, true, false, not, ◌&&◌}
use mathlib.Core.List.{List, [], ◌∷◌, ◌++◌, map, append_assoc, append-nil}
use mathlib.Core.Option.{some}
use native.Mathlib.Omega.{arith}

-- A text with something before it is another text.
pub ne-append : (c : ℕ) (s p : Text) → c ∷ (s ++ p) ≢ p
ne-append c s p h = omega (arith, ap length h, length-append s p)

cut_suffix_self : (p : Text) → cut_suffix p p ≡ some []
unfolding cut_suffix text_eq
cut_suffix_self [] = refl
cut_suffix_self (c ∷ p) = rw (text_eq_refl (c ∷ p))

pub cut_suffix-append : (s p : Text) → cut_suffix (s ++ p) p ≡ some s
unfolding cut_suffix
cut_suffix-append [] p = cut_suffix_self p
cut_suffix-append (c ∷ s) p =
    rw (text_eq-of_ne (c ∷ (s ++ p)) p (ne-append c s p), cut_suffix-append s p)

pub cut_suffix-some : (s p r : Text) → cut_suffix s p ≡ some r → s ≡ r ++ p
unfolding cut_suffix
cut_suffix-some [] p r h = ground (arith, text_eq_iff [] p)
cut_suffix-some (c ∷ s) p r h = elim (Bool-cases (text_eq (c ∷ s) p)) [
  | inl e ↦ ground (arith, e, h, text_eq_iff (c ∷ s) p)
  | inr e ↦ elim (Option-cases (cut_suffix s p)) [
    | inl f ↦ absurd (ground (arith, e, f, h))
    | inr (q, f) ↦
        let same : c ∷ q ≡ r = ground (arith, e, f, h) in
        ap (λ (t : Text). c ∷ t) (cut_suffix-some s p q f) ∙ ap (λ (t : Text). t ++ p) same
  ]
]

-- A text that still has the suffix had it twice.
pub trim_suffix_twice : (k s p : Text) → trim_suffix k p ≡ s ++ p → k ≡ (s ++ p) ++ p
unfolding trim_suffix
trim_suffix_twice k s p h = elim (Option-cases (cut_suffix k p)) [
  | inl e ↦
      let same : k ≡ s ++ p = ground (arith, e, h) in
      absurd (cc (e, ap (λ (t : Text). cut_suffix t p) same, cut_suffix-append s p))
  | inr (r, e) ↦ cut_suffix-some k p r e ∙ ap (λ (t : Text). t ++ p) (ground (arith, e, h))
]

-- strings.TrimSuffix takes off a suffix that was put on.
pub trim_suffix-append : (s p : Text) → trim_suffix (s ++ p) p ≡ s
unfolding trim_suffix
trim_suffix-append s p = rw (cut_suffix-append, trim_suffix)

pub has_prefix-append : (p s : Text) → has_prefix (p ++ s) p ≡ true
unfolding has_prefix
has_prefix-append [] s = refl
has_prefix-append (c ∷ p) s = ground (arith, has_prefix-append p s)

pub cut_prefix-append : (p s : Text) → cut_prefix p (p ++ s) ≡ some s
unfolding cut_prefix
cut_prefix-append [] s = refl
cut_prefix-append (c ∷ p) s = rw (text_eq_refl (c ∷ [])) (cut_prefix-append p s)

pub cut_prefix-some : (p k s : Text) → cut_prefix p k ≡ some s → k ≡ p ++ s
unfolding cut_prefix
cut_prefix-some [] k s h = cc
cut_prefix-some (c ∷ p) [] s h = cc
cut_prefix-some (c ∷ p) (d ∷ k) s h =
    ground (arith, text_eq_iff (c ∷ []) (d ∷ []), cut_prefix-some p k s)

pub trim_prefix-append : (p s : Text) → trim_prefix (p ++ s) p ≡ s
unfolding trim_prefix
trim_prefix-append p s = rw (cut_prefix-append, trim_prefix)

pub contains-map :
    (f : Text → Text) (xs : List Text) (x : Text)
    → contains xs x ≡ true
    → contains (map f xs) (f x) ≡ true
unfolding contains
contains-map f [] x h = h
contains-map f (y ∷ xs) x h = elim (Bool-cases (text_eq y x)) [
  | inl same ↦ rw ((text_eq_iff (f y) (f x)).1 (ap f ((text_eq_iff y x).0 same)))
  | inr other ↦ ground (arith, contains-map f xs x)
]

contains-of_prefix : (s p : Text) → has_prefix s p ≡ true → text_contains s p ≡ true
unfolding text_contains
contains-of_prefix [] p h = h
contains-of_prefix (c ∷ s) p h = ground arith

pub contains-append : (s p t : Text) → text_contains (s ++ (p ++ t)) p ≡ true
unfolding text_contains
contains-append [] p t = contains-of_prefix (p ++ t) p (has_prefix-append p t)
contains-append (c ∷ s) p t = ground (arith, contains-append s p t)

-- No slash in the text.
abbrev pub NoSlash : Text → Type 0
NoSlash = All (λ c. nat_eq c b'/' ≡ false)

-- A path element that filepath.Clean keeps.
pub record IsPlain (p : Text) : Type 0 where
  pub no_slash : NoSlash p
  pub not_empty : text_eq p [] ≡ false
  pub not_dot : text_eq p (txt ".") ≡ false
  pub not_up : text_eq p (txt "..") ≡ false

split_slashes-append :
    (p rest : Text) → NoSlash p → split_slashes (p ++ (b'/' ∷ rest)) ≡ p ∷ split_slashes rest
unfolding split_slashes
split_slashes-append [] rest h = refl
split_slashes-append (c ∷ p) rest h = rw (h.0, split_slashes-append p rest h.1)

pub split_slashes-plain : (p : Text) → NoSlash p → split_slashes p ≡ p ∷ []
unfolding split_slashes
split_slashes-plain [] h = refl
split_slashes-plain (c ∷ p) h = rw (h.0, split_slashes-plain p h.1)

split-plain : (p : Text) → NoSlash p → split p ≡ ([], p)
unfolding split
split-plain [] h = refl
split-plain (c ∷ p) h = ground (arith, split-plain p h.1, h.0)

-- filepath.Split cuts behind the last slash.
pub split-append :
    (dir name : Text) → NoSlash name → split (dir ++ (b'/' ∷ name)) ≡ (dir ++ (b'/' ∷ []), name)
unfolding split
split-append [] name h = ground (arith, split-plain name h)
split-append (c ∷ []) name h = ground (arith, split-append [] name h)
split-append (c ∷ d ∷ dir) name h = ground (arith, split-append (d ∷ dir) name h)

clean_part-plain :
    (p : Text) (ps kept : List Text)
    → IsPlain p
    → clean_parts false (p ∷ ps) kept ≡ clean_parts false ps (p ∷ kept)
unfolding clean_parts
clean_part-plain p ps kept h = rw (h.not_empty, h.not_dot, h.not_up)

clean_parts-plain :
    (ps kept : List Text) → All IsPlain ps → clean_parts false ps kept ≡ reverse kept ++ ps
clean_parts-plain [] kept h = unfold clean_parts in sym (append-nil (reverse kept))
clean_parts-plain (p ∷ ps) kept h =
    clean_part-plain p ps kept h.0
    ∙ clean_parts-plain ps (p ∷ kept) h.1
    ∙ rw (reverse-cons, append_assoc)

pub split_slashes-join_slashes :
    (p : Text) (ps : List Text)
    → All IsPlain (p ∷ ps)
    → split_slashes (join_slashes (p ∷ ps)) ≡ p ∷ ps
unfolding join_slashes
split_slashes-join_slashes p [] h = split_slashes-plain p h.0.no_slash
split_slashes-join_slashes p (q ∷ ps) h =
    rw (split_slashes-append p (join_slashes (q ∷ ps)) h.0.no_slash)
      (ap (λ r. p ∷ r) (split_slashes-join_slashes q ps h.1))

clean-relative :
    (q : Text)
    → is_rooted q ≡ false
    → clean q ≡ or_dot (join_slashes (clean_parts false (split_slashes q) []))
unfolding clean
clean-relative q h = rw h

is_rooted-join_slashes :
    (c : ℕ) (s : Text) (ps : List Text) → is_rooted (join_slashes ((c ∷ s) ∷ ps)) ≡ nat_eq c b'/'
unfolding join_slashes
is_rooted-join_slashes c s [] = refl
is_rooted-join_slashes c s (p ∷ ps) = refl

or_dot-join_slashes :
    (c : ℕ) (s : Text) (ps : List Text)
    → or_dot (join_slashes ((c ∷ s) ∷ ps)) ≡ join_slashes ((c ∷ s) ∷ ps)
unfolding join_slashes
or_dot-join_slashes c s [] = refl
or_dot-join_slashes c s (p ∷ ps) = refl

clean-plain :
    (c : ℕ) (s : Text) (ps : List Text)
    → All IsPlain ((c ∷ s) ∷ ps)
    → clean (join_slashes ((c ∷ s) ∷ ps)) ≡ join_slashes ((c ∷ s) ∷ ps)
clean-plain c s ps h =
    clean-relative _ (is_rooted-join_slashes c s ps ∙ h.0.no_slash.0)
    ∙ ap (λ r. or_dot (join_slashes (clean_parts false r [])))
        (split_slashes-join_slashes (c ∷ s) ps h)
    ∙ ap (λ r. or_dot (join_slashes r)) (clean_parts-plain ((c ∷ s) ∷ ps) [] h)
    ∙ or_dot-join_slashes c s ps

pub drop_empty-plain : (ps : List Text) → All IsPlain ps → drop_empty ps ≡ ps
unfolding text_eq
drop_empty-plain [] h = refl
drop_empty-plain ([] ∷ ps) h = absurd (cc h.0.not_empty)
drop_empty-plain ((c ∷ p) ∷ ps) h = ap (λ r. (c ∷ p) ∷ r) (drop_empty-plain ps h.1)

-- filepath.Join of plain elements puts slashes between them.
pub join-plain :
    (p : Text) (ps : List Text) → All IsPlain (p ∷ ps) → join (p ∷ ps) ≡ join_slashes (p ∷ ps)
unfolding join text_eq
join-plain [] ps h = absurd (cc h.0.not_empty)
join-plain (c ∷ p) ps h = rw (drop_empty-plain ps h.1) (clean-plain c p ps h)

NoSlash-append : (p q : Text) → NoSlash p → NoSlash q → NoSlash (p ++ q)
NoSlash-append [] q hp hq = hq
NoSlash-append (c ∷ p) q hp hq = (hp.0, NoSlash-append p q hp.1 hq)

-- A long enough suffix makes a plain element of any text with no slash.
pub IsPlain-append : (p q : Text) → NoSlash p → NoSlash q → 2 < length q → IsPlain (p ++ q)
IsPlain-append p q hp hq h = record {
  no_slash = NoSlash-append p q hp hq;
  not_empty = text_eq-of_ne _ _ (longer [] (omega arith));
  not_dot = text_eq-of_ne _ _ (longer (txt ".") (omega arith));
  not_up = text_eq-of_ne _ _ (longer (txt "..") (omega arith));
}
  where
    longer : (r : Text) → length r ≤ 2 → p ++ q ≢ r
    longer r hr e = omega (arith, ap length e, length-append p q)

-- The last byte of a text, or `d` for the empty one.
abbrev pub last_byte : ℕ → Text → ℕ
last_byte d [] = d
last_byte d (c ∷ s) = last_byte c s

pub last_byte-append :
    (d : ℕ) (s : Text) (c : ℕ) (t : Text) → last_byte d (s ++ (c ∷ t)) ≡ last_byte c t
last_byte-append d [] c t = refl
last_byte-append d (x ∷ s) c t = last_byte-append x s c t

-- The predicates on literals, by evaluation.
unfoldable pub lacks_slash : Text → Bool
lacks_slash [] = true
lacks_slash (c ∷ s) = not (nat_eq c b'/') && lacks_slash s

pub NoSlash-check : (s : Text) → lacks_slash s ≡ true → NoSlash s
unfolding lacks_slash
NoSlash-check [] h = tt
NoSlash-check (c ∷ s) h = (ground arith, NoSlash-check s (ground arith))

unfoldable pub looks_plain : Text → Bool
unfolding lacks_slash text_eq
looks_plain p =
    lacks_slash p && not (text_eq p []) && not (text_eq p (txt ".")) && not (text_eq p (txt ".."))

pub IsPlain-check : (p : Text) → looks_plain p ≡ true → IsPlain p
unfolding looks_plain
IsPlain-check p h = record {
  no_slash = NoSlash-check p (ground arith);
  not_empty = ground arith;
  not_dot = ground arith;
  not_up = ground arith;
}
