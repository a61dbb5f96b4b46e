-- ===== src/Base/PathLaws.antt =====
-- filepath.Join below an absolute directory.
use mathlib.Core.Path.{◌≡◌, refl, ap, sym, ◌∙◌, subst}
use mathlib.Core.Logic.{◌⊎◌, inl, inr}
use mathlib.Core.Bool.{Bool, true}
use Prim.Native.Nat.{ℕ}
use mathlib.Core.List.{List, [], ◌∷◌, ◌++◌, reverse, reverse-cons, append_assoc, append-nil}
use native.Mathlib.Omega.{arith}
use achgateway.Base.Tests.{nat_eq, Bool-cases}
use achgateway.Base.Lists.{All, All-append}
use achgateway.Base.Bytes.{Text, text_eq}
use achgateway.Base.Paths.{split_slashes, join_slashes, clean_parts, clean, drop_empty, join, split}
use achgateway.Base.TextLaws.{
  IsPlain, split_slashes-plain, split_slashes-join_slashes, drop_empty-plain,
}

-- The elements of a path.
abbrev pub parts : Text → List Text
parts p = drop_empty (split_slashes p)

split_slashes-cons : (s : Text) → (p : Text) × (ps : List Text) × (split_slashes s ≡ p ∷ ps)
unfolding split_slashes
split_slashes-cons [] = ([], [], refl)
split_slashes-cons (c ∷ s) =
    let (p, ps, e) = split_slashes-cons s in
    elim (Bool-cases (nat_eq c b'/')) [
      | inl slash ↦ ([], split_slashes s, ground (arith, slash))
      | inr other ↦ (c ∷ p, ps, ground (arith, other, e))
    ]

split_slashes_cut :
    (s t : Text) → split_slashes (s ++ (b'/' ∷ t)) ≡ split_slashes s ++ split_slashes t
unfolding split_slashes
split_slashes_cut [] t = refl
split_slashes_cut (c ∷ s) t =
    let (p, ps, e) = split_slashes-cons s in
    ground (arith, e, split_slashes_cut s t, ap (λ (r : List Text). r ++ split_slashes t) e)

drop_empty-append : (ps qs : List Text) → drop_empty (ps ++ qs) ≡ drop_empty ps ++ drop_empty qs
drop_empty-append [] qs = refl
drop_empty-append ([] ∷ ps) qs = drop_empty-append ps qs
drop_empty-append ((c ∷ p) ∷ ps) qs = ap (λ r. (c ∷ p) ∷ r) (drop_empty-append ps qs)

pub parts_cut : (s t : Text) → parts (s ++ (b'/' ∷ t)) ≡ parts s ++ parts t
parts_cut s t =
    ap drop_empty (split_slashes_cut s t) ∙ drop_empty-append (split_slashes s) (split_slashes t)

pub parts-join_slashes :
    (p : Text) (ps : List Text) → All IsPlain (p ∷ ps) → parts (join_slashes (p ∷ ps)) ≡ p ∷ ps
parts-join_slashes p ps h =
    ap drop_empty (split_slashes-join_slashes p ps h) ∙ drop_empty-plain (p ∷ ps) h

pub parts-plain : (p : Text) → IsPlain p → parts p ≡ p ∷ []
parts-plain p h =
    ap drop_empty (split_slashes-plain p h.no_slash) ∙ drop_empty-plain (p ∷ []) (h, tt)

-- Cleaning drops the empty elements and keeps the plain ones.
clean_parts-kept :
    (rooted : Bool) (ps kept : List Text)
    → All IsPlain (drop_empty ps)
    → clean_parts rooted ps kept ≡ reverse kept ++ drop_empty ps
unfolding clean_parts text_eq
clean_parts-kept rooted [] kept h = sym (append-nil (reverse kept))
clean_parts-kept rooted ([] ∷ ps) kept h = clean_parts-kept rooted ps kept h
clean_parts-kept rooted ((c ∷ p) ∷ ps) kept h =
    rw (h.0.not_dot, h.0.not_up)
      (clean_parts-kept rooted ps ((c ∷ p) ∷ kept) h.1 ∙ rw (reverse-cons, append_assoc) refl)

clean-rooted : (t : Text) → All IsPlain (parts t) → clean (b'/' ∷ t) ≡ b'/' ∷ join_slashes (parts t)
unfolding clean split_slashes
clean-rooted t h =
    ap (λ r. b'/' ∷ join_slashes r) (clean_parts-kept true ([] ∷ split_slashes t) [] h)

-- A clean absolute path, other than "/".
abbrev pub IsRoot : Text → Type 0
IsRoot r = (q : Text) × (qs : List Text) × All IsPlain (q ∷ qs) × (r ≡ b'/' ∷ join_slashes (q ∷ qs))

-- What is joined to a clean absolute path goes below it.
pub join-rooted :
    (q : Text) (qs : List Text) (t : Text)
    → All IsPlain (q ∷ qs)
    → All IsPlain (parts t)
    → join ((b'/' ∷ join_slashes (q ∷ qs)) ∷ t ∷ []) ≡ b'/' ∷ join_slashes ((q ∷ qs) ++ parts t)
unfolding join
join-rooted q qs [] h ht =
    clean-rooted (join_slashes (q ∷ qs)) (subst (All IsPlain) (sym (parts-join_slashes q qs h)) h)
    ∙ ap (λ r. b'/' ∷ join_slashes r) (parts-join_slashes q qs h ∙ sym (append-nil (q ∷ qs)))
join-rooted q qs (c ∷ t) h ht =
    ap clean root_cut
    ∙ clean-rooted (join_slashes (q ∷ qs) ++ (b'/' ∷ c ∷ t))
        (subst (All IsPlain) (sym together) (All-append IsPlain (q ∷ qs) (parts (c ∷ t)) h ht))
    ∙ ap (λ r. b'/' ∷ join_slashes r) together
  where
    root_cut :
        join_slashes ((b'/' ∷ join_slashes (q ∷ qs)) ∷ (c ∷ t) ∷ [])
        ≡ b'/' ∷ (join_slashes (q ∷ qs) ++ (b'/' ∷ c ∷ t))
    root_cut = unfold join_slashes in refl

    together : parts (join_slashes (q ∷ qs) ++ (b'/' ∷ c ∷ t)) ≡ (q ∷ qs) ++ parts (c ∷ t)
    together =
        parts_cut (join_slashes (q ∷ qs)) (c ∷ t)
        ∙ ap (λ r. r ++ parts (c ∷ t)) (parts-join_slashes q qs h)

pub join_three :
    (r : Text) (a b : ℕ) (s t : Text)
    → IsRoot r
    → join (r ∷ (a ∷ s) ∷ (b ∷ t) ∷ []) ≡ join (r ∷ ((a ∷ s) ++ (b'/' ∷ b ∷ t)) ∷ [])
unfolding join join_slashes
join_three r a b s t (q, qs, h, e) = rw e refl

-- filepath.Split takes no element apart.
pub split-cases :
    (p : Text)
    → (((split p).0 ≡ []) × ((split p).1 ≡ p))
      ⊎ ((d : Text) × ((split p).0 ≡ d ++ (b'/' ∷ [])) × (p ≡ d ++ (b'/' ∷ (split p).1)))
unfolding split
split-cases [] = inl (refl, refl)
split-cases (c ∷ s) = elim (split-cases s) [
  | inl (no_dir, whole) ↦ elim (Bool-cases (nat_eq c b'/')) [
    | inl slash ↦ inr ([], ground (arith, no_dir, slash), ground (arith, no_dir, whole, slash))
    | inr other ↦ inl (ground (arith, no_dir, other), ground (arith, no_dir, whole, other))
  ]
  | inr ([], dir, e) ↦ inr (c ∷ [], ground (arith, dir), ground (arith, dir, e))
  | inr (x ∷ d, dir, e) ↦ inr (c ∷ x ∷ d, ground (arith, dir), ground (arith, dir, e))
]

pub split_joins : (p : Text) → (split p).0 ++ (split p).1 ≡ p
split_joins p = elim (split-cases p) [
  | inl (no_dir, whole) ↦ (λ i. no_dir i ++ whole i)
  | inr (d, dir, e) ↦
      ap (λ r. r ++ (split p).1) dir ∙ append_assoc d (b'/' ∷ []) (split p).1 ∙ sym e
]

pub parts-split : (p : Text) → parts (split p).0 ++ parts (split p).1 ≡ parts p
unfolding split_slashes
parts-split p = elim (split-cases p) [
  | inl (no_dir, whole) ↦ rw (no_dir, whole) refl
  | inr (d, dir, e) ↦
      ap (λ r. parts r ++ parts (split p).1) dir
      ∙ ap (λ r. r ++ parts (split p).1) (parts_cut d [] ∙ append-nil (parts d))
      ∙ sym (parts_cut d (split p).1)
      ∙ ap parts (sym e)
]

pub join_slashes-append :
    (p : Text) (ps : List Text) (q : Text) (qs : List Text)
    → join_slashes ((p ∷ ps) ++ (q ∷ qs)) ≡ join_slashes (p ∷ ps) ++ (b'/' ∷ join_slashes (q ∷ qs))
unfolding join_slashes
join_slashes-append p [] q qs = refl
join_slashes-append p (r ∷ ps) q qs =
    ap (λ t. p ++ (b'/' ∷ t)) (join_slashes-append r ps q qs)
    ∙ sym (append_assoc p (b'/' ∷ join_slashes (r ∷ ps)) (b'/' ∷ join_slashes (q ∷ qs)))
