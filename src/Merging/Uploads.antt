-- ===== src/Merging/Uploads.antt =====
-- internal/pipeline/merging.go: how the entries of merged files are claimed.
use achgateway.Base.{
  Text, none, some, List, [], ◌∷◌, All, ◌≡◌, subst, sym, ◌∙◌, arith, Option-cases, inl, inr,
  text_eq_refl,
}
use achgateway.Ach.{AchLib, TreeMap, IsTreeMap}
use achgateway.Merging.Mapping.{make_key, claim_entries}
use achgateway.Merging.Cutoff.{}

module _ (lib : AchLib) (T : TreeMap) (L : IsTreeMap T) where
  get-del_self : (k : Text) (tree : T.Map) → T.get (T.del k tree) k ≡ none
  get-del_self k tree = L.get-del k k tree ∙ rw (text_eq_refl k)

  get-del-absent : (j k : Text) (tree : T.Map) → T.get tree k ≡ none → T.get (T.del j tree) k ≡ none
  get-del-absent j k tree h = L.get-del j k tree ∙ ground (arith, h)

  get-del_sound :
      (j k name : Text) (tree : T.Map)
      → T.get (T.del j tree) k ≡ some name
      → T.get tree k ≡ some name
  get-del_sound j k name tree h = let deleted = L.get-del j k tree in ground (arith, h, deleted)

  claim_entries-missing :
      (header e : Text) (es : List Text) (tree : T.Map)
      → T.get tree (make_key header e) ≡ none
      → claim_entries lib T header (e ∷ es) tree ≡ claim_entries lib T header es tree
  unfolding claim_entries
  claim_entries-missing header e es tree n = rw (n, claim_entries)

  claim_entries-found :
      (header e : Text) (es : List Text) (tree : T.Map) {name : Text}
      → T.get tree (make_key header e) ≡ some name
      → let rest = claim_entries lib T header es (T.del (make_key header e) tree) in
        claim_entries lib T header (e ∷ es) tree ≡ (name ∷ rest.0, rest.1)
  unfolding claim_entries
  claim_entries-found header e es tree f = rw (f, claim_entries)

  -- A key that is not in the map does not come back.
  claim_entries-absent :
      (header : Text) (es : List Text) (tree : T.Map) (k : Text)
      → T.get tree k ≡ none
      → T.get (claim_entries lib T header es tree).1 k ≡ none
  unfolding claim_entries
  claim_entries-absent header [] tree k h = h
  claim_entries-absent header (e ∷ es) tree k h =
      elim (Option-cases (T.get tree (make_key header e))) [
        | inl n ↦
            rw (claim_entries-missing header e es tree n) (claim_entries-absent header es tree k h)
        | inr f ↦ rw (claim_entries-found header e es tree f.1) (
            claim_entries-absent header es (T.del (make_key header e) tree) k
              (get-del-absent (make_key header e) k tree h))
      ]

  -- With an ordered map that keeps its laws, once the entries of a batch are claimed for a merged
  -- file, none of their keys is left in the mapping for another one.
  pub claim_entries_once :
      (header : Text) (es : List Text) (tree : T.Map)
      → All (λ e. T.get (claim_entries lib T header es tree).1 (make_key header e) ≡ none) es
  unfolding claim_entries
  claim_entries_once header [] tree = tt
  claim_entries_once header (e ∷ es) tree =
      let key = make_key header e in
      elim (Option-cases (T.get tree key)) [
        | inl n ↦
            subst (λ r. All (λ d. T.get r.1 (make_key header d) ≡ none) (e ∷ es))
              (sym (claim_entries-missing header e es tree n))
              (claim_entries-absent header es tree key n, claim_entries_once header es tree)
        | inr f ↦
            subst (λ r. All (λ d. T.get r.1 (make_key header d) ≡ none) (e ∷ es))
              (sym (claim_entries-found header e es tree f.1))
              (
                claim_entries-absent header es (T.del key tree) key (get-del_self key tree),
                claim_entries_once header es (T.del key tree),
              )
      ]

  All-map :
      {P Q : Text → Type 0} (step : (x : Text) → P x → Q x) (xs : List Text) → All P xs → All Q xs
  All-map step [] h = tt
  All-map step (x ∷ xs) h = (step x h.0, All-map step xs h.1)

  -- With an ordered map that keeps its laws, a name that is claimed for a batch is one that the
  -- mapping had for some key.
  pub claim_entries_sound :
      (header : Text) (es : List Text) (tree : T.Map)
      → All (λ name. (k : Text) × (T.get tree k ≡ some name)) (claim_entries lib T header es tree).0
  unfolding claim_entries
  claim_entries_sound header [] tree = tt
  claim_entries_sound header (e ∷ es) tree =
      let key = make_key header e in
      elim (Option-cases (T.get tree key)) [
        | inl n ↦ rw (claim_entries-missing header e es tree n) (claim_entries_sound header es tree)
        | inr f ↦ rw (claim_entries-found header e es tree f.1) (
          (key, f.1),
          All-map (λ name old. (old.0, get-del_sound key old.0 name tree old.1))
              (claim_entries lib T header es (T.del key tree)).0
              (claim_entries_sound header es (T.del key tree)),
        )
      ]
