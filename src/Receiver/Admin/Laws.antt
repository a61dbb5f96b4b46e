-- ===== src/Receiver/Admin/Laws.antt =====
-- The answer to a request for cutoffs.
use achgateway.Base.{
  Text, txt, text_eq, text_eq_iff, text_eq_refl, any, Bool, true, ◌||◌, Option, none, some,
  Option-cases, inl, inr, List, [], ◌∷◌, ◌++◌, All, ◌≡◌, ◌≢◌, refl, sym, ap, ◌∙◌, arith,
  if◌then◌else◌,
}
use achgateway.Receiver.{Config, find_aggregator}
use achgateway.Receiver.Admin.{
  Answers, put_answer, has_errors, AdminPorts, trigger_one, trigger_each, trigger_manual_cutoff,
}

-- Whether a shard has an answer.
unfoldable pub is_answered : Text → Answers → Bool
unfolding text_eq
is_answered k m = any (λ a. text_eq a.0 k) m

is_answered-put_answer :
    (j k : Text) (v : Option Text) (m : Answers)
    → is_answered j (put_answer k v m) ≡ (text_eq k j || is_answered j m)
unfolding is_answered put_answer
is_answered-put_answer j k v [] = refl
is_answered-put_answer j k v ((i, w) ∷ m) =
    ground
      (arith, is_answered-put_answer j k v m, text_eq_iff i k, text_eq_iff i j, text_eq_iff k j)

module _ {S : Type 0} (ports : AdminPorts S) (cfg : Config) where
  -- A shard is answered under the name of its aggregator, or its own name where it has none.
  abbrev pub answer_name : Text → Text
  answer_name name = elim (find_aggregator name cfg.aggregators) [
    | none ↦ name
    | some agg ↦ elim agg [ none ↦ name | some n ↦ n ]
  ]

  trigger_one-answers :
      (name : Text) (answers : Answers) (s : S)
      → find_aggregator name cfg.aggregators ≢ some none
      → (m : Answers) × (t : S) × (trigger_one ports cfg name answers s ≡ some (m, t))
        × ((j : Text) → is_answered j m ≡ (text_eq (answer_name name) j || is_answered j answers))
  unfolding trigger_one
  trigger_one-answers name answers s set =
      elim (Option-cases (find_aggregator name cfg.aggregators)) [
        | inl e ↦ (
          put_answer name (some (txt "unknown shard " ++ name)) answers,
          s,
          ground (arith, e),
          (λ j. named j name (some (txt "unknown shard " ++ name)) (ground (arith, e))),
        )
        | inr (none, e) ↦ absurd (set e)
        | inr (some agg, e) ↦
            let t : S = (ports.manual_cutoff agg s).1 in
            elim (Option-cases (ports.manual_cutoff agg s).0) [
              | inl f ↦ (
                put_answer agg none answers,
                t,
                ground (arith, e, f),
                (λ j. named j agg none (ground (arith, e))),
              )
              | inr (x, f) ↦ (
                put_answer agg (some x.message) answers,
                ports.alert agg x t,
                ground (arith, e, f),
                (λ j. named j agg (some x.message) (ground (arith, e))),
              )
            ]
      ]
    where
      named :
          (j n : Text) (v : Option Text)
          → answer_name name ≡ n
          → is_answered j (put_answer n v answers)
            ≡ (text_eq (answer_name name) j || is_answered j answers)
      named j n v e =
          is_answered-put_answer j n v answers
          ∙ ap (λ k. text_eq k j || is_answered j answers) (sym e)

  trigger_each-answers :
      (names : List Text) (answers : Answers) (s : S)
      → All (λ n. find_aggregator n cfg.aggregators ≢ some none) names
      → (m : Answers) × (t : S) × (trigger_each ports cfg names answers s ≡ some (m, t))
        × ((j : Text) → is_answered j answers ≡ true → is_answered j m ≡ true)
        × All (λ n. is_answered (answer_name n) m ≡ true) names
  unfolding trigger_each
  trigger_each-answers [] answers s set = (answers, s, refl, (λ j h. h), tt)
  trigger_each-answers (name ∷ names) answers s set =
      let (m, t, e, here) = trigger_one-answers name answers s set.0 in
      let (m', t', e', kept, later) = trigger_each-answers names m t set.1 in
      (
        m',
        t',
        ground (arith, e, e'),
        (λ j h. kept j (ground (arith, here j, h))),
        (
          kept (answer_name name)
              (ground (arith, here (answer_name name), text_eq_refl (answer_name name))),
          later,
        ),
      )

  -- Where no aggregator of the named shards is nil, a PUT request for cutoffs of at least one shard
  -- is answered, with an entry for every named shard, under the name of its aggregator or its own
  -- name where it has none, and with the status 400 if some entry is an error and 200 otherwise.
  pub trigger_answers :
      (name : Text) (names : List Text) (s : S)
      → All (λ n. find_aggregator n cfg.aggregators ≢ some none) (name ∷ names)
      → (answers : Answers) × (t : S) × (trigger_manual_cutoff ports cfg true (name ∷ names) s
          ≡ some
              (record { status = if has_errors answers then 400 else 200; body = some answers }, t))
        × All (λ n. is_answered (answer_name n) answers ≡ true) (name ∷ names)
  unfolding trigger_manual_cutoff
  trigger_answers name names s set =
      let (m, t, e, kept, all) = trigger_each-answers (name ∷ names) [] s set in
      (m, t, ground (arith, e), all)
