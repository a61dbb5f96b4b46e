-- ===== src/Schedule/Laws.antt =====
-- When the cutoff times of a shard can be set up.
use achgateway.Base.{
  ℕ, Text, Result, ok, Result-cases, length, List, [], ◌∷◌, ◌≡◌, ◌<◌, ◌∙◌, suc, refl, ap, inl, inr,
  arith,
}
use achgateway.Merging.Mapping.{sort, insert_sorted}
use achgateway.Schedule.{CutoffTimes, register_all, register_cutoffs, for_cutoff_times}

length-insert_sorted : (x : Text) (xs : List Text) → length (insert_sorted x xs) ≡ suc (length xs)
unfolding insert_sorted
length-insert_sorted x [] = refl
length-insert_sorted x (y ∷ ys) = ground (arith, length-insert_sorted x ys)

pub length-sort : (xs : List Text) → length (sort xs) ≡ length xs
unfolding sort
length-sort [] = refl
length-sort (x ∷ xs) = length-insert_sorted x (sort xs) ∙ ap suc (length-sort xs)

module _ (parse_clock : Text → Result (ℕ × ℕ)) where
  length-register_all :
      (ts : List Text) {times : List (ℕ × ℕ)}
      → register_all parse_clock ts ≡ ok times
      → length times ≡ length ts
  unfolding register_all
  length-register_all [] h = ground (arith, h)
  length-register_all (t ∷ ts) h = elim (Result-cases (register_all parse_clock ts)) [
    | inl (rest, found) ↦ ground (arith, h, found, length-register_all ts found)
    | inr (e, failed) ↦ absurd (ground (arith, h, failed))
  ]

  length-register_cutoffs :
      (ts : List Text) {times : List (ℕ × ℕ)}
      → register_cutoffs parse_clock ts ≡ ok times
      → (length times ≡ length ts) × (0 < length ts)
  unfolding register_cutoffs
  length-register_cutoffs [] h = absurd (ground (arith, h))
  length-register_cutoffs (t ∷ ts) h = (length-register_all (t ∷ ts) h, omega arith)

  -- Cutoff times that are set up with no error register every timestamp, and there is at least one.
  pub for_cutoff_times_lem :
      (timestamps : List Text) {ct : CutoffTimes}
      → for_cutoff_times parse_clock timestamps ≡ ok ct
      → (length ct.schedule ≡ length timestamps) × (0 < length timestamps)
  unfolding for_cutoff_times
  for_cutoff_times_lem timestamps {ct} h =
      elim (Result-cases (register_cutoffs parse_clock (sort timestamps))) [
        | inr (e, failed) ↦ absurd (ground (arith, h, failed))
        | inl (times, found) ↦
            let counts = length-register_cutoffs (sort timestamps) found in
            let same : length ct.schedule ≡ length times = ground (arith, h, found) in
            (
              omega (arith, same, counts.0, length-sort timestamps),
              omega (arith, counts.1, length-sort timestamps),
            )
      ]
