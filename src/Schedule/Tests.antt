-- ===== src/Schedule/Tests.antt =====
-- The cutoff times of a shard with two cutoffs a day.
use achgateway.Base.{
  ℕ, Text, txt, text_eq, new_error, Result, ok, err, [], ◌∷◌, ◌≡◌, refl, if◌then◌else◌,
}
use achgateway.Merging.Mapping.{sort}
use achgateway.Schedule.{CutoffTimes, register, register_all, register_cutoffs, for_cutoff_times}

abbrev parse : Text → Result (ℕ × ℕ)
parse t =
    if text_eq t (txt "10:30")
    then ok (10, 30)
    else if text_eq t (txt "16:20")
    then ok (16, 20)
    else err (new_error (txt "bad time"))

abbrev pub times : CutoffTimes
times = record { first_cutoff = txt "10:30"; schedule = (10, 30) ∷ (16, 20) ∷ [] }

runs_for_cutoff_times : for_cutoff_times parse (txt "16:20" ∷ txt "10:30" ∷ []) ≡ ok times
unfolding for_cutoff_times register_cutoffs register_all register sort text_eq
runs_for_cutoff_times = refl
