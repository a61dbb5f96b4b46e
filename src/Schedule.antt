-- ===== src/Schedule.antt =====
-- internal/schedule/cutoff.go: the cutoff times of a shard. The calendar (moov-io/base), time.Parse
-- and the cron library are not part of the repository: `Now` has what the calendar says of a time.
pub mod Laws
mod Tests
use achgateway.Base.{
  ℕ, Text, txt, text_eq, Error, new_error, errorf_v, Result, ok, err, Bool, Option, none, some,
  List, [], ◌∷◌, ◌++◌, if◌then◌else◌,
}
use achgateway.Merging.Mapping.{sort}

-- A base.Time in the location of the cutoffs: `clock` is its format 15:04, `date` its format Jan 02.
pub record Now : Type 0 where
  pub clock : Text
  pub date : Text
  pub holiday : Option Text
  pub is_banking_day : Bool
  pub is_holiday : Bool
  pub is_weekend : Bool

pub record Day : Type 0 where
  pub time : Now
  pub holiday : Option Text
  pub is_banking_day : Bool
  pub is_holiday : Bool
  pub is_weekend : Bool
  pub first_window : Bool

-- Hours and minutes at which the cron scheduler calls maybeTick.
pub record CutoffTimes : Type 0 where
  pub first_cutoff : Text
  pub schedule : List (ℕ × ℕ)

abbrev pub day_of : CutoffTimes → Now → Day
day_of ct now = record {
  time = now;
  holiday = now.holiday;
  is_banking_day = now.is_banking_day;
  is_holiday = now.is_holiday;
  is_weekend = now.is_weekend;
  first_window = text_eq now.clock ct.first_cutoff;
}

-- What goes into the channel, if anything does.
unfoldable pub maybe_tick : CutoffTimes → Now → Option Day
maybe_tick ct now = if now.is_weekend then none else some (day_of ct now)

module _ (parse_clock : Text → Result (ℕ × ℕ)) where
  unfoldable pub register : Text → Result (ℕ × ℕ)
  register timestamp = elim (parse_clock timestamp) [
    | ok time ↦ ok time
    | err e ↦ err (errorf_v (txt "failed to parse '" ++ timestamp ++ txt "' error=") e)
  ]

  unfoldable pub register_all : List Text → Result (List (ℕ × ℕ))
  register_all [] = ok []
  register_all (t ∷ ts) =
      let rest = register_all ts in
      elim (register t) [
        | err e ↦ err (errorf_v (txt "timestamp=" ++ t ++ txt " error=") e)
        | ok time ↦ elim rest [ err e ↦ err e | ok times ↦ ok (time ∷ times) ]
      ]

  unfoldable pub register_cutoffs : List Text → Result (List (ℕ × ℕ))
  register_cutoffs [] = err (new_error (txt "missing cutoff times"))
  register_cutoffs (t ∷ ts) = register_all (t ∷ ts)

  abbrev first_or_empty : List Text → Text
  first_or_empty [] = []
  first_or_empty (t ∷ ts) = t

  unfoldable pub for_cutoff_times : List Text → Result CutoffTimes
  for_cutoff_times timestamps =
      let sorted = sort timestamps in
      elim (register_cutoffs sorted) [
        | err e ↦ err e
        | ok times ↦ ok (record { first_cutoff = first_or_empty sorted; schedule = times })
      ]
