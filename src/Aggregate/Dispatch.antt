-- ===== src/Aggregate/Dispatch.antt =====
-- internal/pipeline/aggregate.go, Start: what the aggregator does with a day from its cutoffs.
use achgateway.Base.{
  Text, txt, text_eq, Error, errorf_v, Bool, not, ◌&&◌, ◌||◌, Option, none, some, List, [], ◌∷◌,
  ◌++◌, trim_space, if◌then◌else◌,
}
use achgateway.Ach.{AchLib}
use achgateway.Aggregate.{Aggregator, with_each_file, alert_on_error}
use achgateway.Schedule.{CutoffTimes, Day, Now, maybe_tick}

-- What Start and notifyAboutHoliday read besides the aggregator: whether the shard's upload agent is
-- in the configuration, and the Slack senders of its notifications (no sender where it has no
-- notifications), `none` for one that cannot be made.
pub record Setup (S : Type 0) : Type 0 where
  pub cutoffs_on : Text
  pub has_upload_agent : Bool
  pub slacks : List (Option (Text → S → Option Error × S))
  pub hostname : Text

abbrev holiday_name : Option Text → Text
holiday_name none = txt "is a holiday"
holiday_name (some name) = txt "(" ++ name ++ txt ") is a holiday"

unfoldable pub format_holiday_message : Text → Day → Text → Text
unfolding text_eq
format_holiday_message hostname day shard =
    let shard_part : Text = if text_eq shard [] then [] else txt "for " ++ shard in
    trim_space (
      day.time.date
      ++ txt " "
      ++ holiday_name day.holiday
      ++ txt " so "
      ++ hostname
      ++ txt " will skip processing "
      ++ shard_part)

-- A sender that cannot be made or fails does not keep the others from the message.
unfoldable pub send_slacks :
    {S : Type 0} → Text → List (Option (Text → S → Option Error × S)) → S → S
send_slacks msg [] s = s
send_slacks msg (none ∷ slacks) s = send_slacks msg slacks s
send_slacks msg (some send ∷ slacks) s = send_slacks msg slacks (send msg s).1

module _ {lib : AchLib} {S : Type 0} (xfagg : Aggregator lib S) (setup : Setup S) where
  -- `none` is a panic: the span has the name of the holiday, which may be nil.
  unfoldable pub notify_about_holiday : Day → S → Option S
  notify_about_holiday day s =
      if not day.first_window
      then some s
      else if not setup.has_upload_agent
      then some s
      else elim day.holiday [
        | none ↦ none
        | some _ ↦
            some
              (send_slacks (format_holiday_message setup.hostname day xfagg.shard) setup.slacks s)
      ]

  abbrev pub runs_on : Day → Bool
  runs_on day = day.is_banking_day || text_eq setup.cutoffs_on (txt "all-days")

  abbrev pub run_cutoff : S → S
  run_cutoff s =
      let (failed, t) = with_each_file xfagg s in
      elim failed [
        | none ↦ t
        | some e ↦ alert_on_error xfagg (some (errorf_v (txt "merging files: ") e)) t
      ]

  unfoldable pub on_cutoff : Day → S → Option S
  on_cutoff day s =
      if runs_on day
      then some (run_cutoff s)
      else if day.is_holiday && not day.is_weekend
      then notify_about_holiday day s
      else some s

  -- The scheduler's call and what the aggregator does with the day that comes of it.
  unfoldable pub tick : CutoffTimes → Now → S → Option S
  tick ct now s = elim (maybe_tick ct now) [ none ↦ some s | some day ↦ on_cutoff day s ]
