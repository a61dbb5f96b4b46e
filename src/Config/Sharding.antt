-- ===== src/Config/Sharding.antt =====
-- internal/service/model_sharding.go, model_notifications.go and model_audit.go: one shard.
use achgateway.Base.{
  ℕ, Text, txt, text_eq, to_lower, Bool, Option, none, some, List, [], ◌∷◌, ◌++◌, if◌then◌else◌,
}
use achgateway.Config.Checks.{
  Checked, first_problem, wrap, optional, pointer, each, require, require_text, require_some,
}

-- Time zones that time.LoadLocation finds, and how %d, %q and %v print.
pub record Clock : Type 0 where
  pub has_location : Text → Bool
  pub quote : Text → Text
  pub show_index : ℕ → Text
  pub show_duration : ℕ → Text

pub record Email : Type 0 where
  pub id : Text
  pub sender : Text
  pub recipients : List Text
  pub connection_uri : Text
  pub company_name : Text

pub record PagerDuty : Type 0 where
  pub id : Text
  pub api_key : Text

pub record Slack : Type 0 where
  pub id : Text
  pub webhook_url : Text

-- The settings of the retries are not validated.
pub record Notifications : Type 0 where
  pub emails : List Email
  pub pager_duties : List PagerDuty
  pub slacks : List Slack

pub record AuditTrail : Type 0 where
  pub bucket_uri : Text

pub record Cutoffs : Type 0 where
  pub timezone : Text
  pub windows : List Text

-- `gpg_key_file` is the key file of PreUpload.GPG, where both are there.
pub record Shard : Type 0 where
  pub name : Text
  pub cutoffs : Cutoffs
  pub gpg_key_file : Option Text
  pub upload_agent : Text
  pub outbound_filename_template : Text
  pub notifications : Option Notifications
  pub audit : Option AuditTrail

-- strings.EqualFold on ASCII
abbrev pub equal_fold : Text → Text → Bool
equal_fold a b = text_eq (to_lower a) (to_lower b)

-- Sharding.Find
unfoldable pub find_shard : Text → List Shard → Option Shard
unfolding text_eq
find_shard name [] = none
find_shard name (s ∷ shards) =
    let rest = find_shard name shards in if equal_fold s.name name then some s else rest

unfoldable pub validate_email : Email → Checked
unfolding require_text require_some
validate_email e = first_problem (
    require_text e.sender (txt "email: missing configs")
    ∷ require_some e.recipients (txt "email: missing configs")
    ∷ require_text e.connection_uri (txt "email: missing configs")
    ∷ require_text e.company_name (txt "email: missing configs")
    ∷ [])

unfoldable pub validate_pager_duty : PagerDuty → Checked
unfolding require_text
validate_pager_duty cfg = first_problem (
    require_text cfg.id (txt "pagerduty: missing id")
    ∷ require_text cfg.api_key (txt "pagerduty: missing apiKey")
    ∷ [])

unfoldable pub validate_slack : Slack → Checked
unfolding require_text
validate_slack cfg = first_problem (
    require_text cfg.id (txt "slack: missing id")
    ∷ require_text cfg.webhook_url (txt "slack: missing webhook url")
    ∷ [])

unfoldable pub validate_notifications : Notifications → Checked
unfolding validate_email validate_pager_duty validate_slack
validate_notifications cfg = first_problem (
    each validate_email cfg.emails
    ∷ each validate_pager_duty cfg.pager_duties
    ∷ each validate_slack cfg.slacks
    ∷ [])

unfoldable pub validate_audit : AuditTrail → Checked
unfolding require_text
validate_audit cfg = require_text cfg.bucket_uri (txt "missing bucket_uri")

unfoldable pub validate_key_file : Text → Checked
unfolding require_text
validate_key_file file = require_text file (txt "gpg: missing key file")

module _ (clock : Clock) where
  unfoldable pub validate_cutoffs : Cutoffs → Checked
  unfolding require require_some
  validate_cutoffs cfg = first_problem (
      require (clock.has_location cfg.timezone)
        (txt "unknown Timezone=" ++ clock.quote cfg.timezone)
      ∷ require_some cfg.windows (txt "no windows")
      ∷ [])

  -- The Validate of Notifications has a value receiver, so a nil pointer is read.
  unfoldable pub validate_shard : Shard → Checked
  unfolding require_text validate_cutoffs validate_key_file validate_notifications validate_audit
  validate_shard cfg = first_problem (
      require_text cfg.name (txt "missing name")
      ∷ wrap (txt "cutoffs: ") (validate_cutoffs cfg.cutoffs)
      ∷ wrap (txt "preupload: ") (optional validate_key_file cfg.gpg_key_file)
      ∷ require_text cfg.upload_agent (txt "missing upload agent")
      ∷ wrap (txt "notifications: ") (pointer validate_notifications cfg.notifications)
      ∷ wrap (txt "audit: ") (optional validate_audit cfg.audit)
      ∷ [])
