-- ===== src/Config.antt =====
-- internal/service: the configuration and its Validate methods (model_config.go). Records have the
-- settings that Validate looks at. Durations below zero, which are refused like zero, are left out.
pub mod Checks
pub mod Sharding
pub mod Sources
pub mod Upload
pub mod Valid
mod Tests
use achgateway.Base.{ℕ, Text, txt, text_eq, Option, List, [], ◌∷◌, suc, ◌++◌}
use achgateway.Config.Checks.{Checked, passed, first_problem, wrap, optional, require_text}
use achgateway.Config.Sharding.{Clock, Shard, validate_shard}
use achgateway.Config.Sources.{Inbound, EventsConfig, validate_inbound, validate_events}
use achgateway.Config.Upload.{UploadSettings, validate_upload}

pub record PagerDutyAlerting : Type 0 where
  pub api_key : Text
  pub routing_key : Text

pub record Config : Type 0 where
  pub inbound : Inbound
  pub events : Option EventsConfig
  pub shards : List Shard
  pub upload : UploadSettings
  pub pager_duty_alerting : Option PagerDutyAlerting

unfoldable pub validate_pager_duty_alerting : PagerDutyAlerting → Checked
unfolding require_text
validate_pager_duty_alerting cfg = first_problem (
    require_text cfg.api_key (txt "pagerduty error alerting: apiKey is missing")
    ∷ require_text cfg.routing_key (txt "pagerduty error alerting: routingKey is missing")
    ∷ [])

-- ErrorAlerting, whose Slack settings are not validated.
unfoldable pub validate_errors : Option PagerDutyAlerting → Checked
unfolding validate_pager_duty_alerting
validate_errors pager_duty =
    wrap (txt "pager duty config: ") (optional validate_pager_duty_alerting pager_duty)

module _ (clock : Clock) where
  -- Sharding.Validate, from the shard with the index n on.
  unfoldable pub validate_sharding : ℕ → List Shard → Checked
  unfolding validate_shard
  validate_sharding n [] = passed
  validate_sharding n (shard ∷ shards) = first_problem (
      wrap (txt "shard[" ++ clock.show_index n ++ txt "]: ") (validate_shard clock shard)
      ∷ validate_sharding (suc n) shards
      ∷ [])

  unfoldable pub validate : Config → Checked
  unfolding validate_sharding validate_inbound validate_events validate_upload validate_errors
  validate cfg = first_problem (
      wrap (txt "inbound: ") (validate_inbound cfg.inbound)
      ∷ wrap (txt "events: ") (optional validate_events cfg.events)
      ∷ wrap (txt "sharding: ") (validate_sharding 0 cfg.shards)
      ∷ wrap (txt "upload: ") (validate_upload clock cfg.upload)
      ∷ wrap (txt "errors: ") (validate_errors cfg.pager_duty_alerting)
      ∷ [])
