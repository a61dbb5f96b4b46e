-- ===== src/Config/Sources.antt =====
-- internal/service/model_inbound.go and model_events.go: where messages come from and events go.
use achgateway.Base.{ℕ, Text, txt, ltb, Option, List, [], ◌∷◌}
use achgateway.Config.Checks.{
  Checked, first_problem, wrap, optional, require, require_text, require_some,
}

pub record InMemory : Type 0 where
  pub url : Text

pub record KafkaConfig : Type 0 where
  pub brokers : List Text
  pub topic : Text

pub record OdfiFiles : Type 0 where
  pub interval : ℕ
  pub shard_names : List Text

pub record Inbound : Type 0 where
  pub in_mem : Option InMemory
  pub kafka : Option KafkaConfig
  pub odfi : Option OdfiFiles

pub record WebhookConfig : Type 0 where
  pub endpoint : Text

-- The stream's Kafka settings; those of its in-memory stream are not validated.
pub record EventsStream : Type 0 where
  pub kafka : Option KafkaConfig

pub record EventsConfig : Type 0 where
  pub stream : Option EventsStream
  pub webhook : Option WebhookConfig

unfoldable pub validate_in_memory : InMemory → Checked
unfolding require_text
validate_in_memory cfg = require_text cfg.url (txt "missing URL")

unfoldable pub validate_kafka : KafkaConfig → Checked
unfolding require_text require_some
validate_kafka cfg = first_problem (
    require_some cfg.brokers (txt "missing brokers")
    ∷ require_text cfg.topic (txt "missing topic")
    ∷ [])

-- The Validate of the processors' settings always passes.
unfoldable pub validate_odfi : OdfiFiles → Checked
unfolding require require_some
validate_odfi cfg = first_problem (
    require (ltb 0 cfg.interval) (txt "invalid interval")
    ∷ require_some cfg.shard_names (txt "missing shard names")
    ∷ [])

unfoldable pub validate_inbound : Inbound → Checked
unfolding validate_in_memory validate_kafka validate_odfi
validate_inbound cfg = first_problem (
    wrap (txt "inmem: ") (optional validate_in_memory cfg.in_mem)
    ∷ wrap (txt "kafka: ") (optional validate_kafka cfg.kafka)
    ∷ wrap (txt "odfi: ") (optional validate_odfi cfg.odfi)
    ∷ [])

unfoldable pub validate_stream : EventsStream → Checked
unfolding validate_kafka
validate_stream cfg = optional validate_kafka cfg.kafka

unfoldable pub validate_webhook : WebhookConfig → Checked
unfolding require_text
validate_webhook cfg = require_text cfg.endpoint (txt "missing endpoint")

unfoldable pub validate_events : EventsConfig → Checked
unfolding validate_stream validate_webhook
validate_events cfg =
    first_problem (optional validate_stream cfg.stream ∷ optional validate_webhook cfg.webhook ∷ [])
