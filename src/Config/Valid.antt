-- ===== src/Config/Valid.antt =====
-- The configurations that Validate lets pass.
use achgateway.Base.{
  ℕ, Text, ltb, leb, ◌<◌, ◌≤◌, suc, Bool-cases, inl, inr, true, Option, none, some, List, [], ◌∷◌,
  All, ◌≡◌, ◌≢◌, ◌↔◌, refl, arith,
}
use achgateway.Config.Checks.{
  passed, first_problem, pointer, Holds, Given, first_problem-cons, first_problem_last, wrap_iff,
  require, require_text, require_iff, require_text_iff, require_some_iff, optional_iff, each_iff,
}
use achgateway.Config.Sharding.{
  Clock, Email, Notifications, AuditTrail, Cutoffs, Shard, validate_email, validate_pager_duty,
  validate_slack, validate_notifications, validate_audit, validate_key_file, validate_cutoffs,
  validate_shard,
}
use achgateway.Config.Sources.{
  InMemory, KafkaConfig, OdfiFiles, Inbound, WebhookConfig, EventsStream, EventsConfig,
  validate_in_memory, validate_kafka, validate_odfi, validate_inbound, validate_stream,
  validate_webhook, validate_events,
}
use achgateway.Config.Upload.{
  CleanupConfig, UploadSettings, validate_retry, cleanup_checks, validate_cleanup, validate_upload,
}
use achgateway.Config.{
  Config, PagerDutyAlerting, validate_pager_duty_alerting, validate_errors, validate_sharding,
  validate,
}
use achgateway.Upload.Retry.{UploadRetry}

abbrev pub IsEmail : Email → Type 0
IsEmail e =
    (e.sender ≢ []) × ((e.recipients ≢ []) × ((e.connection_uri ≢ []) × (e.company_name ≢ [])))

abbrev pub IsNotifications : Notifications → Type 0
IsNotifications n =
    All IsEmail n.emails
    × (All (λ p. (p.id ≢ []) × (p.api_key ≢ [])) n.pager_duties
        × All (λ s. (s.id ≢ []) × (s.webhook_url ≢ [])) n.slacks)

-- A pointer that has to be there.
abbrev pub Present : {A : Type 0} → (A → Type 0) → Option A → Type 0
Present P none = ⊥
Present P (some a) = P a

abbrev pub IsCutoffs : Clock → Cutoffs → Type 0
IsCutoffs clock c = (clock.has_location c.timezone ≡ true) × (c.windows ≢ [])

-- A name, cutoff times in a known time zone, an upload agent and notifications; a key file and a
-- bucket where these are configured.
abbrev pub IsShard : Clock → Shard → Type 0
IsShard clock s =
    (s.name ≢ [])
    × (IsCutoffs clock s.cutoffs
        × (Given (λ file. file ≢ []) s.gpg_key_file
            × ((s.upload_agent ≢ [])
                × (Present IsNotifications s.notifications
                    × Given (λ (a : AuditTrail). a.bucket_uri ≢ []) s.audit))))

abbrev pub IsKafka : KafkaConfig → Type 0
IsKafka k = (k.brokers ≢ []) × (k.topic ≢ [])

abbrev pub IsOdfi : OdfiFiles → Type 0
IsOdfi o = (0 < o.interval) × (o.shard_names ≢ [])

abbrev pub IsInbound : Inbound → Type 0
IsInbound i =
    Given (λ (m : InMemory). m.url ≢ []) i.in_mem × (Given IsKafka i.kafka × Given IsOdfi i.odfi)

abbrev pub IsEvents : EventsConfig → Type 0
IsEvents e =
    Given (λ (s : EventsStream). Given IsKafka s.kafka) e.stream
    × Given (λ (w : WebhookConfig). w.endpoint ≢ []) e.webhook

abbrev pub IsRetry : UploadRetry → Type 0
IsRetry r = (0 < r.interval) × (0 < r.max_retries)

abbrev pub IsCleanup : CleanupConfig → Type 0
IsCleanup c = c.enabled ≡ true → (0 < c.check_interval) × (c.check_interval ≤ c.retention_duration)

abbrev pub IsConfig : Clock → Config → Type 0
IsConfig clock cfg =
    IsInbound cfg.inbound
    × (Given IsEvents cfg.events
        × (All (IsShard clock) cfg.shards
            × ((Given IsRetry cfg.upload.retry × Given IsCleanup cfg.upload.cleanup)
                × Given (λ (p : PagerDutyAlerting). (p.api_key ≢ []) × (p.routing_key ≢ []))
                    cfg.pager_duty_alerting)))

email_iff : (e : Email) → Holds (validate_email e) (IsEmail e)
unfolding validate_email
email_iff e = first_problem-cons _ _ (require_text_iff _ _) (
    first_problem-cons _ _ (require_some_iff _ _)
      (first_problem-cons _ _ (require_text_iff _ _) (first_problem_last _ (require_text_iff _ _))))

two_texts_iff :
    (a m b m' : Text)
    → Holds (first_problem (require_text a m ∷ require_text b m' ∷ [])) ((a ≢ []) × (b ≢ []))
two_texts_iff a m b m' =
    first_problem-cons _ _ (require_text_iff a m) (first_problem_last _ (require_text_iff b m'))

notifications_iff : (n : Notifications) → Holds (validate_notifications n) (IsNotifications n)
unfolding validate_notifications validate_pager_duty validate_slack
notifications_iff n = first_problem-cons _ _ (each_iff validate_email IsEmail n.emails email_iff) (
    first_problem-cons _ _
      (each_iff validate_pager_duty (λ p. (p.id ≢ []) × (p.api_key ≢ [])) n.pager_duties
        (λ p. two_texts_iff p.id _ p.api_key _))
      (first_problem_last _ (
        each_iff validate_slack (λ s. (s.id ≢ []) × (s.webhook_url ≢ [])) n.slacks
          (λ s. two_texts_iff s.id _ s.webhook_url _))))

pointer_iff :
    (o : Option Notifications)
    → Holds (pointer validate_notifications o) (Present IsNotifications o)
unfolding pointer
pointer_iff none = (λ e. absurd (cc e), λ p. absurd p)
pointer_iff (some a) = notifications_iff a

validate_kafka-IsKafka : (k : KafkaConfig) → Holds (validate_kafka k) (IsKafka k)
unfolding validate_kafka
validate_kafka-IsKafka k =
    first_problem-cons _ _ (require_some_iff _ _) (first_problem_last _ (require_text_iff _ _))

positive_iff : (n : ℕ) (m : Text) → Holds (require (ltb 0 n) m) (0 < n)
unfolding require
positive_iff n m = ground arith

at_most_iff : (n k : ℕ) (m : Text) → Holds (require (leb n k) m) (n ≤ k)
unfolding require
at_most_iff n k m = ground arith

inbound_iff : (i : Inbound) → Holds (validate_inbound i) (IsInbound i)
unfolding validate_inbound validate_in_memory validate_odfi
inbound_iff i =
    first_problem-cons _ _
      (wrap_iff _ _
        (optional_iff validate_in_memory (λ m. m.url ≢ []) i.in_mem (λ m. require_text_iff _ _)))
      (first_problem-cons _ _
        (wrap_iff _ _ (optional_iff validate_kafka IsKafka i.kafka validate_kafka-IsKafka))
        (first_problem_last _ (
          wrap_iff _ _ (
            optional_iff validate_odfi IsOdfi i.odfi (λ o.
              first_problem-cons _ _ (positive_iff _ _)
                (first_problem_last _ (require_some_iff _ _)))))))

validate_events-IsEvents : (e : EventsConfig) → Holds (validate_events e) (IsEvents e)
unfolding validate_events validate_stream validate_webhook
validate_events-IsEvents e =
    first_problem-cons _ _
      (optional_iff validate_stream (λ s. Given IsKafka s.kafka) e.stream
        (λ s. optional_iff validate_kafka IsKafka s.kafka validate_kafka-IsKafka))
      (first_problem_last _ (
        optional_iff validate_webhook (λ w. w.endpoint ≢ []) e.webhook (λ w. require_text_iff _ _)))

module _ (clock : Clock) where
  shard_iff : (s : Shard) → Holds (validate_shard clock s) (IsShard clock s)
  unfolding validate_shard validate_cutoffs validate_key_file validate_audit
  shard_iff s = first_problem-cons _ _ (require_text_iff _ _) (
      first_problem-cons _ _
        (wrap_iff _ _
          (first_problem-cons _ _ (require_iff _ _) (first_problem_last _ (require_some_iff _ _))))
        (first_problem-cons _ _
          (wrap_iff _ _ (
            optional_iff validate_key_file (λ file. file ≢ []) s.gpg_key_file
              (λ f. require_text_iff _ _)))
          (first_problem-cons _ _ (require_text_iff _ _) (
            first_problem-cons _ _ (wrap_iff _ _ (pointer_iff s.notifications)) (
              first_problem_last _ (
                wrap_iff _ _ (
                  optional_iff validate_audit (λ a. a.bucket_uri ≢ []) s.audit
                    (λ a. require_text_iff _ _))))))))

  sharding_iff :
      (n : ℕ) (shards : List Shard)
      → Holds (validate_sharding clock n shards) (All (IsShard clock) shards)
  unfolding validate_sharding
  sharding_iff n [] = (λ e. tt, λ p. refl)
  sharding_iff n (s ∷ shards) =
      first_problem-cons _ _ (wrap_iff _ _ (shard_iff s))
        (first_problem_last _ (sharding_iff (suc n) shards))

  cleanup_checks_iff :
      (c : CleanupConfig)
      → Holds (cleanup_checks clock c) (
          (0 < c.retention_duration)
          × ((0 < c.check_interval) × (c.check_interval ≤ c.retention_duration)))
  unfolding cleanup_checks
  cleanup_checks_iff c =
      first_problem-cons _ _ (positive_iff _ _)
        (first_problem-cons _ _ (positive_iff _ _) (first_problem_last _ (at_most_iff _ _ _)))

  validate_cleanup-IsCleanup : (c : CleanupConfig) → Holds (validate_cleanup clock c) (IsCleanup c)
  unfolding validate_cleanup
  validate_cleanup-IsCleanup c =
      let checks = cleanup_checks_iff c in
      elim (Bool-cases c.enabled) [
        | inl on ↦ (
          (λ h e. (checks.0 (ground (arith, on, h))).1),
          (λ v. ground (arith, on, checks.1 (omega (arith, (v on).0, (v on).1), v on))),
        )
        | inr off ↦ ((λ h e. absurd (ground (arith, off, e))), (λ v. ground (arith, off)))
      ]

  upload_iff :
      (u : UploadSettings)
      → Holds (validate_upload clock u) (Given IsRetry u.retry × Given IsCleanup u.cleanup)
  unfolding validate_upload validate_retry
  upload_iff u =
      first_problem-cons _ _
        (wrap_iff _ _ (
          optional_iff (validate_retry clock) IsRetry u.retry (λ r.
            first_problem-cons _ _ (positive_iff _ _) (first_problem_last _ (positive_iff _ _)))))
        (first_problem_last _ (
          wrap_iff _ _
            (optional_iff (validate_cleanup clock) IsCleanup u.cleanup validate_cleanup-IsCleanup)))

  -- A configuration passes Validate exactly if what is required of each of its parts holds: among
  -- others every shard has a name, windows in a known time zone, an upload agent and notifications,
  -- retries have a positive interval and number, and an enabled cleanup has a positive check
  -- interval of at most the retention. Where it does not pass, Validate gives an error or panics.
  pub validate_iff : (cfg : Config) → (validate clock cfg ≡ passed) ↔ IsConfig clock cfg
  unfolding validate validate_errors validate_pager_duty_alerting
  validate_iff cfg = first_problem-cons _ _ (wrap_iff _ _ (inbound_iff cfg.inbound)) (
      first_problem-cons _ _
        (wrap_iff _ _ (optional_iff validate_events IsEvents cfg.events validate_events-IsEvents))
        (first_problem-cons _ _ (wrap_iff _ _ (sharding_iff 0 cfg.shards)) (
          first_problem-cons _ _ (wrap_iff _ _ (upload_iff cfg.upload)) (
            first_problem_last _ (
              wrap_iff _ _ (
                wrap_iff _ _ (
                  optional_iff validate_pager_duty_alerting
                    (λ p. (p.api_key ≢ []) × (p.routing_key ≢ [])) cfg.pager_duty_alerting
                    (λ p. two_texts_iff p.api_key _ p.routing_key _))))))))
