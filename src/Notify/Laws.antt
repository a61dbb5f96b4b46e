-- ===== src/Notify/Laws.antt =====
-- What the sender to all notifiers reports, and how often it tries.
use achgateway.Base.{
  ℕ, ◌<◌, ◌≡◌, ◌≢◌, ◌⊎◌, refl, ap, Text, Error, false, Option, none, some, List, [], ◌∷◌, All,
  arith, inl, inr,
}
use achgateway.Retry.{RetryLib, IsRetryLib, Tries}
use achgateway.Retry.Runs.{succeeded-run}
use achgateway.Notify.{
  NotificationRetries, MultiSender, should_retry, is_retryable_error, setup_backoff, attempt, retry,
  send_each, criticals, critical,
}

module _ (lib : RetryLib) (L : IsRetryLib lib) (show_duration : ℕ → Text) {S : Type 0} where
  Tries-retry :
      (cfg : NotificationRetries)
      → 0 < cfg.interval
      → (f : S → Option Error × S) (s : S)
      → Tries
          (attempt lib show_duration f)
          cfg.max_retries
          s
          (retry lib show_duration (some cfg) f s)
  unfolding retry setup_backoff
  Tries-retry cfg positive f s =
      let (b, e) = L.fibonacci cfg.interval positive in
      rw (e, retry, setup_backoff) (L.tries S cfg.max_retries b _ s)

  -- A notifier that fails for good: each call gives an error that is not retried.
  abbrev pub IsRefused : (S → Option Error × S) → Type 0
  IsRefused f = (s : S) → (e : Error) × ((f s).0 ≡ some e) × (should_retry e ≡ false)

  retry-refused :
      (cfg : NotificationRetries)
      → 0 < cfg.interval
      → (f : S → Option Error × S) → IsRefused f
      → (s : S) → (retry lib show_duration (some cfg) f s).0 ≡ none
  unfolding attempt is_retryable_error
  retry-refused cfg positive f refused s =
      let (e, failed, permanent) = refused s in
      ap (λ r. r.0) (succeeded-run _ (f s).1 (Tries-retry cfg positive f s) (ground arith))

  send_each-refused :
      (cfg : NotificationRetries)
      → 0 < cfg.interval
      → (fs : List (S → Option Error × S)) → All IsRefused fs
      → (s : S) → (send_each lib show_duration (some cfg) fs s).0 ≡ none
  unfolding send_each
  send_each-refused cfg positive [] refused s = refl
  send_each-refused cfg positive (f ∷ fs) refused s =
      let rest =
        send_each-refused cfg positive fs refused.1 (retry lib show_duration (some cfg) f s).1 in
      ground (arith, retry-refused cfg positive f refused.0 s, rest)

  -- With the documented behaviour of the retry library, and retries configured with a positive
  -- interval, a critical notification that no notifier takes, each with an error that is not
  -- retried, is reported as sent.
  pub critical-swallows :
      (ms : MultiSender S) (msg : Text) {cfg : NotificationRetries}
      → ms.retry_config ≡ some cfg
      → 0 < cfg.interval
      → All IsRefused (criticals lib show_duration msg ms.senders)
      → (s : S) → (critical lib show_duration ms msg s).0 ≡ none
  unfolding critical
  critical-swallows ms msg {cfg} configured positive refused s =
      rw configured
        (send_each-refused cfg positive (criticals lib show_duration msg ms.senders) refused s)

  -- One of the notifiers fails in every state.
  abbrev pub SomeFails : List (S → Option Error × S) → Type 0
  SomeFails [] = ⊥
  SomeFails (f ∷ fs) = ((s : S) → (f s).0 ≢ none) ⊎ SomeFails fs

  send_each-fails :
      (fs : List (S → Option Error × S))
      → SomeFails fs
      → (s : S) → (send_each lib show_duration none fs s).0 ≢ none
  unfolding send_each retry
  send_each-fails [] none_fails s h = none_fails
  send_each-fails (f ∷ fs) (inl fails) s h = fails s (ground (arith, h))
  send_each-fails (f ∷ fs) (inr later) s h = send_each-fails fs later (f s).1 (ground (arith, h))

  -- Without retries, a critical notification with a notifier that fails in every state is reported
  -- as an error.
  pub critical-reports :
      (ms : MultiSender S) (msg : Text)
      → ms.retry_config ≡ none
      → SomeFails (criticals lib show_duration msg ms.senders)
      → (s : S) → (critical lib show_duration ms msg s).0 ≢ none
  unfolding critical
  critical-reports ms msg plain fails s h =
      send_each-fails (criticals lib show_duration msg ms.senders) fails s
        (ground (arith, h, plain))
