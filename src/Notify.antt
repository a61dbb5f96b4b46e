-- ===== src/Notify.antt =====
-- internal/notify/multi.go: a notification goes to every sender, with retries where they are
-- configured. The state is that of the services that are notified.
pub mod Laws
mod Tests
use achgateway.Base.{
  ℕ, Text, txt, text_contains, Error, new_error, errorf_v, is, timeout, Bool, ◌||◌, Option, none,
  some, List, [], ◌∷◌, ◌++◌, Result, ok, err, if◌then◌else◌,
}
use achgateway.Retry.{Attempt, succeeded, retryable, RetryLib}

-- The interface Sender (internal/notify/notify.go); a message is its text.
pub record Sender (S : Type 0) : Type 0 where
  pub info : Text → S → Option Error × S
  pub critical : Text → S → Option Error × S

-- service.NotificationRetries
pub record NotificationRetries : Type 0 where
  pub interval : ℕ
  pub max_retries : ℕ

pub record MultiSender (S : Type 0) : Type 0 where
  pub senders : List (Sender S)
  pub retry_config : Option NotificationRetries

unfoldable pub should_retry : Error → Bool
unfolding text_contains is
should_retry e = is e timeout || text_contains e.message (txt "no such host")

-- Any other error is dropped.
unfoldable pub is_retryable_error : Option Error → Attempt
is_retryable_error none = succeeded
is_retryable_error (some e) = if should_retry e then retryable e else succeeded

abbrev first_error : Option Error → Option Error → Option Error
first_error (some e) later = some e
first_error none later = later

-- `show_duration` is how %v prints a time.Duration.
module _ (lib : RetryLib) (show_duration : ℕ → Text) where
  unfoldable pub setup_backoff : NotificationRetries → Result lib.Backoff
  setup_backoff cfg = elim (lib.new_fibonacci cfg.interval) [
    | none ↦
        err
          (new_error (txt "problem creating " ++ show_duration cfg.interval ++ txt " as fibonacci"))
    | some fib ↦ ok (lib.with_max_retries cfg.max_retries fib)
  ]

  module _ {S : Type 0} where
    -- The closure that is retried.
    unfoldable pub attempt : (S → Option Error × S) → S → Attempt × S
    attempt f s = let (failed, t) = f s in (is_retryable_error failed, t)

    unfoldable pub retry :
        Option NotificationRetries → (S → Option Error × S) → S → Option Error × S
    retry none f s = f s
    retry (some cfg) f s = elim (setup_backoff cfg) [
      | err e ↦ (some (errorf_v (txt "retry: ") e), s)
      | ok backoff ↦ lib.run S backoff (attempt f) s
    ]

    -- Every sender is tried; the first error comes back.
    unfoldable pub send_each :
        Option NotificationRetries → List (S → Option Error × S) → S → Option Error × S
    send_each cfg [] s = (none, s)
    send_each cfg (f ∷ fs) s =
        let (failed, t) = retry cfg f s in
        let (later, u) = send_each cfg fs t in (first_error failed later, u)

    abbrev pub infos : Text → List (Sender S) → List (S → Option Error × S)
    infos msg [] = []
    infos msg (x ∷ xs) = x.info msg ∷ infos msg xs

    abbrev pub criticals : Text → List (Sender S) → List (S → Option Error × S)
    criticals msg [] = []
    criticals msg (x ∷ xs) = x.critical msg ∷ criticals msg xs

    unfoldable pub info : MultiSender S → Text → S → Option Error × S
    info ms msg s = send_each ms.retry_config (infos msg ms.senders) s

    unfoldable pub critical : MultiSender S → Text → S → Option Error × S
    critical ms msg s = send_each ms.retry_config (criticals msg ms.senders) s
