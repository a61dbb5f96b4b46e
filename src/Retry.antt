-- ===== src/Retry.antt =====
-- The retry library that internal/upload/retry.go and internal/notify/multi.go call
-- (github.com/sethvargo/go-retry). It is not part of the repository, so it is a parameter.
use achgateway.Base.{ℕ, zero, suc, Option, none, some, Error, ◌≡◌, ◌<◌}
pub mod Runs
pub mod Loop

-- What a retried function returns: nil, an error wrapped by retry.RetryableError, another error.
pub data Attempt : Type 0 where
  succeeded : Attempt
  retryable fatal : Error → Attempt

-- retry.NewFibonacci, retry.WithMaxRetries and retry.Do; the retried function acts on a state.
pub record RetryLib : Type 1 where
  pub Backoff : Type 0
  pub new_fibonacci : ℕ → Option Backoff
  pub with_max_retries : ℕ → Backoff → Backoff
  pub run : (S : Type 0) → Backoff → (S → Attempt × S) → S → Option Error × S

-- The calls that a retry loop makes, with the number of retries that are left.
pub data Tries {S : Type 0} (f : S → Attempt × S) : ℕ → S → Option Error × S → Type 0 where
  done : {n : ℕ} (s t : S) → f s ≡ (succeeded, t) → Tries f n s (none, t)
  failed : {n : ℕ} (s t : S) (e : Error) → f s ≡ (fatal e, t) → Tries f n s (some e, t)
  exhausted : (s t : S) (e : Error) → f s ≡ (retryable e, t) → Tries f zero s (some e, t)
  again :
      {n : ℕ} {r : Option Error × S} (s t : S) (e : Error)
      → f s ≡ (retryable e, t)
      → Tries f n t r
      → Tries f (suc n) s r

-- The documented behaviour: a positive interval gives a backoff, and retry.Do under WithMaxRetries
-- calls the function until it stops asking for a retry or the retries are used up, for a context
-- that is not done.
pub record IsRetryLib (lib : RetryLib) : Type 1 where
  pub fibonacci :
      (interval : ℕ) → 0 < interval → (b : lib.Backoff) × (lib.new_fibonacci interval ≡ some b)
  pub tries :
      (S : Type 0) (n : ℕ) (b : lib.Backoff) (f : S → Attempt × S) (s : S)
      → Tries f n s (lib.run S (lib.with_max_retries n b) f s)
