-- ===== src/Retry/Loop.antt =====
-- A retry loop that meets the assumptions on the retry library: a backoff is a number of retries.
use achgateway.Base.{ℕ, zero, suc, ◌≡◌, refl, Option, none, some, Error}
use achgateway.Retry.{
  Attempt, succeeded, retryable, fatal, RetryLib, IsRetryLib, Tries, done, failed, exhausted, again,
}

abbrev pub counted_run : (S : Type 0) → ℕ → (S → Attempt × S) → S → Option Error × S
counted_run S zero f s =
    let (a, t) = f s in
    elim a [ succeeded ↦ (none, t) | retryable e ↦ (some e, t) | fatal e ↦ (some e, t) ]
counted_run S (suc n) f s =
    let (a, t) = f s in
    elim a [ succeeded ↦ (none, t) | retryable e ↦ counted_run S n f t | fatal e ↦ (some e, t) ]

abbrev pub counted_retry : RetryLib
counted_retry = record {
  Backoff = ℕ;
  new_fibonacci = λ interval. some interval;
  with_max_retries = λ n b. n;
  run = counted_run;
}

module _ (S : Type 0) (f : S → Attempt × S) where
  paired : (s : S) (a : Attempt) → (f s).0 ≡ a → f s ≡ (a, (f s).1)
  paired s a h = λ i. (h i, (f s).1)

  step-Tries :
      (n : ℕ) (s : S) (a : Attempt)
      → (f s).0 ≡ a
      → ((u : S) → Tries f n u (counted_run S n f u))
      → Tries f (suc n) s (counted_run S (suc n) f s)
  step-Tries n s succeeded h rest = rw (h, counted_run) (done s _ (paired s _ h))
  step-Tries n s (retryable e) h rest =
      rw (h, counted_run) (again s _ e (paired s _ h) (rest (f s).1))
  step-Tries n s (fatal e) h rest = rw (h, counted_run) (failed s _ e (paired s _ h))

  last-Tries : (s : S) (a : Attempt) → (f s).0 ≡ a → Tries f zero s (counted_run S zero f s)
  last-Tries s succeeded h = rw (h, counted_run) (done s _ (paired s _ h))
  last-Tries s (retryable e) h = rw (h, counted_run) (exhausted s _ e (paired s _ h))
  last-Tries s (fatal e) h = rw (h, counted_run) (failed s _ e (paired s _ h))

  pub counted-Tries : (n : ℕ) (s : S) → Tries f n s (counted_run S n f s)
  counted-Tries zero s = last-Tries s (f s).0 refl
  counted-Tries (suc n) s = step-Tries n s (f s).0 refl (λ u. counted-Tries n u)

pub counted_retry-IsRetryLib : IsRetryLib counted_retry
counted_retry-IsRetryLib = record {
  fibonacci = λ interval h. (interval, refl);
  tries = λ S n b f s. counted-Tries S f n s;
}
