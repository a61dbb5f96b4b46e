-- ===== src/Retry/Runs.antt =====
-- What follows from the calls that a retry loop makes, whatever is retried.
use achgateway.Base.{ℕ, zero, suc, ◌+◌, ◌≤◌, ◌≡◌, Option, none, some, Error, arith, ap}
use mathlib.Core.Path.{subst}
use achgateway.Retry.{Attempt, succeeded, retryable, fatal, Tries, done, failed, exhausted, again}

-- `k` attempts that may be retried, and then one that succeeds.
pub data FailsThen {S : Type 0} (f : S → Attempt × S) : ℕ → S → S → Type 0 where
  now : (s t : S) → f s ≡ (succeeded, t) → FailsThen f zero s t
  later :
      {k : ℕ} {t : S} (s u : S) (e : Error)
      → f s ≡ (retryable e, u)
      → FailsThen f k u t
      → FailsThen f (suc k) s t

module _ {S : Type 0} (f : S → Attempt × S) where
  pub succeeded-run :
      {n : ℕ} {s : S} {r : Option Error × S} (t : S)
      → Tries f n s r
      → f s ≡ (succeeded, t)
      → r ≡ (none, t)
  succeeded-run t (done s u h) p = cc
  succeeded-run t (failed s u e h) p = cc
  succeeded-run t (exhausted s u e h) p = cc
  succeeded-run t (again s u e h rest) p = cc

  pub recovers :
      {k : ℕ} {s t : S} {r : Option Error × S}
      → FailsThen f k s t
      → {n : ℕ} → k ≤ n
      → Tries f n s r
      → r ≡ (none, t)
  recovers (now s t p) h tries = succeeded-run t tries p
  recovers (later s u e p rest) h (done _ v q) = cc
  recovers (later s u e p rest) h (failed _ v e' q) = cc
  recovers (later s u e p rest) h (exhausted _ v e' q) = absurd (omega arith)
  recovers {r = r} (later s u e p rest) h (again {n = m} _ v e' q tries) =
      let same : v ≡ u = cc in recovers rest (omega arith) (subst (λ x. Tries f m x r) same tries)

  one_call :
      (calls : S → ℕ) {s t : S} {a : Attempt}
      → calls (f s).1 ≡ calls s + 1
      → f s ≡ (a, t)
      → calls t ≡ calls s + 1
  one_call calls step h = cc (ap (λ x. calls x.1) h)

  -- A count that every call raises by one is raised by at most one more than the retries.
  pub calls_bounded :
      (calls : S → ℕ)
      → ((s : S) → calls (f s).1 ≡ calls s + 1)
      → {n : ℕ} {s : S} {r : Option Error × S} → Tries f n s r
      → calls r.1 ≤ calls s + n + 1
  calls_bounded calls step (done s t h) = omega (arith, one_call calls (step s) h)
  calls_bounded calls step (failed s t e h) = omega (arith, one_call calls (step s) h)
  calls_bounded calls step (exhausted s t e h) = omega (arith, one_call calls (step s) h)
  calls_bounded calls step (again s t e h rest) =
      omega (arith, one_call calls (step s) h, calls_bounded calls step rest)

  -- An error that comes out was one that an attempt had marked for a retry.
  pub error_was_retryable :
      (P : Error → Type 0)
      → ((s t : S) (e : Error) → f s ≡ (retryable e, t) → P e)
      → ((s t : S) (e : Error) → ¬ (f s ≡ (fatal e, t)))
      → {n : ℕ} {s : S} {r : Option Error × S} → Tries f n s r
      → (e : Error) → r.0 ≡ some e
      → P e
  error_was_retryable P marked never (done s t h) e p = absurd (cc)
  error_was_retryable P marked never (failed s t e' h) e p = absurd (never s t e' h)
  error_was_retryable P marked never (exhausted s t e' h) e p = subst P (cc) (marked s t e' h)
  error_was_retryable P marked never (again s t e' h rest) e p =
      error_was_retryable P marked never rest e p
