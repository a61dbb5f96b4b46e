-- ===== src/Upload/Retry/Laws.antt =====
-- What the retrying agent of internal/upload/retry.go does with the errors of the agent below it.
use achgateway.Base.{
  ℕ, suc, ◌+◌, ◌≤◌, ◌<◌, ◌≡◌, ◌⊎◌, Text, txt, text_contains, is, timeout, Error, false, true,
  Option, none, some, arith,
}
use achgateway.Retry.{succeeded, RetryLib, IsRetryLib, Tries}
use achgateway.Retry.Runs.{FailsThen, succeeded-run, recovers, calls_bounded, error_was_retryable}
use achgateway.Upload.{File}
use achgateway.Upload.Retry.{
  RetryAgent, should_retry, is_retryable_error, attempt_upload, attempt_read, new_backoff,
  upload_file, read_file,
}

module _ (lib : RetryLib) (L : IsRetryLib lib) {S : Type 0} (rt : RetryAgent S)
    (positive : 0 < rt.cfg.interval) where
  -- A file upload runs the retry loop over the agent below, with the configured number of retries.
  pub Tries-upload_file :
      (f : File) (s : S)
      → Tries
          (attempt_upload lib rt f.filepath)
          rt.cfg.max_retries
          (f.contents, s)
          (upload_file lib rt f s)
  unfolding upload_file
  Tries-upload_file f s =
      let (b, e) = L.fibonacci rt.cfg.interval positive in
      rw (e, upload_file, new_backoff) (L.tries (Text × S) rt.cfg.max_retries b _ (f.contents, s))

  -- With the documented behaviour of the retry library and a positive interval, an upload that
  -- fails with an error that is not retried is reported as a success, after one try.
  pub upload_file-swallows :
      (f : File) (s : S) (t : Text × S) (e : Error)
      → rt.underlying.upload_file f s ≡ (some e, t)
      → should_retry e ≡ false
      → upload_file lib rt f s ≡ (none, t)
  unfolding attempt_upload
  upload_file-swallows f s t e failed permanent =
      succeeded-run _ t (Tries-upload_file f s) (ground arith)

  -- `k` uploads to the agent below that fail with a timeout or an unknown host, and then one that
  -- succeeds; each finds what those before it left unread.
  pub data Succeeds (path : Text) : ℕ → Text × S → Text × S → Type 0 where
    now :
        (s t : Text × S)
        → rt.underlying.upload_file (record { filepath = path; contents = s.0 }) s.1 ≡ (none, t)
        → Succeeds path 0 s t
    later :
        {k : ℕ} {u : Text × S} (s t : Text × S) (e : Error)
        → rt.underlying.upload_file (record { filepath = path; contents = s.0 }) s.1 ≡ (some e, t)
        → (is e timeout ≡ true) ⊎ (text_contains e.message (txt "no such host") ≡ true)
        → Succeeds path k t u
        → Succeeds path (suc k) s u

  should_retry-transient :
      (e : Error)
      → (is e timeout ≡ true) ⊎ (text_contains e.message (txt "no such host") ≡ true)
      → should_retry e ≡ true
  unfolding should_retry
  should_retry-transient e h = ground (arith, h)

  Succeeds-FailsThen :
      (path : Text) {k : ℕ} {s t : Text × S}
      → Succeeds path k s t
      → FailsThen (attempt_upload lib rt path) k s t
  unfolding attempt_upload is_retryable_error
  Succeeds-FailsThen path (now s t h) = FailsThen.now s t (ground (arith, h))
  Succeeds-FailsThen path (later s t e h transient rest) =
      FailsThen.later s t e (ground (arith, h, should_retry-transient e transient))
        (Succeeds-FailsThen path rest)

  -- With the documented behaviour of the retry library and a positive interval, an upload that
  -- fails at most max_retries times with a timeout or an unknown host, and then succeeds, is a
  -- success, with the result of that last attempt, which gets only what the attempts before it left
  -- unread of the contents.
  pub upload_file-recovers :
      (f : File) (s : S) (t : Text × S) (k : ℕ)
      → Succeeds f.filepath k (f.contents, s) t
      → k ≤ rt.cfg.max_retries
      → upload_file lib rt f s ≡ (none, t)
  upload_file-recovers f s t k fails h =
      recovers _ (Succeeds-FailsThen f.filepath fails) h (Tries-upload_file f s)

  -- With the documented behaviour of the retry library and a positive interval, an upload reaches
  -- the agent below at most max_retries + 1 times.
  pub upload_file-bounded :
      (f : File) (calls : S → ℕ)
      → ((g : File) (s : S) → calls (rt.underlying.upload_file g s).1.1 ≡ calls s + 1)
      → (s : S) → calls (upload_file lib rt f s).1.1 ≤ calls s + rt.cfg.max_retries + 1
  unfolding attempt_upload
  upload_file-bounded f calls step s =
      calls_bounded (attempt_upload lib rt f.filepath) (λ (r : Text × S). calls r.1)
        (λ r. step (record { filepath = f.filepath; contents = r.0 }) r.1) (Tries-upload_file f s)

  -- With the documented behaviour of the retry library and a positive interval, an error that an
  -- upload reports is one that is retried: a timeout or an unknown host.
  pub upload_file-reports :
      (f : File) (s : S) (e : Error) → (upload_file lib rt f s).0 ≡ some e → should_retry e ≡ true
  unfolding attempt_upload
  upload_file-reports f s e h =
      error_was_retryable (attempt_upload lib rt f.filepath) (λ x. should_retry x ≡ true)
        (λ x t y q. ground arith) (λ x t y q. ground arith) (Tries-upload_file f s) e h

  -- With the documented behaviour of the retry library and a positive interval, a read that fails
  -- with an error that is not retried is reported with no error, after one try, beside whatever
  -- file the agent below gave.
  pub read_file-swallows :
      (path : Text) (s t : S) (file : Option File) (e : Error)
      → rt.underlying.read_file path s ≡ ((file, some e), t)
      → should_retry e ≡ false
      → read_file lib rt path s ≡ ((file, none), t)
  unfolding read_file attempt_read
  read_file-swallows path s t file e failed permanent =
      let (b, found) = L.fibonacci rt.cfg.interval positive in
      let tries =
        L.tries (Option File × S) rt.cfg.max_retries b
          (attempt_read lib (rt.underlying.read_file path)) (none, s) in
      let first : attempt_read lib (rt.underlying.read_file path) (none, s)
          ≡ (succeeded, (file, t)) =
        ground arith in
      rw (found, read_file, new_backoff, succeeded-run _ (file, t) tries first)
