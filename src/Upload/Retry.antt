-- ===== src/Upload/Retry.antt =====
-- internal/upload/retry.go: an agent that retries the operations of another agent.
pub mod Laws
mod Tests
use achgateway.Base.{
  ℕ, Text, txt, text_contains, Error, errorf_v, new_error, is, timeout, Bool, true, false, ◌||◌,
  Option, none, some, List, [], ◌∷◌, if◌then◌else◌,
}
use achgateway.Retry.{Attempt, succeeded, retryable, RetryLib}
use achgateway.Upload.{Agent, File}

-- service.UploadRetry
pub record UploadRetry : Type 0 where
  pub interval : ℕ
  pub max_retries : ℕ

pub record RetryAgent (S : Type 0) : Type 0 where
  pub cfg : UploadRetry
  pub underlying : Agent S

-- The test on an error that is not nil.
unfoldable pub should_retry : Error → Bool
unfolding is text_contains
should_retry e = is e timeout || text_contains e.message (txt "no such host")

unfoldable pub is_retryable_error : Option Error → Attempt
is_retryable_error none = succeeded
is_retryable_error (some e) = if should_retry e then retryable e else succeeded

unfoldable pub new_retry_agent :
    {S : Type 0} → Agent S → Option UploadRetry → Option (RetryAgent S) × Option Error
new_retry_agent underlying none = (none, some (new_error (txt "nil UploadRetry config")))
new_retry_agent underlying (some cfg) = (some (record { cfg = cfg; underlying = underlying }), none)

module _ (lib : RetryLib) where
  open lib use {Backoff, new_fibonacci, with_max_retries, run}

  unfoldable pub new_backoff : UploadRetry → Option Backoff × Option Error
  new_backoff cfg = elim (new_fibonacci cfg.interval) [
    | none ↦ (none, some (new_error (txt "retry: problem creating fibonacci")))
    | some fib ↦ (some (with_max_retries cfg.max_retries fib), none)
  ]

  module _ {S : Type 0} where
    -- The closures of the methods: what one attempt does to the variables that they share.
    unfoldable pub attempt : (S → Option Error × S) → S → Attempt × S
    unfolding is_retryable_error
    attempt f s = let (err, t) = f s in (is_retryable_error err, t)

    unfoldable pub attempt_files :
        (S → (List Text × Option Error) × S) → List Text × S → Attempt × (List Text × S)
    unfolding is_retryable_error
    attempt_files f (files, s) =
        let (r, t) = f s in
        elim (is_retryable_error r.1) [ succeeded ↦ (succeeded, (r.0, t)) | a ↦ (a, (files, t)) ]

    unfoldable pub attempt_read :
        (S → (Option File × Option Error) × S) → Option File × S → Attempt × (Option File × S)
    unfolding is_retryable_error
    attempt_read f (_, s) = let (r, t) = f s in (is_retryable_error r.1, (r.0, t))

    unfoldable pub retry_files :
        RetryAgent S → (S → (List Text × Option Error) × S) → S → (List Text × Option Error) × S
    unfolding new_backoff
    retry_files rt f s = elim (new_backoff rt.cfg).0 [
      | none ↦ (([], (new_backoff rt.cfg).1), s)
      | some backoff ↦
          let (err, r) = run (List Text × S) backoff (attempt_files f) ([], s) in ((r.0, err), r.1)
    ]

    unfoldable pub get_inbound_files : RetryAgent S → S → (List Text × Option Error) × S
    unfolding retry_files
    get_inbound_files rt = retry_files rt rt.underlying.get_inbound_files

    unfoldable pub get_reconciliation_files : RetryAgent S → S → (List Text × Option Error) × S
    unfolding retry_files
    get_reconciliation_files rt = retry_files rt rt.underlying.get_reconciliation_files

    unfoldable pub get_return_files : RetryAgent S → S → (List Text × Option Error) × S
    unfolding retry_files
    get_return_files rt = retry_files rt rt.underlying.get_return_files

    -- Every attempt has the same reader, with what the attempts before it left unread.
    unfoldable pub attempt_upload : RetryAgent S → Text → Text × S → Attempt × (Text × S)
    unfolding is_retryable_error
    attempt_upload rt path (contents, s) =
        let file : File = record { filepath = path; contents = contents } in
        let (err, t) = rt.underlying.upload_file file s in (is_retryable_error err, t)

    unfoldable pub upload_file : RetryAgent S → File → S → Option Error × (Text × S)
    unfolding new_backoff
    upload_file rt f s = elim (new_backoff rt.cfg).0 [
      | none ↦ ((new_backoff rt.cfg).1, (f.contents, s))
      | some backoff ↦ run (Text × S) backoff (attempt_upload rt f.filepath) (f.contents, s)
    ]

    unfoldable pub delete : RetryAgent S → Text → S → Option Error × S
    unfolding new_backoff
    delete rt path s = elim (new_backoff rt.cfg).0 [
      | none ↦ ((new_backoff rt.cfg).1, s)
      | some backoff ↦ run S backoff (attempt (rt.underlying.delete path)) s
    ]

    unfoldable pub read_file : RetryAgent S → Text → S → (Option File × Option Error) × S
    unfolding new_backoff
    read_file rt path s = elim (new_backoff rt.cfg).0 [
      | none ↦ ((none, (new_backoff rt.cfg).1), s)
      | some backoff ↦
          let (err, r) =
            run (Option File × S) backoff (attempt_read (rt.underlying.read_file path)) (none, s) in
          ((r.0, err), r.1)
    ]

    -- The retrying agent, as an agent.
    unfoldable pub as_agent : RetryAgent S → Agent S
    unfolding get_inbound_files get_reconciliation_files get_return_files upload_file delete
        read_file
    as_agent rt = record {
      id = rt.underlying.id;
      hostname = rt.underlying.hostname;
      inbound_path = rt.underlying.inbound_path;
      outbound_path = rt.underlying.outbound_path;
      reconciliation_path = rt.underlying.reconciliation_path;
      return_path = rt.underlying.return_path;
      get_inbound_files = get_inbound_files rt;
      get_reconciliation_files = get_reconciliation_files rt;
      get_return_files = get_return_files rt;
      upload_file = upload_file rt;
      delete = delete rt;
      read_file = read_file rt;
      ping = rt.underlying.ping;
      close = rt.underlying.close;
    }
