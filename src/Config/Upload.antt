-- ===== src/Config/Upload.antt =====
-- internal/service/model_upload.go: retries of uploads and the cleanup of merged files.
use achgateway.Base.{ℕ, txt, ltb, leb, Bool, Option, [], ◌∷◌, ◌++◌, if◌then◌else◌}
use achgateway.Config.Checks.{Checked, passed, first_problem, wrap, optional, require}
use achgateway.Config.Sharding.{Clock}
use achgateway.Upload.Retry.{UploadRetry}

pub record CleanupConfig : Type 0 where
  pub enabled : Bool
  pub retention_duration : ℕ
  pub check_interval : ℕ

-- UploadAgents; the settings of the agents themselves are not validated.
pub record UploadSettings : Type 0 where
  pub retry : Option UploadRetry
  pub cleanup : Option CleanupConfig

module _ (clock : Clock) where
  open clock use {show_index, show_duration}

  unfoldable pub validate_retry : UploadRetry → Checked
  unfolding require
  validate_retry cfg = first_problem (
      require (ltb 0 cfg.interval) (txt "unexpected " ++ show_index cfg.interval ++ txt " interval")
      ∷ require (ltb 0 cfg.max_retries)
          (txt "unexpected " ++ show_index cfg.max_retries ++ txt " max retries")
      ∷ [])

  unfoldable pub cleanup_checks : CleanupConfig → Checked
  unfolding require
  cleanup_checks c = first_problem (
      require (ltb 0 c.retention_duration) (
        txt "cleanup retention duration must be positive, got "
        ++ show_duration c.retention_duration)
      ∷ require (ltb 0 c.check_interval)
          (txt "cleanup check interval must be positive, got " ++ show_duration c.check_interval)
      ∷ require (leb c.check_interval c.retention_duration) (
          txt "cleanup check interval ("
          ++ show_duration c.check_interval
          ++ txt ") should not be greater than retention duration ("
          ++ show_duration c.retention_duration
          ++ txt ")")
      ∷ [])

  unfoldable pub validate_cleanup : CleanupConfig → Checked
  unfolding cleanup_checks
  validate_cleanup c = if c.enabled then cleanup_checks c else passed

  unfoldable pub validate_upload : UploadSettings → Checked
  unfolding validate_retry validate_cleanup
  validate_upload cfg = first_problem (
      wrap (txt "retry: ") (optional validate_retry cfg.retry)
      ∷ wrap (txt "merging: ") (optional validate_cleanup cfg.cleanup)
      ∷ [])
