-- ===== src/Config.antt =====
-- extract_service/config.py: the settings that the modelled code reads. Fractions of a second are
-- milliseconds. The paths and the environment are not modelled.
use data_nexus.Prelude.{ℕ, String, List, [], ◌∷◌, ◌*◌}

pub record Settings : Type 0 where
  pub presigned_url_ttl_seconds : ℕ
  pub default_retention_days : ℕ
  pub regulatory_retention_days : ℕ
  pub idempotency_key_ttl_days : ℕ
  pub event_retention_days : ℕ
  pub worker_concurrency : ℕ
  pub worker_max_attempts_per_fund : ℕ
  pub worker_max_attempts_per_extract : ℕ
  pub webhook_backoff_schedule : List ℕ
  pub rate_limit_requests_per_minute : ℕ
  pub rate_limit_concurrent_extracts : ℕ
  pub rate_limit_presign_per_minute : ℕ
  pub max_period_years : ℕ
  pub max_fund_scope : ℕ
  pub presign_secret : String
  pub webhook_signing_secret_default : String

abbrev pub default_settings : Settings
default_settings = record {
  presigned_url_ttl_seconds = 3600;
  default_retention_days = 7;
  regulatory_retention_days = 90;
  idempotency_key_ttl_days = 30;
  event_retention_days = 7;
  worker_concurrency = 4;
  worker_max_attempts_per_fund = 3;
  worker_max_attempts_per_extract = 5;
  webhook_backoff_schedule = 10 ∷ 30 ∷ 90 ∷ 270 ∷ 810 ∷ [];
  rate_limit_requests_per_minute = 60;
  rate_limit_concurrent_extracts = 10;
  rate_limit_presign_per_minute = 120;
  max_period_years = 5;
  max_fund_scope = 500;
  presign_secret = "dev-presign-secret-change-me";
  webhook_signing_secret_default = "dev-webhook-secret";
}

-- `timedelta(days=n)`, in seconds
abbrev pub days : ℕ → ℕ
days n = n * 86400
