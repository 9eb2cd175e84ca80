-- ===== src/Storage/Rows.antt =====
-- The tables of extract_service/storage.py (`SCHEMA`). The texts of timestamps all come from
-- `utcnow().isoformat()`, in one format, so they compare as the seconds that they stand for.
use data_nexus.Prelude.{ℕ, String, Bool, Option, List, []}
use data_nexus.Models.Enums.{Compression, ErrorCode, ExtractStatus, OutputFormat, Priority}
use data_nexus.Models.Events.{PartialResult}
use data_nexus.Models.Request.{CreateExtractRequest}

pub record Progress : Type 0 where
  pub funds_completed : ℕ
  pub funds_total : ℕ
  pub percent : ℕ
  pub current_fund : Option String

-- `Worker._file_to_dict`
pub record FileInfo : Type 0 where
  pub partition_key : String
  pub name : String
  pub size_bytes : ℕ
  pub row_count : ℕ
  pub checksum : String
  pub format : OutputFormat
  pub compression : Compression

pub record ErrorDetail : Type 0 where
  pub code : ErrorCode
  pub message : String
  pub retries_attempted : ℕ
  pub partial_result : PartialResult

pub record Outcome : Type 0 where
  pub files : List FileInfo
  pub manifest_checksum : String
  pub total_bytes : ℕ
  pub total_rows : ℕ
  pub schema_version : String
  pub duration_seconds : ℕ

-- The dictionaries that the service stores as `state_json`, by the keys that they have.
pub data StateJson : Type 0 where
  progress : Progress → StateJson
  finished : Outcome → StateJson
  finished_partly : Outcome → ErrorDetail → StateJson
  failed : ErrorDetail → StateJson

pub record ExtractRow : Type 0 where
  pub extract_id : String
  pub idempotency_key : String
  pub app_id : String
  pub domain : String
  pub status : ExtractStatus
  pub request : CreateExtractRequest
  pub state : StateJson
  pub created_at : ℕ
  pub updated_at : ℕ
  pub completed_at : Option ℕ
  pub cancelled_at : Option ℕ
  pub expires_at : Option ℕ
  pub run_id : Option String
  pub priority : Priority
  pub expiring_event_sent : Bool

pub record IdempotencyRow : Type 0 where
  pub key : String
  pub app_id : String
  pub extract_id : String
  pub request_fingerprint : String
  pub created_at : ℕ

pub record AppRow : Type 0 where
  pub app_id : String
  pub token : String
  pub webhook_secret : Option String
  pub cert_fingerprint : Option String

pub record AuditRow : Type 0 where
  pub timestamp : ℕ
  pub app_id : Option String
  pub action : String
  pub resource : Option String
  pub outcome : String

-- `ts` is `time.time()` in microseconds.
pub record RateLimitEvent : Type 0 where
  pub app_id : String
  pub kind : String
  pub ts : ℕ

pub record Storage : Type 0 where
  pub extracts : List ExtractRow
  pub idempotency : List IdempotencyRow
  pub entitlements : List (String × String)
  pub applications : List AppRow
  pub audit_log : List AuditRow
  pub rate_limit_events : List RateLimitEvent

abbrev pub empty : Storage
empty = record {
  extracts = [];
  idempotency = [];
  entitlements = [];
  applications = [];
  audit_log = [];
  rate_limit_events = [];
}
