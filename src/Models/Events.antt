-- ===== src/Models/Events.antt =====
-- The event schemas of extract_service/models.py. The three event classes share the fields of
-- `BaseEvent` and the scope; what differs is the body.
use data_nexus.Prelude.{ℕ, String, Option, List}
use data_nexus.Models.Enums.{Compression, ErrorCode, Frequency, OutputFormat}

pub record EventScope : Type 0 where
  pub domain : String
  pub period_start : ℕ
  pub period_end : ℕ
  pub as_of : Option ℕ
  pub fund_scope : List String
  pub frequency : Option Frequency

pub record EventArtifact : Type 0 where
  pub file_count : ℕ
  pub total_bytes : ℕ
  pub total_rows : ℕ
  pub format : OutputFormat
  pub compression : Compression
  pub checksum : String
  pub schema_version : String
  pub files_endpoint : String
  pub expires_at : ℕ

pub record EventLineage : Type 0 where
  pub run_id : String
  pub sources : List String
  pub produced_by : String
  pub duration_seconds : ℕ

pub record EventRequester : Type 0 where
  pub app_id : String
  pub correlation_id : Option String

pub record PartialResult : Type 0 where
  pub funds_completed : List String
  pub funds_failed : List String

pub record ExtractFailedError : Type 0 where
  pub code : ErrorCode
  pub message : String
  pub retries_attempted : ℕ
  pub partial_result : PartialResult

-- What `ExtractReadyEvent`, `ExtractFailedEvent` and `ExtractExpiringEvent` add.
pub data EventBody : Type 0 where
  ready : EventArtifact → EventLineage → EventBody
  failed : ExtractFailedError → EventBody
  expiring : ℕ → String → EventBody

-- `event_type`, a literal of each class
unfoldable pub event_type : EventBody → String
event_type (EventBody.ready a l) = "extract.ready"
event_type (EventBody.failed e) = "extract.failed"
event_type (EventBody.expiring t u) = "extract.expiring"

-- `event_version`
unfoldable pub event_version : EventBody → String
event_version (EventBody.ready a l) = "1.0"
event_version (EventBody.failed e) = "1.0"
event_version (EventBody.expiring t u) = "1.1"

pub record Event : Type 0 where
  pub event_id : String
  pub emitted_at : ℕ
  pub source : String
  pub extract_id : String
  pub idempotency_key : String
  pub scope : EventScope
  pub requester : EventRequester
  pub body : EventBody
