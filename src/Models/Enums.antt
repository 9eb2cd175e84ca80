-- ===== src/Models/Enums.antt =====
-- The enumerations of extract_service/models.py.
use data_nexus.Prelude.{Bool, true, false, ◌↔◌, ◌≡◌, Comparable, String, arith}

pub data ExtractStatus : Type 0 where
  accepted running completed failed partial cancelled expired : ExtractStatus

-- `TERMINAL_STATUSES`, as the test `status in TERMINAL_STATUSES`
unfoldable pub is_terminal : ExtractStatus → Bool
is_terminal ExtractStatus.accepted = false
is_terminal ExtractStatus.running = false
is_terminal ExtractStatus.completed = true
is_terminal ExtractStatus.failed = true
is_terminal ExtractStatus.partial = true
is_terminal ExtractStatus.cancelled = true
is_terminal ExtractStatus.expired = true

abbrev pub status_beq : ExtractStatus → ExtractStatus → Bool
status_beq ExtractStatus.accepted ExtractStatus.accepted = true
status_beq ExtractStatus.running ExtractStatus.running = true
status_beq ExtractStatus.completed ExtractStatus.completed = true
status_beq ExtractStatus.failed ExtractStatus.failed = true
status_beq ExtractStatus.partial ExtractStatus.partial = true
status_beq ExtractStatus.cancelled ExtractStatus.cancelled = true
status_beq ExtractStatus.expired ExtractStatus.expired = true
status_beq _ _ = false

pub status_beq_iff : (a b : ExtractStatus) → (status_beq a b ≡ true) ↔ (a ≡ b)
status_beq_iff a b = ground arith

instance abbrev pub status_eq : Comparable ExtractStatus
status_eq = record { same = status_beq; same_iff = status_beq_iff }

pub data Frequency : Type 0 where
  daily monthly quarterly yearly : Frequency

pub data OutputFormat : Type 0 where
  parquet ndjson csv : OutputFormat

pub data Compression : Type 0 where
  gzip zstd none : Compression

pub data NotificationMode : Type 0 where
  event webhook none : NotificationMode

pub data Priority : Type 0 where
  high normal low : Priority

unfoldable pub priority_value : Priority → String
priority_value Priority.high = "high"
priority_value Priority.normal = "normal"
priority_value Priority.low = "low"

pub data ErrorCode : Type 0 where
  validation_error entitlement_denied rate_limited source_timeout source_unavailable : ErrorCode
  storage_write_failed partial_failure schema_mismatch internal_error : ErrorCode
