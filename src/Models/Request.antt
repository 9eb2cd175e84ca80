-- ===== src/Models/Request.antt =====
-- The request models of extract_service/models.py and their validators. A validator that raises
-- `ValueError` returns `none`.
use Prim.Native.String
use data_nexus.Prelude.Numbers.{ℤ}
use data_nexus.Prelude.{
  ℕ, String, Bool, true, false, ◌&&◌, Option, none, some, List, leb, is_empty, if◌then◌else◌,
}
use data_nexus.Prelude.Text.{is_blank, lower_starts_with}
use data_nexus.Models.Enums.{Compression, Frequency, NotificationMode, OutputFormat, Priority}

pub record Period : Type 0 where
  pub start : ℕ
  pub end : ℕ

pub record OutputSpec : Type 0 where
  pub format : OutputFormat
  pub compression : Compression
  pub partition_by : String

pub record NotificationSpec : Type 0 where
  pub mode : NotificationMode
  pub topic : Option String
  pub callback_url : Option String

pub record Requester : Type 0 where
  pub app_id : String
  pub correlation_id : Option String

pub record CreateExtractRequest : Type 0 where
  pub domain : String
  pub period : Period
  pub as_of : Option ℕ
  pub fund_scope : Option (List String)
  pub frequency : Option Frequency
  pub output : OutputSpec
  pub notification : Option NotificationSpec
  pub idempotency_key : String
  pub priority : Priority
  pub requester : Requester
  pub retention_days : Option ℤ

-- `Period._check_order`
check_order : Period → Bool
check_order p = leb p.start p.end

-- `not x` on an optional text
abbrev pub missing : Option String → Bool
missing none = true
missing (some s) = is_blank s

is_https : Option String → Bool
is_https none = false
is_https (some url) = lower_starts_with url "https://"

fields_for : NotificationMode → NotificationSpec → Bool
unfolding is_https
fields_for NotificationMode.event n = if missing n.topic then false else true
fields_for NotificationMode.webhook n =
    if missing n.callback_url then false else is_https n.callback_url
fields_for NotificationMode.none n = true

-- `NotificationSpec._conditional_fields`
conditional_fields : NotificationSpec → Bool
unfolding fields_for
conditional_fields n = fields_for n.mode n

check_notification : Option NotificationSpec → Bool
unfolding conditional_fields
check_notification none = true
check_notification (some n) = conditional_fields n

-- `CreateExtractRequest._non_empty_scope`
non_empty_scope : Option (List String) → Bool
non_empty_scope none = true
non_empty_scope (some funds) = if is_empty funds then false else true

-- What pydantic admits as a `CreateExtractRequest`: the validators, and the bounds of the field
-- `idempotency_key`.
unfoldable pub validate_model : CreateExtractRequest → Bool
unfolding check_order check_notification non_empty_scope
validate_model r =
    check_order r.period
    && check_notification r.notification
    && non_empty_scope r.fund_scope
    && leb 1 (String.count r.idempotency_key)
    && leb (String.count r.idempotency_key) 128
