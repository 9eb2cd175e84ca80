-- ===== src/Api/Status.antt =====
-- extract_service/main.py: `_status_response_from_row` and the handler `get_extract_status`.
use data_nexus.Prelude.{ℕ, ◌-◌, String, Option, none, some, List, [], ◌∷◌, length, get_or}
use data_nexus.Config.{Settings}
use data_nexus.Errors.{ExtractError}
use data_nexus.Exec.{Exec, ok, err, gets, ◌>>=◌, ◌>>◌}
use data_nexus.Models.Enums.{ExtractStatus}
use data_nexus.Storage.Rows.{ErrorDetail, ExtractRow, Outcome, Progress, StateJson}
use data_nexus.Storage.Extracts.{get_extract}
use data_nexus.Auth.Principals.{Principal}
use data_nexus.Auth.Limiter.{check_request}
use data_nexus.Service.{Service, now}
use data_nexus.Worker.Notify.{files_endpoint, sources_of}
use data_nexus.Api.Cancel.{owned}
use data_nexus.Api.Create.{with_storage}

pub record ResultInfo : Type 0 where
  pub location : String
  pub file_count : ℕ
  pub total_bytes : ℕ
  pub total_rows : ℕ
  pub checksum : String
  pub schema_version : String
  pub expires_at : ℕ

pub record LineageInfo : Type 0 where
  pub sources : List String
  pub as_of : Option ℕ
  pub run_id : String

pub record StatusResponse : Type 0 where
  pub extract_id : String
  pub status : ExtractStatus
  pub progress : Option Progress
  pub created_at : ℕ
  pub updated_at : ℕ
  pub completed_at : Option ℕ
  pub cancelled_at : Option ℕ
  pub duration_seconds : Option ℕ
  pub result : Option ResultInfo
  pub lineage : Option LineageInfo
  pub error : Option ErrorDetail

-- `state.get("progress")`, the keys of the files, and `state.get("error")`
unfoldable pub progress_of : StateJson → Option Progress
progress_of (StateJson.progress p) = some p
progress_of _ = none

unfoldable pub outcome_in : StateJson → Option Outcome
outcome_in (StateJson.finished o) = some o
outcome_in (StateJson.finished_partly o e) = some o
outcome_in _ = none

unfoldable pub error_of : StateJson → Option ErrorDetail
error_of (StateJson.finished_partly o e) = some e
error_of (StateJson.failed e) = some e
error_of _ = none

-- A state without files, or with an empty list of them, gives no result.
unfoldable pub result_info : ℕ → ExtractRow → Option Outcome → Option ResultInfo
result_info t row none = none
result_info t row (some o) = elim o.files [
  | [] ↦ none
  | f ∷ fs ↦ some (record {
    location = files_endpoint row.extract_id;
    file_count = length o.files;
    total_bytes = o.total_bytes;
    total_rows = o.total_rows;
    checksum = o.manifest_checksum;
    schema_version = o.schema_version;
    expires_at = get_or row.expires_at t;
  })
]

unfoldable pub result_by : ExtractStatus → ℕ → ExtractRow → Option ResultInfo
unfolding result_info outcome_in
result_by ExtractStatus.completed t row = result_info t row (outcome_in row.state)
result_by ExtractStatus.partial t row = result_info t row (outcome_in row.state)
result_by _ t row = none

lineage_info : ExtractRow → Option String → Option LineageInfo
lineage_info row none = none
lineage_info row (some run) =
    some (record { sources = sources_of row.domain; as_of = row.request.as_of; run_id = run })

duration_of : Option ℕ → ℕ → Option ℕ
duration_of none created = none
duration_of (some completed) created = some (completed - created)

-- `_status_response_from_row`, at the instant of `utcnow()`
unfoldable pub status_response : ℕ → ExtractRow → StatusResponse
unfolding progress_of result_by lineage_info error_of duration_of
status_response t row = record {
  extract_id = row.extract_id;
  status = row.status;
  progress = progress_of row.state;
  created_at = row.created_at;
  updated_at = row.updated_at;
  completed_at = row.completed_at;
  cancelled_at = row.cancelled_at;
  duration_seconds = duration_of row.completed_at row.created_at;
  result = result_by row.status t row;
  lineage = lineage_info row row.run_id;
  error = error_of row.state;
}

unfoldable pub status_of_row : Option ExtractRow → Exec Service StatusResponse
unfolding status_response
status_of_row none s = (err (ExtractError.not_found "extract not found"), s)
status_of_row (some row) s = (ok (status_response (now s) row), s)

-- The handler `get_extract_status`, for an authenticated principal.
unfoldable pub get_extract_status : Settings → Principal → String → Exec Service StatusResponse
unfolding with_storage status_of_row owned
get_extract_status cfg who id = do
  t ← gets (λ s. s.time)
  with_storage (check_request cfg t who.app_id)
  row ← gets (λ s. owned who.app_id (get_extract id s.storage))
  status_of_row row
