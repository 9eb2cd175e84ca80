-- ===== src/Worker/Finalize.antt =====
-- extract_service/worker.py: `_build_manifest` and the four finalizations of a run.
use data_nexus.Prelude.{
  ℕ, ◌+◌, ◌-◌, zero, suc, String, Bool, true, false, ltb, Option, none, some, List, [], ◌∷◌, length,
  sum_of, leb, if◌then◌else◌,
}
use data_nexus.Prelude.Numbers.{ℤ}
use data_nexus.Prelude.Text.{concat}
use data_nexus.Config.{Settings, days}
use data_nexus.Errors.{ExtractError}
use data_nexus.Exec.{Exec, ok, err}
use data_nexus.Models.Enums.{ErrorCode, ExtractStatus}
use data_nexus.Models.Events.{PartialResult}
use data_nexus.Platform.{Platform}
use data_nexus.Domains.{DomainDef, get_domain}
use data_nexus.Metrics.{inc, observe}
use data_nexus.Storage.Rows.{ErrorDetail, ExtractRow, FileInfo, Outcome, StateJson}
use data_nexus.Storage.Extracts.{no_changes, update_extract}
use data_nexus.ObjectStore.Files.{ObjectStore, Manifest, cleanup_staging, promote, write_manifest}
use data_nexus.Service.{Service, now, on_metrics, on_storage, on_store, on_worker}
use data_nexus.Worker.Queue.{discard}
use data_nexus.Worker.Notify.{combined_checksum, emit_failed, emit_ready, sources_of}

abbrev domain_schema : String → Option DomainDef → String
domain_schema domain none = concat (domain ∷ "/v1" ∷ [])
domain_schema domain (some d) = d.schema_version

-- `get_domain(domain).schema_version if get_domain(domain) else f"{domain}/v1"`
unfoldable pub schema_version_of : String → String
schema_version_of domain = domain_schema domain (get_domain domain)

-- `request.get("retention_days") or settings.default_retention_days`: 0 counts as absent.
unfoldable pub retention_days_of : Settings → Option ℤ → ℤ
retention_days_of cfg none = ℤ.pos cfg.default_retention_days
retention_days_of cfg (some (ℤ.pos zero)) = ℤ.pos cfg.default_retention_days
retention_days_of cfg (some (ℤ.pos (suc n))) = ℤ.pos (suc n)
retention_days_of cfg (some (ℤ.negsuc n)) = ℤ.negsuc n

-- The first instant of the year 10000, and the seconds from the year 1 to 1970. A sum of an instant
-- and a `timedelta` outside these raises an `OverflowError`.
abbrev pub end_of_calendar : ℕ
end_of_calendar = 253402300800

abbrev pub calendar_before_1970 : ℕ
calendar_before_1970 = 62135596800

unfoldable pub in_calendar : ℕ → ℤ → Bool
in_calendar t (ℤ.pos n) = ltb (t + days n) end_of_calendar
in_calendar t (ℤ.negsuc n) = leb (days (suc n)) (t + calendar_before_1970)

-- `t + timedelta(days=n)`, where it is in the calendar. An instant before 1970 counts as its start.
unfoldable pub plus_days : ℕ → ℤ → ℕ
plus_days t (ℤ.pos n) = t + days n
plus_days t (ℤ.negsuc n) = t - days (suc n)

-- `_build_manifest`: the dictionary; the totals and the checksum are returned beside it.
unfoldable pub build_manifest :
    Settings → ℕ → ExtractRow → String → List FileInfo → String → Manifest
unfolding plus_days
build_manifest cfg t row run_id files schema = record {
  extract_id = row.extract_id;
  run_id = run_id;
  domain = row.request.domain;
  period = row.request.period;
  as_of = row.request.as_of;
  schema_version = schema;
  created_at = t;
  expires_at = plus_days t (retention_days_of cfg row.request.retention_days);
  files = files;
  file_count = length files;
  total_bytes = sum_of (λ f. f.size_bytes) files;
  total_rows = sum_of (λ f. f.row_count) files;
  sources = sources_of row.request.domain;
}

-- `_fund_bucket`
unfoldable pub fund_bucket : ℕ → String
fund_bucket n =
    if leb n 1
    then "single"
    else if leb n 10
    then "small"
    else if leb n 100
    then "medium"
    else "large"

-- `_finalize_cancelled`
unfoldable pub finalize_cancelled : String → Service → Service
finalize_cancelled id s = on_worker (discard id) (
    on_storage
      (update_extract (now s) id
        (record no_changes { status = some ExtractStatus.cancelled; cancelled_at = some (now s) }))
      (on_store (cleanup_staging id) s))

unfoldable pub count_request : ExtractRow → String → Service → Service
count_request row status = on_metrics (
    inc "extract.requests.total" 1
      (("domain", row.domain) ∷ ("status", status) ∷ ("app_id", row.app_id) ∷ []))

abbrev with_store : Option ObjectStore → Service → Option Service
with_store none s = none
with_store (some store) s = some (record s { store = store })

-- The manifest is staged and the staging prefix is published: `write_manifest` and `promote`.
unfoldable pub publish_files :
    Platform → Settings → ExtractRow → String → List FileInfo → Service → Option Service
publish_files p cfg row run_id files s =
    with_store
      (promote p (now s) row.extract_id row.domain (
        write_manifest row.extract_id
          (build_manifest cfg (now s) row run_id files (schema_version_of row.domain)) s.store))
      s

unfoldable pub outcome_of : Platform → ExtractRow → List FileInfo → ℕ → Outcome
outcome_of p row files duration = record {
  files = files;
  manifest_checksum = combined_checksum p files;
  total_bytes = sum_of (λ f. f.size_bytes) files;
  total_rows = sum_of (λ f. f.row_count) files;
  schema_version = schema_version_of row.domain;
  duration_seconds = duration;
}

unfoldable pub expiry : Settings → ExtractRow → ℕ → ℕ
unfolding plus_days
expiry cfg row t = plus_days t (retention_days_of cfg row.request.retention_days)

-- The expiry of a row, taken at an instant, is in the calendar.
unfoldable pub has_expiry : Settings → ExtractRow → ℕ → Bool
unfolding in_calendar retention_days_of
has_expiry cfg row t = in_calendar t (retention_days_of cfg row.request.retention_days)

-- `_build_manifest` raises before anything is written when the expiry is out of the calendar.
unfoldable pub if_in_calendar : Bool → Exec Service (Unit {0}) → Exec Service (Unit {0})
if_in_calendar true f s = f s
if_in_calendar false f s = (err ExtractError.overflow, s)

-- The `UPDATE` of a run that published its files.
unfoldable pub save_outcome : Settings → ExtractRow → ExtractStatus → StateJson → Service → Service
save_outcome cfg row status state s =
    on_storage
      (update_extract (now s) row.extract_id (record no_changes {
        status = some status;
        state = some state;
        completed_at = some (now s);
        expires_at = some (expiry cfg row (now s));
      }))
      s

-- `_finalize_completed` from the `UPDATE` on
unfoldable pub complete :
    Platform → Settings → ExtractRow → String → FileInfo → List FileInfo → ℕ → Service → Service
unfolding save_outcome count_request
complete p cfg row run_id first more started s =
    let files = first ∷ more in
    let duration = now s - started in
    emit_ready p row run_id first more duration (expiry cfg row (now s))
      (schema_version_of row.domain)
      (count_request row "COMPLETED" (
        on_metrics
          (observe "extract.completion.duration_seconds" duration
            (("domain", row.domain) ∷ ("fund_count_bucket", fund_bucket (length files)) ∷ []))
          (save_outcome cfg row ExtractStatus.completed
            (StateJson.finished (outcome_of p row files duration)) s)))

-- What follows the publication of the files, which raises when there is no staging prefix.
unfoldable pub if_published :
    Option Service → String → (Service → Service) → Exec Service (Unit {0})
if_published none id f s = (err (ExtractError.file_not_found id), s)
if_published (some s') id f s = (ok tt, f s')

-- `_finalize_completed`, on a row that is there and a list of files that is not empty
unfoldable pub finalize_completed :
    Platform
    → Settings
    → ExtractRow
    → String
    → FileInfo
    → List FileInfo
    → ℕ
    → Exec Service (Unit {0})
unfolding complete if_published has_expiry if_in_calendar
finalize_completed p cfg row run_id first more started s =
    if_in_calendar (has_expiry cfg row (now s))
      (if_published (publish_files p cfg row run_id (first ∷ more) s) row.extract_id
        (complete p cfg row run_id first more started))
      s

-- `_finalize_partial` from the `UPDATE` on
unfoldable pub complete_partly :
    Platform → Settings → ExtractRow → PartialResult → List FileInfo → ℕ → ℕ → Service → Service
unfolding save_outcome count_request
complete_partly p cfg row funds files started retries s =
    let duration = now s - started in
    let detail : ErrorDetail = record {
      code = ErrorCode.partial_failure;
      message = "Some partitions failed";
      retries_attempted = retries;
      partial_result = funds;
    } in
    count_request row "PARTIAL" (
      emit_failed p row ErrorCode.partial_failure "Some partitions failed" retries funds (
        save_outcome cfg row ExtractStatus.partial
          (StateJson.finished_partly (outcome_of p row files duration) detail) s))

-- `_finalize_partial`
unfoldable pub finalize_partial :
    Platform
    → Settings
    → ExtractRow
    → String
    → PartialResult
    → List FileInfo
    → ℕ
    → ℕ
    → Exec Service (Unit {0})
unfolding complete_partly if_published has_expiry if_in_calendar
finalize_partial p cfg row run_id funds files started retries s =
    if_in_calendar (has_expiry cfg row (now s))
      (if_published (publish_files p cfg row run_id files s) row.extract_id
        (complete_partly p cfg row funds files started retries))
      s

-- `_finalize_failed`
unfoldable pub finalize_failed :
    Platform → ExtractRow → PartialResult → ErrorCode → String → ℕ → Service → Service
unfolding count_request
finalize_failed p row funds code message retries s =
    let detail : ErrorDetail = record {
      code = code;
      message = message;
      retries_attempted = retries;
      partial_result = funds;
    } in
    count_request row "FAILED" (
      emit_failed p row code message retries funds (
        on_storage
          (update_extract (now s) row.extract_id (record no_changes {
            status = some ExtractStatus.failed;
            state = some (StateJson.failed detail);
          }))
          (on_store (cleanup_staging row.extract_id) s)))
