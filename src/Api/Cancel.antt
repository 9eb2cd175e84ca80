-- ===== src/Api/Cancel.antt =====
-- extract_service/main.py: the handler `cancel_extract`.
use data_nexus.Prelude.{ℕ, String, Option, none, some, ◌==◌, string_eq, get_or, if◌then◌else◌}
use data_nexus.Config.{Settings}
use data_nexus.Errors.{ExtractError}
use data_nexus.Exec.{Exec, ok, err, gets, ◌>>=◌, ◌>>◌}
use data_nexus.Models.Enums.{ExtractStatus, is_terminal}
use data_nexus.Storage.Rows.{ExtractRow}
use data_nexus.Storage.Apps.{audit}
use data_nexus.Storage.Extracts.{get_extract, no_changes, update_extract}
use data_nexus.Auth.Limiter.{check_request}
use data_nexus.Auth.Principals.{Principal}
use data_nexus.Service.{Service, now, on_storage, on_worker}
use data_nexus.Worker.Queue
use data_nexus.Api.Create.{with_storage}

pub record CancelResponse : Type 0 where
  pub extract_id : String
  pub status : ExtractStatus
  pub cancelled_at : ℕ
  pub cancelled_by : String

-- `not row or row["app_id"] != principal.app_id`
unfoldable pub owned : String → Option ExtractRow → Option ExtractRow
owned app none = none
owned app (some row) = if row.app_id == app then some row else none

-- The state after the cancellation of an extract that is not terminal.
unfoldable pub mark_cancelled : String → String → Service → Service
mark_cancelled app id s =
    on_storage (audit (now s) (some app) "extract.cancel" (some id) "success") (
      on_storage
        (update_extract (now s) id (record no_changes {
          status = some ExtractStatus.cancelled;
          cancelled_at = some (now s);
        }))
        (on_worker (Queue.cancel id) s))

unfoldable pub cancel_row : String → String → Option ExtractRow → Exec Service CancelResponse
unfolding mark_cancelled
cancel_row app id none s = (err (ExtractError.not_found "extract not found"), s)
cancel_row app id (some row) s =
    if is_terminal row.status
    then (
      ok (record {
        extract_id = id;
        status = row.status;
        cancelled_at = get_or row.cancelled_at (now s);
        cancelled_by = app;
      }),
      s,
    )
    else (
      ok (record {
        extract_id = id;
        status = ExtractStatus.cancelled;
        cancelled_at = now s;
        cancelled_by = app;
      }),
      mark_cancelled app id s,
    )

-- The handler `cancel_extract`, for an authenticated principal.
unfoldable pub cancel : Settings → Principal → String → Exec Service CancelResponse
unfolding with_storage cancel_row owned
cancel cfg who id = do
  t ← gets (λ s. s.time)
  with_storage (check_request cfg t who.app_id)
  row ← gets (λ s. owned who.app_id (get_extract id s.storage))
  cancel_row who.app_id id row
