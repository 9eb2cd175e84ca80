-- ===== src/Tests/Lifecycle.antt =====
-- A request, a round of the worker with a cancellation in its middle, and a sweep.
use data_nexus.Prelude.{◌≤◌, String, refl, none, [], ◌∷◌, string_eq}
use data_nexus.Config.{default_settings}
use data_nexus.Models.Enums.{ExtractStatus}
use data_nexus.Storage.Rows.{ExtractRow}
use data_nexus.Storage.Extracts.{get_extract}
use data_nexus.Auth.Principals.{Principal}
use data_nexus.Service.{Service}
use data_nexus.Api.Cancel.{cancel}
use data_nexus.Api.Create.{create}
use data_nexus.Webhooks.Sweeper.{run_once}
use data_nexus.Worker.Outcome.{status_of}
use data_nexus.Worker.Process.{run_next}
use data_nexus.Lifecycle.Board.{Sound}
use data_nexus.Lifecycle.Diagram.{◌⟶*◌, IsEnd, rank}
use data_nexus.Lifecycle.Refinement.{
  Lasting, Task, Tasks, start-Sound, task_keeps_ends, task_never_back, task_refines,
}
use data_nexus.Tests.Data.{platform, request, running_row, service, tables}

abbrev who : Principal
who = record { app_id = "app"; cert_fingerprint = none; token = "tok" }

-- The request, then a round of the worker whose first wait lets a cancellation in, then a sweep.
abbrev step : Service → Service
step s = run_once platform default_settings (
    run_next platform default_settings
      ((λ x. (cancel default_settings who "ext_20260101_000000_ab" x).1) ∷ [])
      (create platform default_settings "ab" who request s).1)

step-Task : Task step
step-Task =
    Task.both _ _
      (Task.both _ _ (Task.request platform default_settings "ab" who request) (
        Task.work platform default_settings _ (
          Tasks.more _ _ (Task.withdraw default_settings who "ext_20260101_000000_ab") Tasks.done)))
      (Task.sweep platform default_settings)

start : Sound [] service
start = start-Sound service refl refl

task_refines_example :
    Sound [] (step service) × ((id : String) → status_of id service ⟶* status_of id (step service))
task_refines_example = task_refines step step-Task service start

task_never_back_example :
    rank (status_of "ext_20260101_000000_ab" service)
    ≤ rank (status_of "ext_20260101_000000_ab" (step service))
task_never_back_example = task_never_back step step-Task service start "ext_20260101_000000_ab"

abbrev done_row : ExtractRow
done_row = record running_row { status = ExtractStatus.completed }

-- The service with one extract that is complete.
abbrev finished : Service
finished = record service { storage = record tables { extracts = done_row ∷ [] } }

finished-Sound : Sound [] finished
finished-Sound = record {
  waiting = λ id h. absurd cc;
  running = λ id h. absurd cc;
  apart = λ id h. absurd cc;
  distinct = tt;
  unique = (refl, tt);
}

task_keeps_ends_example : Lasting ExtractStatus.completed (status_of "ext" (step finished))
unfolding get_extract
task_keeps_ends_example =
    task_keeps_ends step step-Task finished finished-Sound "ext" IsEnd.completed_end refl
