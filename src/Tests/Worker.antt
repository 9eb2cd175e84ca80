-- ===== src/Tests/Worker.antt =====
-- Runs of an extract of two funds, and a queue.
use data_nexus.Prelude.{
  ℕ, ◌<◌, arith, String, true, false, ◌≡◌, ◌≢◌, refl, none, some, List, [], ◌∷◌, string_eq,
}
use data_nexus.Prelude.Lists.{All}
use data_nexus.Prelude.Dict.{lookup}
use data_nexus.Prelude.Text.{concat}
use data_nexus.Config.{default_settings}
use data_nexus.Exec.{ok}
use data_nexus.Models.Enums.{ExtractStatus, status_eq}
use data_nexus.Storage.Rows.{ExtractRow, FileInfo, StateJson}
use data_nexus.Storage.Extracts.{apply_changes, update_extract, get_extract}
use data_nexus.ObjectStore.Files.{
  extension, file_path, find_published, partition_name, staged, write_partition,
}
use data_nexus.Service.{Job, Service}
use data_nexus.Api.Cancel.{mark_cancelled}
use data_nexus.Worker.Queue.{cancel, enqueue, priority_weight}
use data_nexus.Worker.Funds.{
  LoopEnd, Run, Tally, fund_from, funds_loop, no_tally, percent, save_progress, write_fund,
  add_result, sleep,
}
use data_nexus.Worker.Process.{finalize, process, run_of}
use mathlib.Core.List.{Perm}
use data_nexus.Prelude.Numbers.{ℤ}
use data_nexus.Worker.Finalize.{has_expiry}
use data_nexus.Worker.Priorities.{IsOrdered, enqueue_in_order, job_for}
use data_nexus.Models.Enums.{Priority}
use data_nexus.Storage.Apps.{audit}
use data_nexus.Worker.Accounts.{Handled, funds_loop-Handled}
use data_nexus.Worker.Outcome.{finalize_status, status_of}
use data_nexus.Worker.Races.{cancel_lost, rest_of_run}
use data_nexus.Worker.Terminal.{Ended, Live, process_ends}
use data_nexus.Worker.Written.{Intact}
use data_nexus.Worker.Publication.{run_publishes}
use data_nexus.Tests.Data.{busy, platform, running_row}

abbrev funds : List String
funds = "f1" ∷ "f2" ∷ []

abbrev run : Run
run = run_of running_row

busy-Live : Live default_settings 2000000 2000000 "ext" busy
unfolding get_extract has_expiry
busy-Live = (omega arith, omega arith, (running_row, refl, refl, refl))

process_ends_example : Ended "ext" (process platform default_settings [] "ext" busy)
unfolding get_extract
process_ends_example =
    process_ends platform default_settings 2000000 2000000 [] "ext" busy {row = running_row} refl
      refl busy-Live tt

-- A service whose source is out.
abbrev outage : Service
outage = record busy {
  worker = record {
    queue = [];
    cancellations = [];
    source_outage = true;
    partial_failure = [];
    paused = false;
  };
}

abbrev two_failures : Tally
two_failures = record {
  funds_completed = [];
  funds_failed = "f1" ∷ "f2" ∷ [];
  files = [];
  attempts = 6;
}

-- The third fund is in neither list: two funds used up the five attempts.
funds_loop-Handled_example :
    Handled default_settings ("f1" ∷ "f2" ∷ "f3" ∷ []) no_tally two_failures
unfolding funds_loop fund_from add_result save_progress
funds_loop-Handled_example =
    funds_loop-Handled platform default_settings run 3 ("f1" ∷ "f2" ∷ "f3" ∷ []) no_tally [] outage
      {t' = two_failures} refl

finalize_status_example :
    ((finalize platform default_settings "ext" "run" 0 two_failures busy).0 ≡ ok tt)
    × (status_of "ext" (finalize platform default_settings "ext" "run" 0 two_failures busy).1
        ≡ some ExtractStatus.failed)
unfolding get_extract
finalize_status_example =
    finalize_status platform default_settings "ext" "run" 0 two_failures busy {row = running_row}
      refl

-- A retention of four million days leads out of the calendar.
abbrev far_row : ExtractRow
far_row = record running_row {
  request = record running_row.request { retention_days = some (ℤ.pos 4000000) };
}

far_row-has_no_expiry : has_expiry default_settings far_row 2000000 ≡ false
unfolding has_expiry
far_row-has_no_expiry = refl

-- The row of the extract after its only fund failed, cancelled in between.
abbrev lost_row : ExtractRow
lost_row = record running_row {
  status = ExtractStatus.cancelled;
  cancelled_at = some 2000000;
  updated_at = 2000000;
  state =
      StateJson.progress
        (record { funds_completed = 0; funds_total = 1; percent = 100; current_fund = some "f2" });
}

cancel_lost_example :
    let fs = mark_cancelled "app" "ext" ∷ [] in
    let s' =
      (rest_of_run platform default_settings run "run" 0 1 ("f2" ∷ []) no_tally fs outage).1 in
    (status_of "ext" (mark_cancelled "app" "ext" outage) ≡ some ExtractStatus.cancelled)
    × ((funds_loop platform default_settings run 1 ("f2" ∷ []) no_tally fs outage).0
        ≡ LoopEnd.finished
            (record { funds_completed = []; funds_failed = "f2" ∷ []; files = []; attempts = 3 }))
    × (status_of "ext" s' ≡ some ExtractStatus.failed)
    × (ExtractStatus.failed ≢ ExtractStatus.cancelled)
unfolding get_extract has_expiry funds_loop fund_from add_result save_progress percent
    mark_cancelled update_extract apply_changes sleep audit cancel
cancel_lost_example =
    cancel_lost platform default_settings run "run" "app" "f2" 0 1 2 no_tally [] outage
      {row = running_row} refl refl refl refl tt {last = lost_row} refl refl

abbrev job : ℕ → String → Job
job n id = record { priority = n; enqueued_at = 0; extract_id = id }

abbrev queued : Service
queued = record busy { worker = record busy.worker { queue = job 1 "a" ∷ [] } }

enqueue_in_order_example :
    let s' = enqueue "b" Priority.high queued in
    IsOrdered s'.worker.queue
    × Perm s'.worker.queue (job_for "b" Priority.high queued ∷ job 1 "a" ∷ [])
    × (priority_weight Priority.high < priority_weight Priority.normal)
    × (priority_weight Priority.normal < priority_weight Priority.low)
    × (s'.storage ≡ busy.storage)
    × (s'.store ≡ busy.store)
    × (s'.bus ≡ busy.bus)
enqueue_in_order_example = enqueue_in_order "b" Priority.high queued (tt, tt)

-- The entry of the file of a fund.
abbrev entry : String → FileInfo
entry fund = (write_fund platform run fund busy).0

abbrev two_files : Tally
two_files = record {
  funds_completed = funds;
  funds_failed = [];
  files = entry "f1" ∷ entry "f2" ∷ [];
  attempts = 2;
}

two_files-ends :
    (funds_loop platform default_settings run 2 funds no_tally [] busy).0
    ≡ LoopEnd.finished two_files
unfolding funds_loop fund_from add_result write_fund write_partition lookup save_progress
two_files-ends = refl

-- The row of the extract after its second fund.
abbrev last_row : ExtractRow
last_row = record running_row {
  state =
      StateJson.progress
        (record { funds_completed = 2; funds_total = 2; percent = 100; current_fund = some "f2" });
  updated_at = 2000000;
}

run_publishes_example :
    let s' = (rest_of_run platform default_settings run "run" 0 2 funds no_tally [] busy).1 in
    All (Intact platform run (λ name. file_path "ext" "gl" name s'.store)) two_files.files
    × (staged "ext" s'.store ≡ none)
unfolding funds_loop fund_from find_published get_extract write_fund write_partition lookup
    save_progress add_result has_expiry partition_name extension concat update_extract apply_changes
    percent
run_publishes_example =
    run_publishes platform default_settings run "run" 0 2 funds [] busy {t = two_files}
      {row = last_row} tt two_files-ends refl ((refl, refl), ((refl, refl), tt)) refl refl refl
