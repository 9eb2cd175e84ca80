-- ===== src/Worker/Process.antt =====
-- extract_service/worker.py: `_process`, the run of one extract, and `_run`, which takes a job and
-- survives an exception of it.
use data_nexus.Prelude.{
  ℕ, String, Bool, true, false, Option, none, some, List, [], ◌∷◌, length, get_or, ◌==◌, string_eq,
  if◌then◌else◌,
}
use data_nexus.Prelude.Text.{concat, last4}
use data_nexus.Config.{Settings}
use data_nexus.Errors.{ExtractError}
use data_nexus.Exec.{Exec, ok, err}
use data_nexus.Models.Enums.{ErrorCode, ExtractStatus, status_eq}
use data_nexus.Platform.{Platform}
use data_nexus.Storage.Rows.{ExtractRow, FileInfo, StateJson}
use data_nexus.Storage.Extracts.{get_extract, no_changes, update_extract}
use data_nexus.Service.{Job, Schedule, Service, now, on_storage, on_worker}
use data_nexus.Worker.Funds.{LoopEnd, Run, Tally, funds_loop, no_tally}
use data_nexus.Worker.Finalize.{
  finalize_cancelled, finalize_completed, finalize_failed, finalize_partial,
}

unfoldable pub make_run_id : Platform → ℕ → String → String
make_run_id p t id = concat ("run_" ∷ p.strftime t ∷ "_" ∷ last4 id ∷ [])

-- `request.get("fund_scope") or ["fund_default"]`
unfoldable pub fund_scope_of : Option (List String) → List String
fund_scope_of none = "fund_default" ∷ []
fund_scope_of (some []) = "fund_default" ∷ []
fund_scope_of (some (f ∷ fs)) = f ∷ fs

unfoldable pub start_run : Platform → ExtractRow → Service → Service
start_run p row s =
    on_storage
      (update_extract (now s) row.extract_id (record no_changes {
        status = some ExtractStatus.running;
        run_id = some (make_run_id p (now s) row.extract_id);
        state = some (
            StateJson.progress (record {
              funds_completed = 0;
              funds_total = length (get_or row.request.fund_scope []);
              percent = 0;
              current_fund = none;
            }));
      }))
      s

-- The code that a run without files reports.
abbrev failure_code : Bool → ErrorCode
failure_code true = ErrorCode.source_timeout
failure_code false = ErrorCode.source_unavailable

-- What `_process` does after its loop, by the files and the failed funds.
unfoldable pub finalize_by :
    List FileInfo
    → List String
    → Platform
    → Settings
    → ExtractRow
    → String
    → ℕ
    → Tally
    → Exec Service (Unit {0})
finalize_by [] failed p cfg row run_id started t s = (
  ok tt,
  finalize_failed p row (record { funds_completed = t.funds_completed; funds_failed = failed })
      (failure_code s.worker.source_outage) "All partitions failed after retries" t.attempts s,
)
finalize_by (f ∷ fs) [] p cfg row run_id started t s =
    finalize_completed p cfg row run_id f fs started s
finalize_by (f ∷ fs) (g ∷ gs) p cfg row run_id started t s =
    finalize_partial p cfg row run_id
      (record { funds_completed = t.funds_completed; funds_failed = g ∷ gs }) (f ∷ fs) started
      t.attempts s

unfoldable pub finalize_row :
    Option ExtractRow → Platform → Settings → String → ℕ → Tally → Exec Service (Unit {0})
unfolding finalize_by
finalize_row none p cfg run_id started t s = (err ExtractError.assertion, s)
finalize_row (some row) p cfg run_id started t s =
    finalize_by t.files t.funds_failed p cfg row run_id started t s

-- The finalizations read the row again, and assert that it is there.
unfoldable pub finalize :
    Platform → Settings → String → String → ℕ → Tally → Exec Service (Unit {0})
unfolding finalize_row
finalize p cfg id run_id started t s =
    finalize_row (get_extract id s.storage) p cfg run_id started t s

unfoldable pub end_loop :
    LoopEnd → Platform → Settings → String → String → ℕ → Exec Service (Unit {0})
unfolding finalize
end_loop LoopEnd.cancelled p cfg id run_id started s = (ok tt, finalize_cancelled id s)
end_loop (LoopEnd.finished t) p cfg id run_id started s = finalize p cfg id run_id started t s

abbrev pub run_of : ExtractRow → Run
run_of row = record { extract_id = row.extract_id; domain = row.domain; request = row.request }

-- `_process` on a row that is there and not cancelled
unfoldable pub run_extract : Platform → Settings → Schedule → ExtractRow → Exec Service (Unit {0})
unfolding start_run end_loop
run_extract p cfg fs row s =
    let s₁ = start_run p row s in
    let scope = fund_scope_of row.request.fund_scope in
    let (ended, s₂) = funds_loop p cfg (run_of row) (length scope) scope no_tally fs s₁ in
    end_loop ended p cfg row.extract_id (make_run_id p (now s) row.extract_id) (now s) s₂

unfoldable pub process_row :
    Option ExtractRow → Platform → Settings → Schedule → Exec Service (Unit {0})
unfolding run_extract
process_row none p cfg fs s = (ok tt, s)
process_row (some row) p cfg fs s =
    if row.status == ExtractStatus.cancelled then (ok tt, s) else run_extract p cfg fs row s

-- `_process`
unfoldable pub process : Platform → Settings → Schedule → String → Exec Service (Unit {0})
unfolding process_row
process p cfg fs id s = process_row (get_extract id s.storage) p cfg fs s

unfoldable pub run_job : List Job → Platform → Settings → Schedule → Service → Service
unfolding process
run_job [] p cfg fs s = s
run_job (j ∷ q) p cfg fs s =
    (process p cfg fs j.extract_id (on_worker (λ w. record w { queue = q }) s)).1

-- A round of `_run` that finds the worker unpaused: an exception of `_process` is logged.
unfoldable pub run_next : Platform → Settings → Schedule → Service → Service
unfolding run_job
run_next p cfg fs s = run_job s.worker.queue p cfg fs s
