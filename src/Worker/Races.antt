-- ===== src/Worker/Races.antt =====
-- A cancellation that arrives while its extract runs: between two funds, and after the last one.

use data_nexus.Prelude.{
  ℕ, suc, String, true, false, ◌≡◌, ◌≢◌, refl, ◌∙◌, some, List, [], ◌∷◌, contains, string_eq, arith,
}
use data_nexus.Config.{Settings}
use data_nexus.Exec.{Result}
use data_nexus.Models.Enums.{ExtractStatus}
use data_nexus.Platform.{Platform}
use data_nexus.Storage.Rows.{ExtractRow, FileInfo}
use data_nexus.Storage.Extracts.{get_extract}
use data_nexus.Service.{Schedule, Service, now}
use data_nexus.Worker.Loops.{AllKeep}
use data_nexus.Worker.Funds.{
  FundResult, LoopEnd, Run, Tally, add_result, fund_from, funds_loop, save_progress, sleep,
  attempt_fails,
}
use data_nexus.Worker.Finalize.{has_expiry}
use data_nexus.Worker.Process.{end_loop}
use data_nexus.Worker.Outcome.{final_status, finalize_status, status_after_fits, status_of}
use data_nexus.Api.Cancel.{mark_cancelled}
use data_nexus.Worker.Marks.{Marked, mark_cancelled-status}

-- The rest of a run, from the test at the top of its loop on.
abbrev pub rest_of_run :
    Platform
    → Settings
    → Run
    → String
    → ℕ
    → ℕ
    → List String
    → Tally
    → Schedule
    → Service
    → Result (Unit {0}) × Service
rest_of_run p cfg run run_id started total funds t fs s =
    let (ended, s') = funds_loop p cfg run total funds t fs s in
    end_loop ended p cfg run.extract_id run_id started s'

final_status-cancelled :
    (files : List FileInfo) (failed : List String)
    → final_status files failed ≢ ExtractStatus.cancelled
final_status-cancelled [] failed = λ e. cc
final_status-cancelled (f ∷ fs) [] = λ e. cc
final_status-cancelled (f ∷ fs) (g ∷ gs) = λ e. cc

-- A run whose next fund fails at its first attempt, and a cancellation in the wait after it. The
-- other tasks keep the extract and the mark in the waits that follow.
module _ (p : Platform) (cfg : Settings) (run : Run) (run_id app fund : String)
    (started total left : ℕ) (t : Tally) (fs : Schedule) (s : Service) {row : ExtractRow}
    (present : get_extract run.extract_id s.storage ≡ some row)
    (unmarked : contains run.extract_id s.worker.cancellations ≡ false)
    (attempts : cfg.worker_max_attempts_per_fund ≡ suc left)
    (fails : attempt_fails p run fund s ≡ true) (others : AllKeep (Marked run.extract_id) fs) where
  abbrev cancelling : Schedule
  cancelling = mark_cancelled app run.extract_id ∷ fs

  -- What the fund ends with.
  abbrev result : FundResult
  result = fund_from p run left 1 fund fs (mark_cancelled app run.extract_id s)

  first_wait : fund_from p run cfg.worker_max_attempts_per_fund 0 fund cancelling s ≡ result
  unfolding fund_from sleep
  first_wait = rw (attempts, fails) refl

  abbrev tally : Tally
  tally = add_result fund result t

  -- The state at the test before the fund after that.
  abbrev observed : Service
  observed = save_progress run.extract_id fund total tally result.service

  loop_ends : (funds_loop p cfg run total (fund ∷ []) t cancelling s).0 ≡ LoopEnd.finished tally
  unfolding funds_loop
  loop_ends = rw (unmarked, first_wait) (ground arith)

  -- A cancellation that arrives in a wait of the last fund of a run is lost: the handler has marked
  -- the extract CANCELLED, and the finalization of the run stores the status that its lists call
  -- for, which is another one, where the expiry is before the year 10000.
  pub cancel_lost :
      {last : ExtractRow}
      → let (ended, s₁) = funds_loop p cfg run total (fund ∷ []) t cancelling s in
        let s' = (rest_of_run p cfg run run_id started total (fund ∷ []) t cancelling s).1 in
        (get_extract run.extract_id s₁.storage ≡ some last)
        → has_expiry cfg last (now s₁) ≡ true
        → (status_of run.extract_id (mark_cancelled app run.extract_id s)
            ≡ some ExtractStatus.cancelled)
          × (ended ≡ LoopEnd.finished tally)
          × (status_of run.extract_id s' ≡ some (final_status tally.files tally.funds_failed))
          × (final_status tally.files tally.funds_failed ≢ ExtractStatus.cancelled)
  unfolding end_loop
  cancel_lost {last} found fits =
      let s₁ = (funds_loop p cfg run total (fund ∷ []) t cancelling s).1 in
      let ends = loop_ends in
      (
        mark_cancelled-status app run.extract_id s present,
        ends,
        rw ends (
            (finalize_status p cfg run.extract_id run_id started tally s₁ found).1
            ∙ rw fits (status_after_fits tally.files tally.funds_failed _)),
        final_status-cancelled tally.files tally.funds_failed,
      )
