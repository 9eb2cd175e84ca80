-- ===== src/Worker/Terminal.antt =====
-- Every run ends with a terminal status.

use mathlib.Core.Path.{subst}
use text.Mathlib.TextPositions.{eq_refl}
use data_nexus.Prelude.{
  ℕ, ◌≤◌, arith, String, true, false, ◌≡◌, refl, sym, ◌∙◌, some, List, [], ◌∷◌, length, ◌==◌,
  string_eq, Bool-cases, inl, inr,
}
use data_nexus.Config.{Settings}
use data_nexus.Exec.{Result, ok}
use data_nexus.Models.Enums.{ExtractStatus, is_terminal, status_eq}
use data_nexus.Platform.{Platform}
use data_nexus.Storage.Rows.{ExtractRow, FileInfo, Storage}
use data_nexus.Storage.Extracts.{Changes, apply_changes, get_extract, update_extract}
use data_nexus.Storage.Lookup.{get_extract-key, get_extract-update}
use data_nexus.Service.{Schedule, Service, now}
use data_nexus.Prelude.Numbers.{ℤ}
use data_nexus.Worker.Loops.{AllKeep, keep-funds_loop}
use data_nexus.Worker.Funds.{LoopEnd, Run, Tally, funds_loop, no_tally, save_progress, write_fund}
use data_nexus.Worker.Finalize.{finalize_cancelled, has_expiry, in_calendar, retention_days_of}
use data_nexus.Worker.Process.{
  end_loop, fund_scope_of, process, process_row, run_extract, run_of, start_run,
}
use data_nexus.Worker.Outcome.{
  final_answer, final_status, finalize_status, status_after_fits, status_of,
}

-- The extract is in the database, and its retention leads from every instant of a span into the
-- calendar.
abbrev pub Present : Settings → ℕ → ℕ → String → Storage → Type 0
Present cfg from until id s =
    (row : ExtractRow) × (get_extract id s ≡ some row)
    × (has_expiry cfg row from ≡ true)
    × (has_expiry cfg row until ≡ true)

-- It is so, and the clock is within the span.
abbrev pub Live : Settings → ℕ → ℕ → String → Service → Type 0
Live cfg from until id s = (from ≤ now s) × (now s ≤ until) × Present cfg from until id s.storage

-- The other tasks remove no extract, leave its retention within the calendar, and end within the
-- span.
abbrev pub Keeping : Settings → ℕ → ℕ → String → Schedule → Type 0
Keeping cfg from until id fs = AllKeep (Live cfg from until id) fs

-- What is in the calendar from both ends of a span is so from every instant of it.
in_calendar-between :
    (from t until : ℕ) (days : ℤ)
    → from ≤ t
    → t ≤ until
    → in_calendar from days ≡ true
    → in_calendar until days ≡ true
    → in_calendar t days ≡ true
unfolding in_calendar
in_calendar-between from t until (ℤ.pos n) low high a b = ground arith
in_calendar-between from t until (ℤ.negsuc n) low high a b = ground arith

Present-update :
    (cfg : Settings) (from until t : ℕ) (j id : String) (c : Changes) (s : Storage)
    → Present cfg from until id s
    → Present cfg from until id (update_extract t j c s)
unfolding apply_changes has_expiry
Present-update cfg from until t j id c s (row, found, first, last) = elim (Bool-cases (j == id)) [
  | inl same ↦
      (apply_changes t c row, get_extract-update t j id c s ∙ rw (same, found) refl, first, last)
  | inr other ↦ (row, get_extract-update t j id c s ∙ rw (other, found) refl, first, last)
]

Live-funds_loop :
    (p : Platform) (run : Run) (id : String) (cfg : Settings) (from until total : ℕ)
    (funds : List String) (t : Tally) (fs : Schedule) (s : Service)
    → Live cfg from until id s
    → Keeping cfg from until id fs
    → Live cfg from until id (funds_loop p cfg run total funds t fs s).1
unfolding write_fund save_progress
Live-funds_loop p run id cfg from until total funds t fs s =
    keep-funds_loop p run (Live cfg from until id) (λ fund s v. v)
      (λ fund total t s v.
        let (low, high, there) = v in
        (low, high, Present-update cfg from until _ run.extract_id id _ s.storage there))
      cfg total funds t fs s

-- How a run has ended: without an error, with its extract in a terminal status.
abbrev pub Ended : String → Result (Unit {0}) × Service → Type 0
Ended id (answer, s) =
    (answer ≡ ok tt) × ((st : ExtractStatus) × (status_of id s ≡ some st) × (is_terminal st ≡ true))

final_status-is_terminal :
    (files : List FileInfo) (failed : List String) → is_terminal (final_status files failed) ≡ true
unfolding is_terminal
final_status-is_terminal [] failed = refl
final_status-is_terminal (f ∷ fs) [] = refl
final_status-is_terminal (f ∷ fs) (g ∷ gs) = refl

final_answer_fits : (files : List FileInfo) → final_answer files true ≡ ok tt
final_answer_fits [] = refl
final_answer_fits (f ∷ fs) = refl

finalize_cancelled-status :
    (id : String) (s : Service) {row : ExtractRow}
    → get_extract id s.storage ≡ some row
    → status_of id (finalize_cancelled id s) ≡ some ExtractStatus.cancelled
unfolding finalize_cancelled apply_changes
finalize_cancelled-status id s found = rw (get_extract-update, eq_refl id, found) refl

Ended-end_loop :
    (e : LoopEnd) (p : Platform) (cfg : Settings) (id run_id : String) (started from until : ℕ)
    (s : Service)
    → Live cfg from until id s
    → Ended id (end_loop e p cfg id run_id started s)
unfolding end_loop has_expiry
Ended-end_loop LoopEnd.cancelled p cfg id run_id started from until s (_, _, (row, found, _, _)) = (
  refl,
  (ExtractStatus.cancelled, finalize_cancelled-status id s found, unfold is_terminal in refl),
)
Ended-end_loop (LoopEnd.finished t) p cfg id run_id started from until s
      (low, high, (row, found, a, b)) =
    let fits : has_expiry cfg row (now s) ≡ true =
      in_calendar-between from (now s) until (retention_days_of cfg row.request.retention_days) low
        high a b in
    let (answer, status) = finalize_status p cfg id run_id started t s found in
    (
      answer ∙ rw fits (final_answer_fits t.files),
      (
        final_status t.files t.funds_failed,
        status ∙ rw fits (status_after_fits t.files t.funds_failed _),
        final_status-is_terminal t.files t.funds_failed,
      ),
    )

Ended-run_extract :
    (p : Platform) (cfg : Settings) (from until : ℕ) (fs : Schedule) (row : ExtractRow)
    (s : Service)
    → Live cfg from until row.extract_id s
    → Keeping cfg from until row.extract_id fs
    → Ended row.extract_id (run_extract p cfg fs row s)
unfolding run_extract start_run
Ended-run_extract p cfg from until fs row s (low, high, present) keeping =
    let scope = fund_scope_of row.request.fund_scope in
    Ended-end_loop
      (funds_loop p cfg (run_of row) (length scope) scope no_tally fs (start_run p row s)).0 p cfg
      row.extract_id _ _ from until _
      (Live-funds_loop p (run_of row) row.extract_id cfg from until (length scope) scope no_tally fs
        (start_run p row s)
        (
          low,
          high,
          Present-update cfg from until _ row.extract_id row.extract_id _ s.storage present,
        )
        keeping)

-- `_process` of an extract that is in the database and not cancelled raises nothing, and leaves the
-- extract in a terminal status, whatever the other tasks do while it waits and however the source
-- behaves, when its retention leads into the calendar from all of the span in which it runs: the
-- other tasks remove no extract, keep its retention so, and the clock stays in the span.
pub process_ends :
    (p : Platform) (cfg : Settings) (from until : ℕ) (fs : Schedule) (id : String) (s : Service)
    {row : ExtractRow}
    → get_extract id s.storage ≡ some row
    → (row.status == ExtractStatus.cancelled) ≡ false
    → Live cfg from until id s
    → Keeping cfg from until id fs
    → Ended id (process p cfg fs id s)
unfolding process process_row
process_ends p cfg from until fs id s {row} found open_row live keeping =
    let key = get_extract-key id s.storage found in
    rw (found, open_row)
      (subst (λ j. Ended j (run_extract p cfg fs row s)) key
        (Ended-run_extract p cfg from until fs row s
          (subst (λ j. Live cfg from until j s) (sym key) live)
          (subst (λ j. Keeping cfg from until j fs) (sym key) keeping)))
