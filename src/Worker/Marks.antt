-- ===== src/Worker/Marks.antt =====
-- The mark of a cancellation, which a run and the other tasks keep until it is observed.
use text.Mathlib.TextPositions.{eq_refl}
use data_nexus.Prelude.{
  ℕ, String, true, false, not, ◌≡◌, refl, ◌∙◌, some, List, [], ◌∷◌, filter, contains, ◌==◌,
  string_eq, eq_iff, arith, Bool-cases, inl, inr,
}
use data_nexus.Models.Enums.{ExtractStatus}
use data_nexus.Platform.{Platform}
use data_nexus.Storage.Rows.{ExtractRow}
use data_nexus.Storage.Apps.{audit}
use data_nexus.Storage.Extracts.{Changes, apply_changes, get_extract, no_changes, update_extract}
use data_nexus.Storage.Lookup.{get_extract-update}
use data_nexus.Service.{Schedule, Service, now, on_storage, on_worker}
use data_nexus.Worker.Queue.{cancel}
use data_nexus.Worker.Loops.{AllKeep, keep-fund_from}
use data_nexus.Worker.Funds.{Run, Tally, fund_from, save_progress, write_fund}
use data_nexus.Worker.Finalize.{finalize_cancelled}
use data_nexus.Worker.Outcome.{status_of}
use data_nexus.Api.Cancel.{mark_cancelled}

contains_self : (id : String) (l : List String) → contains id (id ∷ l) ≡ true
contains_self id l = ground (arith, eq_iff id id)

cancel-contains :
    (app id : String) (s : Service)
    → contains id (mark_cancelled app id s).worker.cancellations ≡ true
unfolding mark_cancelled cancel
cancel-contains app id s = elim (Bool-cases (contains id s.worker.cancellations)) [
  | inl e ↦ rw (e, e) refl
  | inr e ↦ rw e (contains_self id s.worker.cancellations)
]

pub contains-discard :
    (id : String) (l : List String) → contains id (filter (λ j. not (j == id)) l) ≡ false
contains-discard id [] = refl
contains-discard id (x ∷ l) = ground (arith, contains-discard id l, eq_iff x id, eq_iff id x)

-- The extract is there, and the mark of its cancellation is set.
abbrev pub Marked : String → Service → Type 0
Marked id s =
    ((row : ExtractRow) × (get_extract id s.storage ≡ some row))
    × (contains id s.worker.cancellations ≡ true)

Marked-update :
    (t : ℕ) (j id : String) (c : Changes) (s : Service)
    → Marked id s
    → Marked id (on_storage (update_extract t j c) s)
Marked-update t j id c s ((row, found), mark) = elim (Bool-cases (j == id)) [
  | inl same ↦
      ((apply_changes t c row, get_extract-update t j id c s.storage ∙ rw (same, found) refl), mark)
  | inr other ↦ ((row, get_extract-update t j id c s.storage ∙ rw (other, found) refl), mark)
]

pub mark_cancelled-Marked :
    (app id : String) (s : Service) {row : ExtractRow}
    → get_extract id s.storage ≡ some row
    → Marked id (mark_cancelled app id s)
unfolding mark_cancelled audit get_extract
mark_cancelled-Marked app id s {row} found =
    Marked-update (now s) id id
      (record no_changes { status = some ExtractStatus.cancelled; cancelled_at = some (now s) })
      (on_worker (cancel id) s) ((row, found), cancel-contains app id s)

-- The row that the handler leaves.
abbrev marked : ℕ → ExtractRow → ExtractRow
marked t row =
    apply_changes t
      (record no_changes { status = some ExtractStatus.cancelled; cancelled_at = some t }) row

mark_cancelled-row :
    (app id : String) (s : Service) {row : ExtractRow}
    → get_extract id s.storage ≡ some row
    → get_extract id (mark_cancelled app id s).storage ≡ some (marked (now s) row)
unfolding mark_cancelled audit get_extract
mark_cancelled-row app id s found =
    get_extract-update (now s) id id _ s.storage ∙ rw (found, eq_refl id) refl

pub mark_cancelled-status :
    (app id : String) (s : Service) {row : ExtractRow}
    → get_extract id s.storage ≡ some row
    → status_of id (mark_cancelled app id s) ≡ some ExtractStatus.cancelled
unfolding apply_changes
mark_cancelled-status app id s found = rw (mark_cancelled-row app id s found) refl

module _ (p : Platform) (run : Run) where
  Marked-write :
      (fund : String) (s : Service)
      → Marked run.extract_id s
      → Marked run.extract_id (write_fund p run fund s).1
  unfolding write_fund
  Marked-write fund s v = v

  pub Marked-save :
      (fund : String) (total : ℕ) (t : Tally) (s : Service)
      → Marked run.extract_id s
      → Marked run.extract_id (save_progress run.extract_id fund total t s)
  unfolding save_progress
  Marked-save fund total t s v = Marked-update _ run.extract_id run.extract_id _ s v

  pub Marked-after :
      (left : ℕ) (fund : String) (fs : Schedule) (s : Service)
      → Marked run.extract_id s
      → AllKeep (Marked run.extract_id) fs
      → let r = fund_from p run left 1 fund fs s in
        Marked run.extract_id r.service × AllKeep (Marked run.extract_id) r.rest
  Marked-after left fund fs s v others =
      keep-fund_from p run (Marked run.extract_id) Marked-write Marked-save left 1 fund fs s v
        others

pub finalize_cancelled_status :
    (id : String) (s : Service)
    → Marked id s
    → status_of id (finalize_cancelled id s) ≡ some ExtractStatus.cancelled
unfolding finalize_cancelled apply_changes
finalize_cancelled_status id s ((row, found), mark) =
    rw (get_extract-update, eq_refl id, found) refl
