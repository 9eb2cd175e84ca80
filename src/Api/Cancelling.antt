-- ===== src/Api/Cancelling.antt =====
-- What the handler `cancel_extract` does: to whom, and how often.

use text.Mathlib.TextPositions.{eq_refl}
use data_nexus.Prelude.{
  Bool-cases, Option-cases, inl, inr, eq_iff, ℕ, String, true, false, ◌≡◌, refl, ap, ◌∙◌, some,
  ◌==◌, string_eq, get_or,
}
use data_nexus.Exec.{Result, ok}
use data_nexus.Models.Enums.{ExtractStatus, is_terminal}
use data_nexus.Storage.Rows.{ExtractRow, Storage}
use data_nexus.Storage.Apps.{audit}
use data_nexus.Storage.Extracts.{apply_changes, get_extract, no_changes}
use data_nexus.Storage.Lookup.{get_extract-update}
use data_nexus.Service.{Service, now}
use data_nexus.Api.Cancel.{CancelResponse, cancel_row, mark_cancelled, owned}

-- The body of `cancel_extract` after the rate limit.
abbrev pub cancel_body : String → String → Service → Result CancelResponse × Service
cancel_body app id s = cancel_row app id (owned app (get_extract id s.storage)) s

-- The row that a cancellation leaves.
abbrev pub cancelled_row : ℕ → ExtractRow → ExtractRow
cancelled_row t row = record row {
  status = ExtractStatus.cancelled;
  cancelled_at = some t;
  updated_at = t;
}

mark_cancelled-row :
    (app id : String) (s : Service) {row : ExtractRow}
    → get_extract id s.storage ≡ some row
    → get_extract id (mark_cancelled app id s).storage ≡ some (cancelled_row (now s) row)
unfolding mark_cancelled audit get_extract apply_changes
mark_cancelled-row app id s {row} found =
    rw
      (
        get_extract-update (now s) id id
            (record no_changes {
              status = some ExtractStatus.cancelled;
              cancelled_at = some (now s);
            })
            s.storage,
        found,
        eq_refl id,
      )
      refl

abbrev pub answer_of : (app id : String) → ExtractStatus → ℕ → Result CancelResponse
answer_of app id status t =
    ok (record { extract_id = id; status = status; cancelled_at = t; cancelled_by = app })

cancel_own :
    (app id : String) (s : Service) {row : ExtractRow}
    → get_extract id s.storage ≡ some row
    → (row.app_id == app) ≡ true
    → is_terminal row.status ≡ false
    → cancel_body app id s
      ≡ (answer_of app id ExtractStatus.cancelled (now s), mark_cancelled app id s)
unfolding cancel_row owned
cancel_own app id s found mine running = rw (found, mine, running) refl

-- An extract of the application's own that has ended is left as it is, and the answer tells its
-- status.
pub cancel_ended :
    (app id : String) (s : Service) {row : ExtractRow}
    → get_extract id s.storage ≡ some row
    → (row.app_id == app) ≡ true
    → is_terminal row.status ≡ true
    → cancel_body app id s ≡ (answer_of app id row.status (get_or row.cancelled_at (now s)), s)
unfolding cancel_row owned
cancel_ended app id s found mine ended = rw (found, mine, ended) refl

-- An application that cancels an extract of its own that has not ended, and cancels it again
-- later, is answered CANCELLED both times, with the same instant, and the second request changes
-- nothing. Between the two, other tasks may do what leaves the row alone.
pub cancel_twice :
    (app id : String) (s later : Service) {row : ExtractRow}
    → get_extract id s.storage ≡ some row
    → (row.app_id == app) ≡ true
    → is_terminal row.status ≡ false
    → get_extract id later.storage ≡ get_extract id (cancel_body app id s).1.storage
    → ((cancel_body app id s).0 ≡ answer_of app id ExtractStatus.cancelled (now s))
      × (cancel_body app id later ≡ (answer_of app id ExtractStatus.cancelled (now s), later))
unfolding is_terminal
cancel_twice app id s later {row} found mine running kept =
    let first = cancel_own app id s found mine running in
    let row_later : get_extract id later.storage ≡ some (cancelled_row (now s) row) =
      kept ∙ (ap (λ r. get_extract id r.1.storage) first ∙ mark_cancelled-row app id s found) in
    (ap (λ r. r.0) first, cancel_ended app id later row_later mine refl)

mark_cancelled-others :
    (app id other : String) (s : Service) {row : ExtractRow}
    → get_extract other s.storage ≡ some row
    → (id == other) ≡ false
    → get_extract other (mark_cancelled app id s).storage ≡ some row
unfolding mark_cancelled audit get_extract
mark_cancelled-others app id other s found differs =
    get_extract-update (now s) id other _ s.storage ∙ rw differs found

-- Extracts of which one is the application's and the other is not have different identifiers.
distinct :
    (app id other : String) (s : Storage) {mine row : ExtractRow}
    → get_extract id s ≡ some mine
    → (mine.app_id == app) ≡ true
    → get_extract other s ≡ some row
    → (row.app_id == app) ≡ false
    → (id == other) ≡ false
distinct app id other s present own found foreign = elim (Bool-cases (id == other)) [
  | inl same ↦ let p = (eq_iff id other).0 same in cc
  | inr differs ↦ differs
]

-- Whatever extract an application asks to cancel, the extracts of other applications stay as they
-- are.
pub cancel_others :
    (app id other : String) (s : Service) {row : ExtractRow}
    → get_extract other s.storage ≡ some row
    → (row.app_id == app) ≡ false
    → get_extract other (cancel_body app id s).1.storage ≡ some row
cancel_others app id other s {row} found foreign = elim (Option-cases (get_extract id s.storage)) [
  | inl absent ↦ unfold cancel_row owned in rw absent found
  | inr (mine, present) ↦ elim (Bool-cases (mine.app_id == app)) [
    | inr not_mine ↦ unfold cancel_row owned in rw (present, not_mine) found
    | inl own ↦ elim (Bool-cases (is_terminal mine.status)) [
      | inl ended ↦ unfold cancel_row owned in rw (present, own, ended) found
      | inr running ↦ rw (cancel_own app id s present own running) (
          mark_cancelled-others app id other s found
            (distinct app id other s.storage present own found foreign))
    ]
  ]
]
