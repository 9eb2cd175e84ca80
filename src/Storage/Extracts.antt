-- ===== src/Storage/Extracts.antt =====
-- Extracts and idempotency keys of class `Storage`.
use data_nexus.Prelude.{
  ℕ, ◌-◌, ◌+◌, String, Bool, true, false, ◌&&◌, ◌||◌, Option, none, some, List, [], ◌∷◌, ◌++◌, ◌==◌,
  string_eq, nat_eq, if◌then◌else◌, leb, find, filter, any, length, get_or,
}
use data_nexus.Errors.{ExtractError}
use data_nexus.Exec.{ok, err, Exec}
use data_nexus.Config.{Settings, days}
use data_nexus.Models.Enums.{ExtractStatus, Priority, status_eq}
use data_nexus.Models.Request.{CreateExtractRequest}
use data_nexus.Storage.Rows.{ExtractRow, IdempotencyRow, StateJson, Storage}

abbrev pub has_key : String → String → IdempotencyRow → Bool
has_key app key r = r.app_id == app && r.key == key

-- The row counts only while it is younger than the time to live.
unfoldable pub lookup_idempotency : Settings → ℕ → String → String → Storage → Option IdempotencyRow
lookup_idempotency cfg now app key s =
    find (λ r. has_key app key r && leb (now - days cfg.idempotency_key_ttl_days) r.created_at)
      s.idempotency

-- `PRIMARY KEY (key, app_id)`: a second row for the pair raises `IntegrityError`.
unfoldable pub record_idempotency : ℕ → String → String → String → String → Exec Storage (Unit {0})
record_idempotency now app key extract_id fingerprint s =
    if any (has_key app key) s.idempotency
    then (err (ExtractError.integrity "idempotency"), s)
    else (
      ok tt,
      record s {
        idempotency =
            s.idempotency
            ++ record {
              key = key;
              app_id = app;
              extract_id = extract_id;
              request_fingerprint = fingerprint;
              created_at = now;
            }
              ∷ [];
      },
    )

unfoldable pub get_extract : String → Storage → Option ExtractRow
get_extract id s = find (λ r. r.extract_id == id) s.extracts

-- The arguments of `create_extract` beside the clock.
pub record NewExtract : Type 0 where
  pub extract_id : String
  pub idempotency_key : String
  pub app_id : String
  pub domain : String
  pub priority : Priority
  pub request : CreateExtractRequest
  pub state : StateJson

unfoldable pub new_row : ℕ → NewExtract → ExtractRow
new_row now x = record {
  extract_id = x.extract_id;
  idempotency_key = x.idempotency_key;
  app_id = x.app_id;
  domain = x.domain;
  status = ExtractStatus.accepted;
  request = x.request;
  state = x.state;
  created_at = now;
  updated_at = now;
  completed_at = none;
  cancelled_at = none;
  expires_at = none;
  run_id = none;
  priority = x.priority;
  expiring_event_sent = false;
}

-- `extract_id TEXT PRIMARY KEY`
unfoldable pub create_extract : ℕ → NewExtract → Exec Storage (Unit {0})
unfolding new_row
create_extract now x s =
    if any (λ r. r.extract_id == x.extract_id) s.extracts
    then (err (ExtractError.integrity "extracts"), s)
    else (ok tt, record s { extracts = s.extracts ++ new_row now x ∷ [] })

-- The keyword arguments of `update_extract`; `none` leaves a column alone.
pub record Changes : Type 0 where
  pub status : Option ExtractStatus
  pub state : Option StateJson
  pub completed_at : Option ℕ
  pub cancelled_at : Option ℕ
  pub expires_at : Option ℕ
  pub run_id : Option String
  pub expiring_event_sent : Option Bool

abbrev pub no_changes : Changes
no_changes = record {
  status = none;
  state = none;
  completed_at = none;
  cancelled_at = none;
  expires_at = none;
  run_id = none;
  expiring_event_sent = none;
}

abbrev pub or_else {ℓ} : {A : Type ℓ} → Option A → Option A → Option A
or_else none o = o
or_else (some a) o = some a

-- The assignments of the `UPDATE` statement to one row.
unfoldable pub apply_changes : ℕ → Changes → ExtractRow → ExtractRow
apply_changes now c r = record r {
  status = get_or c.status r.status;
  state = get_or c.state r.state;
  completed_at = or_else c.completed_at r.completed_at;
  cancelled_at = or_else c.cancelled_at r.cancelled_at;
  expires_at = or_else c.expires_at r.expires_at;
  run_id = or_else c.run_id r.run_id;
  expiring_event_sent = get_or c.expiring_event_sent r.expiring_event_sent;
  updated_at = now;
}

-- `UPDATE extracts SET … WHERE extract_id=?`
unfoldable pub update_rows : String → (ExtractRow → ExtractRow) → List ExtractRow → List ExtractRow
update_rows id f [] = []
update_rows id f (r ∷ rows) = (if r.extract_id == id then f r else r) ∷ update_rows id f rows

unfoldable pub update_extract : ℕ → String → Changes → Storage → Storage
unfolding update_rows apply_changes
update_extract now id c s = record s { extracts = update_rows id (apply_changes now c) s.extracts }

abbrev pub is_active : ExtractStatus → Bool
is_active st = st == ExtractStatus.accepted || st == ExtractStatus.running

unfoldable pub count_active_extracts : String → Storage → ℕ
count_active_extracts app s =
    length (filter (λ r. r.app_id == app && is_active r.status) s.extracts)

abbrev pub due : ℕ → Option ℕ → Bool
due limit none = false
due limit (some t) = leb t limit

unfoldable pub find_expiring : ℕ → ℕ → Storage → List ExtractRow
find_expiring now warn_window s =
    filter
      (λ r.
        r.status == ExtractStatus.completed
        && (if r.expiring_event_sent then false else true)
        && due (now + warn_window) r.expires_at)
      s.extracts

unfoldable pub find_expired : ℕ → Storage → List ExtractRow
find_expired now s =
    filter
      (λ r.
        (r.status == ExtractStatus.completed || r.status == ExtractStatus.partial)
        && due now r.expires_at)
      s.extracts
