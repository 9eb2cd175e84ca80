-- ===== src/Api/Create.antt =====
-- extract_service/main.py: `_validate_request` and the handler `create_extract`.
use data_nexus.Prelude.{
  ℕ, ◌+◌, ◌-◌, ◌*◌, String, Bool, true, false, not, Option, none, some, List, [], ◌∷◌, length, ◌==◌,
  string_eq, ltb, leb, if◌then◌else◌,
}
use data_nexus.Prelude.Text.{concat}
use data_nexus.Config.{Settings}
use data_nexus.Errors.{ExtractError}
use data_nexus.Exec.{Exec, Result, ok, err, pure, gets, modify, raise_if, ◌>>=◌, ◌>>◌}
use data_nexus.Models.Enums.{ExtractStatus}
use data_nexus.Models.Request.{CreateExtractRequest}
use data_nexus.Platform.{Platform}
use data_nexus.Domains.{DomainDef, get_domain}
use data_nexus.Metrics.{inc}
use data_nexus.Storage.Rows.{ExtractRow, IdempotencyRow, StateJson, Storage}
use data_nexus.Storage.Apps.{audit}
use data_nexus.Storage.Extracts.{
  NewExtract, create_extract, get_extract, lookup_idempotency, record_idempotency,
}
use data_nexus.Auth.Principals.{Principal, check_entitlements}
use data_nexus.Auth.Limiter.{check_concurrent, check_request}
use data_nexus.Service.{Service, now, on_metrics, on_storage}
use data_nexus.Worker.Queue.{enqueue}

-- A storage call inside a handler.
unfoldable pub with_storage : {A : Type 0} → Exec Storage A → Exec Service A
with_storage m s = let (r, st) = m s.storage in (r, record s { storage = st })

abbrev no_domain : Option DomainDef → Bool
no_domain none = true
no_domain (some d) = false

scope_length : Option (List String) → ℕ
scope_length none = 0
scope_length (some funds) = length funds

-- `days / 365.25 > max_period_years`, over whole numbers
too_long : Settings → CreateExtractRequest → Bool
too_long cfg r = ltb (cfg.max_period_years * 36525) ((r.period.end - r.period.start) * 100)

-- `_validate_request`
unfoldable pub validate_request : Settings → CreateExtractRequest → Result (Unit {0})
unfolding too_long scope_length
validate_request cfg r =
    if no_domain (get_domain r.domain)
    then err (ExtractError.validation "unknown domain")
    else if too_long cfg r
    then err (ExtractError.validation "period exceeds the maximum")
    else if ltb cfg.max_fund_scope (scope_length r.fund_scope)
    then err (ExtractError.validation "fund_scope exceeds the maximum")
    else ok tt

-- `_request_fingerprint`
unfoldable pub request_fingerprint : Platform → CreateExtractRequest → String
request_fingerprint p r = p.sha256_text (p.request_json (record r { idempotency_key = "" }))

-- `_make_extract_id`; the suffix is `secrets.token_hex(2)`.
unfoldable pub make_extract_id : Platform → ℕ → String → String
make_extract_id p t suffix = concat ("ext_" ∷ p.strftime t ∷ "_" ∷ suffix ∷ [])

-- `_estimate_duration`, in seconds
unfoldable pub estimate_duration : ℕ → ℕ
estimate_duration n = if leb n 1 then 300 else if leb n 10 then 900 else 2700

-- `AcceptResponse`, with the status code of the response
pub record AcceptResponse : Type 0 where
  pub http_status : ℕ
  pub extract_id : String
  pub status : ExtractStatus
  pub created_at : ℕ
  pub estimated_completion : Option ℕ

unfoldable pub replay_row : Option ExtractRow → String → Exec Service AcceptResponse
replay_row none id s = (err ExtractError.type_error, s)
replay_row (some row) id s = (
  ok (record {
    http_status = 200;
    extract_id = id;
    status = row.status;
    created_at = row.created_at;
    estimated_completion = none;
  }),
  s,
)

-- The branch of a known idempotency key.
unfoldable pub replay : String → IdempotencyRow → Exec Service AcceptResponse
unfolding replay_row
replay fingerprint known s =
    if known.request_fingerprint == fingerprint
    then replay_row (get_extract known.extract_id s.storage) known.extract_id s
    else (err (ExtractError.idempotency_conflict known.extract_id), s)

unfoldable pub new_extract : String → CreateExtractRequest → String → List String → NewExtract
new_extract app r id scope = record {
  extract_id = id;
  idempotency_key = r.idempotency_key;
  app_id = app;
  domain = r.domain;
  priority = r.priority;
  request = record r { fund_scope = some scope };
  state = StateJson.progress (record {
    funds_completed = 0;
    funds_total = length scope;
    percent = 0;
    current_fund = none;
  });
}

-- What the handler does once the key is new: entitlements, the cap on active extracts, the two
-- rows, the audit, the metric and the job.
unfoldable pub accept :
    Platform → Settings → String → String → CreateExtractRequest → Exec Service AcceptResponse
unfolding with_storage
accept p cfg suffix app r = do
  s ← gets (λ s. s)
  scope ← λ s. (check_entitlements app r.fund_scope s.storage, s)
  with_storage (check_concurrent cfg app)
  let t = now s
  let id = make_extract_id p t suffix
  with_storage (create_extract t (new_extract app r id scope))
  with_storage (record_idempotency t app r.idempotency_key id (request_fingerprint p r))
  modify (on_storage (audit t (some app) "extract.create" (some id) "success"))
  modify (
      on_metrics (
        inc "extract.requests.total" 1
          (("domain", r.domain) ∷ ("status", "ACCEPTED") ∷ ("app_id", app) ∷ [])))
  modify (enqueue id r.priority)
  pure (record {
    http_status = 202;
    extract_id = id;
    status = ExtractStatus.accepted;
    created_at = t;
    estimated_completion = some (t + estimate_duration (length scope));
  })

unfoldable pub by_key :
    Option IdempotencyRow
    → Platform
    → Settings
    → String
    → String
    → CreateExtractRequest
    → Exec Service AcceptResponse
unfolding replay accept
by_key none p cfg suffix app r = accept p cfg suffix app r
by_key (some known) p cfg suffix app r = replay (request_fingerprint p r) known

-- The handler `create_extract`, for an authenticated principal.
unfoldable pub create :
    Platform → Settings → String → Principal → CreateExtractRequest → Exec Service AcceptResponse
unfolding with_storage validate_request by_key
create p cfg suffix who r = do
  raise_if (not (r.requester.app_id == who.app_id)) (ExtractError.validation "requester.app_id")
  t ← gets (λ s. s.time)
  with_storage (check_request cfg t who.app_id)
  λ s. (validate_request cfg r, s)
  known ← gets (λ s. lookup_idempotency cfg (now s) who.app_id r.idempotency_key s.storage)
  by_key known p cfg suffix who.app_id r
