-- ===== src/Api/Replay.antt =====
-- A repeated request, through the whole handler `create_extract`.
use data_nexus.Prelude.{
  ◌∙◌, arith, ℕ, ◌+◌, ◌≤◌, String, true, false, ◌≡◌, refl, none, ◌==◌, string_eq, List,
}
use data_nexus.Config.{Settings, days}
use data_nexus.Errors.{ExtractError}
use data_nexus.Exec.{ok, err}
use data_nexus.Models.Enums.{ExtractStatus}
use data_nexus.Models.Request.{CreateExtractRequest}
use data_nexus.Platform.{Platform}
use data_nexus.Storage.Rows.{Storage}
use data_nexus.Storage.Apps.{prune_rl_events, record_rl_event}
use data_nexus.Auth.Principals.{Principal}
use data_nexus.Auth.Limiter.{RateHeaders, check_request}
use data_nexus.Service.{Service, now}
use data_nexus.Api.Create.{accept, create, request_fingerprint, validate_request, with_storage}
use data_nexus.Api.Idempotency.{Admitted, accept_then_conflict, accept_then_replay, fresh_id}

-- A check of the request rate leaves the extracts and the keys alone.
check_request-tables :
    (cfg : Settings) (t : ℕ) (app : String) (s : Storage)
    → let s' = (check_request cfg t app s).1 in
      (s'.extracts ≡ s.extracts) × (s'.idempotency ≡ s.idempotency)
unfolding check_request prune_rl_events record_rl_event
check_request-tables cfg t app s = ground arith

-- A principal whose request was accepted sends it again, before the key expires and within its
-- request rate: the handler answers 200 with the identifier of the first extract, and adds no
-- extract, no key and no job. In between, other tasks may do what leaves these two tables alone.
pub create_replays :
    (p : Platform) (cfg : Settings) (suffix suffix' : String) (who : Principal)
    (r : CreateExtractRequest) (s later : Service) (scope : List String) {h : RateHeaders}
    → (r.requester.app_id == who.app_id) ≡ true
    → validate_request cfg r ≡ ok tt
    → Admitted p cfg suffix who.app_id r s scope
    → later.storage.extracts ≡ (accept p cfg suffix who.app_id r s).1.storage.extracts
    → later.storage.idempotency ≡ (accept p cfg suffix who.app_id r s).1.storage.idempotency
    → now later ≤ now s + days cfg.idempotency_key_ttl_days
    → (check_request cfg later.time who.app_id later.storage).0 ≡ ok h
    → let (answer, s') = create p cfg suffix' who r later in
      (answer
        ≡ ok (record {
          http_status = 200;
          extract_id = fresh_id p cfg suffix who.app_id r s;
          status = ExtractStatus.accepted;
          created_at = now s;
          estimated_completion = none;
        }))
      × (s'.storage.extracts ≡ later.storage.extracts)
      × (s'.storage.idempotency ≡ later.storage.idempotency)
      × (s'.worker ≡ later.worker)
unfolding create with_storage
create_replays p cfg suffix suffix' who r s later scope {h} own valid admitted rows keys young
      allowed =
    let st = (check_request cfg later.time who.app_id later.storage).1 in
    let (same_rows, same_keys) = check_request-tables cfg later.time who.app_id later.storage in
    let replayed =
      accept_then_replay p cfg suffix suffix' who.app_id r s (record later { storage = st }) scope
        admitted (same_rows ∙ rows) (same_keys ∙ keys) young in
    rw (own, allowed, valid, replayed) (refl, same_rows, same_keys, refl)

-- A principal whose request was accepted sends another one, whose fingerprint differs, under the
-- same key, before the key expires, validly and within its request rate: the handler refuses it
-- with a conflict that names the first extract, and adds no extract, no key and no job. In
-- between, other tasks may do what leaves the two tables alone.
pub create_conflicts :
    (p : Platform) (cfg : Settings) (suffix suffix' : String) (who : Principal)
    (r r' : CreateExtractRequest) (s later : Service) (scope : List String) {h : RateHeaders}
    → (r'.requester.app_id == who.app_id) ≡ true
    → validate_request cfg r' ≡ ok tt
    → Admitted p cfg suffix who.app_id r s scope
    → later.storage.extracts ≡ (accept p cfg suffix who.app_id r s).1.storage.extracts
    → later.storage.idempotency ≡ (accept p cfg suffix who.app_id r s).1.storage.idempotency
    → r'.idempotency_key ≡ r.idempotency_key
    → (request_fingerprint p r == request_fingerprint p r') ≡ false
    → now later ≤ now s + days cfg.idempotency_key_ttl_days
    → (check_request cfg later.time who.app_id later.storage).0 ≡ ok h
    → let (answer, s') = create p cfg suffix' who r' later in
      (answer ≡ err (ExtractError.idempotency_conflict (fresh_id p cfg suffix who.app_id r s)))
      × (s'.storage.extracts ≡ later.storage.extracts)
      × (s'.storage.idempotency ≡ later.storage.idempotency)
      × (s'.worker ≡ later.worker)
unfolding create with_storage
create_conflicts p cfg suffix suffix' who r r' s later scope {h} own valid admitted rows keys same
      differs young allowed =
    let st = (check_request cfg later.time who.app_id later.storage).1 in
    let (same_rows, same_keys) = check_request-tables cfg later.time who.app_id later.storage in
    let refused =
      accept_then_conflict p cfg suffix suffix' who.app_id r s (record later { storage = st }) scope
        admitted (same_rows ∙ rows) (same_keys ∙ keys) r' same differs young in
    rw (own, allowed, valid, refused) (refl, same_rows, same_keys, refl)
