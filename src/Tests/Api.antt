-- ===== src/Tests/Api.antt =====
-- Creation and cancellation of extracts on a concrete service.
use data_nexus.Prelude.{arith, ◌*◌, String, ◌≡◌, refl, none, some, List, [], ◌∷◌, ◌≤◌, string_eq}
use data_nexus.Prelude.Text.{concat}
use data_nexus.Config.{default_settings}
use data_nexus.Errors.{ExtractError}
use data_nexus.Exec.{err, ok}
use data_nexus.Models.Enums.{ExtractStatus}
use data_nexus.Models.Request.{CreateExtractRequest}
use data_nexus.Domains.{get_domain}
use data_nexus.Storage.Apps.{audit, count_rl_events, prune_rl_events, entitled_funds}
use data_nexus.Storage.Extracts.{
  count_active_extracts, create_extract, get_extract, record_idempotency, lookup_idempotency,
}
use data_nexus.Auth.Limiter.{check_request, check_concurrent}
use data_nexus.Auth.Principals.{Principal, check_entitlements, resolve_scope}
use data_nexus.Service.{Service, now}
use data_nexus.Worker.Queue.{enqueue}
use data_nexus.Api.Create.{
  accept, by_key, create, validate_request, make_extract_id, request_fingerprint,
}
use data_nexus.Api.Idempotency.{Admitted, expired_key_orphans, fresh_id, fresh_row}
use data_nexus.Api.Replay.{create_conflicts, create_replays}
use data_nexus.Api.Cap.{accept-IsCapped}
use data_nexus.Api.Cancelling.{cancel_body, cancel_others}
use data_nexus.Tests.Data.{busy, platform, request, running_row, service, tables}

abbrev scope : List String
scope = "f1" ∷ "f2" ∷ []

admitted : Admitted platform default_settings "aa" "app" request service scope
unfolding check_entitlements resolve_scope entitled_funds check_concurrent count_active_extracts
    make_extract_id concat
admitted = record { entitled = refl; below_cap = refl; id_free = refl; key_free = refl }

abbrev accepted_service : Service
accepted_service = (accept platform default_settings "aa" "app" request service).1

accepted_service-now : now accepted_service ≡ 2000000
unfolding accept check_entitlements entitled_funds check_concurrent count_active_extracts
    create_extract record_idempotency enqueue
accepted_service-now = refl

abbrev who : Principal
who = record { app_id = "app"; cert_fingerprint = none; token = "tok" }

create_replays_example :
    let (answer, s') = create platform default_settings "bb" who request accepted_service in
    (answer
      ≡ ok (record {
        http_status = 200;
        extract_id = fresh_id platform default_settings "aa" "app" request service;
        status = ExtractStatus.accepted;
        created_at = 2000000;
        estimated_completion = none;
      }))
    × (s'.storage.extracts ≡ accepted_service.storage.extracts)
    × (s'.storage.idempotency ≡ accepted_service.storage.idempotency)
    × (s'.worker ≡ accepted_service.worker)
unfolding validate_request check_request get_domain count_rl_events prune_rl_events accept
    check_entitlements entitled_funds check_concurrent count_active_extracts create_extract
    record_idempotency enqueue audit
create_replays_example =
    create_replays platform default_settings "aa" "bb" who request service accepted_service scope
      {h = record { limit = 60; remaining = 59; reset = 2000060 }} refl refl admitted refl refl
      (omega (arith, accepted_service-now)) refl

abbrev other_request : CreateExtractRequest
other_request = record request { domain = "nav-ledger" }

create_conflicts_example :
    let (answer, s') = create platform default_settings "bb" who other_request accepted_service in
    (answer
      ≡ err (
          ExtractError.idempotency_conflict
            (fresh_id platform default_settings "aa" "app" request service)))
    × (s'.storage.extracts ≡ accepted_service.storage.extracts)
    × (s'.storage.idempotency ≡ accepted_service.storage.idempotency)
    × (s'.worker ≡ accepted_service.worker)
unfolding request_fingerprint validate_request check_request get_domain count_rl_events
    prune_rl_events accept check_entitlements entitled_funds check_concurrent count_active_extracts
    create_extract record_idempotency enqueue audit
create_conflicts_example =
    create_conflicts platform default_settings "aa" "bb" who request other_request service
      accepted_service scope {h = record { limit = 60; remaining = 59; reset = 2000060 }} refl refl
      admitted refl refl refl refl (omega (arith, accepted_service-now)) refl

-- A service that still has a key of its first day, two months later.
abbrev old_key : Service
old_key = record service {
  time = 6000000 * 1000000;
  storage = record tables {
    idempotency =
        record {
          key = "key";
          app_id = "app";
          extract_id = "old";
          request_fingerprint = "gl";
          created_at = 0;
        }
        ∷ [];
  };
}

expired_key_orphans_example :
    let (answer, s') =
      by_key
        (lookup_idempotency default_settings 6000000 "app" "key" old_key.storage)
        platform
        default_settings
        "aa"
        "app"
        request
        old_key in
    (answer ≡ err (ExtractError.integrity "idempotency"))
    × (s'.storage.extracts
        ≡ fresh_row platform default_settings "aa" "app" request old_key scope ∷ [])
    × (s'.storage.idempotency ≡ old_key.storage.idempotency)
    × (s'.worker.queue ≡ [])
unfolding check_entitlements resolve_scope entitled_funds check_concurrent count_active_extracts
    lookup_idempotency
expired_key_orphans_example =
    expired_key_orphans platform default_settings "aa" "app" request old_key scope refl refl refl
      refl refl

accept-IsCapped_example :
    count_active_extracts "app" (accept platform default_settings "aa" "app" request busy).1.storage
    ≤ default_settings.rate_limit_concurrent_extracts
unfolding count_active_extracts
accept-IsCapped_example =
    accept-IsCapped platform default_settings "aa" "app" request busy "app" (omega arith)

cancel_others_example :
    get_extract "ext" (cancel_body "other" "ext" busy).1.storage ≡ some running_row
unfolding get_extract
cancel_others_example = cancel_others "other" "ext" "ext" busy {row = running_row} refl refl

abbrev cancelled_service : Service
cancelled_service = (cancel_body "app" "ext" busy).1
