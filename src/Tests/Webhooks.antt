-- ===== src/Tests/Webhooks.antt =====
-- A receiver that fails twice, and a round of the sweeper.
use mathlib.Core.Option
use data_nexus.Prelude.{
  map, ◌≡◌, refl, none, some, [], ◌∷◌, ◌==◌, string_eq, nat_eq, if◌then◌else◌, arith, true, false,
}
use data_nexus.Config.{default_settings}
use data_nexus.Models.Enums.{ExtractStatus}
use data_nexus.Models.Events.{Event, EventBody}
use data_nexus.Storage.Rows.{ExtractRow}
use data_nexus.Storage.Extracts.{find_expired, find_expiring, get_extract}
use data_nexus.Service.{Service, WebhookJob, now}
use data_nexus.Webhooks.Attempts.{FirstAccepted, attempt-FirstAccepted}
use data_nexus.Platform.{Platform}
use data_nexus.Prelude.Text.{concat}
use data_nexus.Storage.Apps.{get_app}
use data_nexus.Webhooks.Delivery.{Attempted, Receiver, attempt, get_secret, signature}
use data_nexus.Webhooks.Signed.{attempt-verifier, delivery, verifier}
use data_nexus.Webhooks.Retention.{
  run_once_expires, run_once_settles, warning, with_each, without_each,
}
use data_nexus.EventBus.Log.{prune_expired}
use data_nexus.Webhooks.Sweeper.{run_once, warn_window}
use data_nexus.Tests.Data.{platform, running_row, service, tables}

abbrev third_time : Receiver
third_time n = if n == 3 then some 204 else some 503

abbrev event : Event
event = record {
  event_id = "evt";
  emitted_at = 0;
  source = "extract-api";
  extract_id = "ext";
  idempotency_key = "key";
  scope = record {
    domain = "gl";
    period_start = 0;
    period_end = 30;
    as_of = none;
    fund_scope = [];
    frequency = none;
  };
  requester = record { app_id = "app"; correlation_id = none };
  body = EventBody.expiring 0 "/files";
}

abbrev job : WebhookJob
job = record {
  delivery_id = "del";
  app_id = "app";
  url = "https://receiver";
  event_type = "extract.expiring";
  body = event;
  attempts = 0;
}

attempt-FirstAccepted_example :
    (d : Attempted) × FirstAccepted third_time 0 5 d
    × ((attempt platform default_settings (λ post. third_time) job service).deliveries
        ≡ record { delivery_id = "del"; delivered = d.delivered; attempts = d.attempts } ∷ [])
attempt-FirstAccepted_example =
    attempt-FirstAccepted platform default_settings (λ post. third_time) job service refl

-- A platform whose digest is the key.
abbrev keyed : Platform
keyed = record platform { hmac_sha256_hex = λ k m. k }

attempt-verifier_example :
    ((attempt keyed default_settings
        (verifier keyed (get_secret default_settings "app" service))
        job
        service).deliveries
      ≡ delivery job true 1 ∷ [])
    × ((attempt keyed default_settings (verifier keyed "guess") job service).deliveries
        ≡ delivery job false 5 ∷ [])
unfolding signature get_secret get_app concat
attempt-verifier_example =
    attempt-verifier keyed default_settings "guess" job service refl (omega arith) refl

-- A completed extract whose expiry has passed.
abbrev old_row : ExtractRow
old_row = record running_row { status = ExtractStatus.completed; expires_at = some 1000 }

abbrev old_service : Service
old_service = record service { storage = record tables { extracts = old_row ∷ [] } }

run_once_settles_example :
    let s' = run_once platform default_settings old_service in
    (s'.bus
      ≡ prune_expired default_settings 2000000 (
          with_each 2000000
            (map (warning platform 2000000) (find_expiring 2000000 warn_window old_service.storage))
            old_service.bus))
    × (s'.store ≡ without_each (("ext", "gl") ∷ []) old_service.store)
    × (find_expiring (now s') warn_window s'.storage ≡ [])
    × (find_expired (now s') s'.storage ≡ [])
unfolding find_expired
run_once_settles_example = run_once_settles platform default_settings old_service

run_once_expires_example :
    Option.map
      (λ r. r.status)
      (get_extract "ext" (run_once platform default_settings old_service).storage)
    ≡ some ExtractStatus.expired
unfolding find_expired get_extract
run_once_expires_example =
    run_once_expires platform default_settings "ext" old_service {row = old_row} refl refl
