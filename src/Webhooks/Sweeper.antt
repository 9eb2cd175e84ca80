-- ===== src/Webhooks/Sweeper.antt =====
-- extract_service/webhooks.py: `RetentionSweeper.run_once`.
use data_nexus.Prelude.{ℕ, ◌*◌, String, true, some, List, [], ◌∷◌, get_or}
use data_nexus.Prelude.Text.{concat}
use data_nexus.Config.{Settings}
use data_nexus.Models.Enums.{ExtractStatus}
use data_nexus.Models.Events.{Event, EventBody}
use data_nexus.Platform.{Platform}
use data_nexus.EventBus.Log.{prune_expired}
use data_nexus.Storage.Rows.{ExtractRow}
use data_nexus.Storage.Extracts.{find_expired, find_expiring, no_changes, update_extract}
use data_nexus.ObjectStore.Files.{delete_published}
use data_nexus.Service.{Service, now, on_storage, on_store}
use data_nexus.Worker.Notify.{files_endpoint, make_event_id, publish_event}

-- `timedelta(hours=24)`
abbrev pub warn_window : ℕ
warn_window = 24 * 3600

-- The `ExtractExpiringEvent` of a row whose expiry is `expires_at`.
unfoldable pub expiring_event : Platform → ℕ → ExtractRow → ℕ → Event
expiring_event p t row expires_at = record {
  event_id = make_event_id p t row.extract_id;
  emitted_at = t;
  source = "extract-api";
  extract_id = row.extract_id;
  idempotency_key = row.idempotency_key;
  scope = record {
    domain = row.domain;
    period_start = row.request.period.start;
    period_end = row.request.period.end;
    as_of = row.request.as_of;
    fund_scope = get_or row.request.fund_scope [];
    frequency = row.request.frequency;
  };
  requester = record {
    app_id = row.request.requester.app_id;
    correlation_id = row.request.requester.correlation_id;
  };
  body = EventBody.expiring expires_at (files_endpoint row.extract_id);
}

abbrev pub expiring_topic : String → String
expiring_topic domain = concat ("fund-services." ∷ domain ∷ ".extract.expiring" ∷ [])

-- The body of the first loop. The query selects rows with an expiry only.
unfoldable pub warn : Platform → ExtractRow → Service → Service
unfolding expiring_event
warn p row s =
    let s₁ =
      publish_event (expiring_topic row.domain) row.extract_id
        (expiring_event p (now s) row (get_or row.expires_at 0)) s in
    on_storage
      (update_extract (now s₁) row.extract_id
        (record no_changes { expiring_event_sent = some true }))
      s₁

-- The body of the second loop.
unfoldable pub expire : ExtractRow → Service → Service
expire row s =
    on_storage
      (update_extract (now s) row.extract_id
        (record no_changes { status = some ExtractStatus.expired }))
      (on_store (delete_published row.extract_id row.domain) s)

unfoldable pub for_each : (ExtractRow → Service → Service) → List ExtractRow → Service → Service
for_each f [] s = s
for_each f (r ∷ rows) s = for_each f rows (f r s)

-- `run_once`, without a wait between its steps: the bus is available.
unfoldable pub run_once : Platform → Settings → Service → Service
unfolding for_each warn expire
run_once p cfg s =
    let s₁ = for_each (warn p) (find_expiring (now s) warn_window s.storage) s in
    let s₂ = for_each expire (find_expired (now s₁) s₁.storage) s₁ in
    record s₂ { bus = prune_expired cfg (now s₂) s₂.bus }
