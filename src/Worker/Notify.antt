-- ===== src/Worker/Notify.antt =====
-- extract_service/worker.py: `_emit_ready`, `_emit_failed` and `_route_notification`, with
-- `WebhookDelivery.schedule` of extract_service/webhooks.py.
use data_nexus.Prelude.{
  ℕ, String, Bool, true, false, Option, none, some, List, [], ◌∷◌, ◌++◌, map, length, sum_of,
  get_or, if◌then◌else◌,
}
use data_nexus.Prelude.Text.{concat, last4, sorted, replace}
use data_nexus.Models.Enums.{ErrorCode, NotificationMode}
use data_nexus.Models.Events.{Event, EventBody, EventScope, PartialResult, event_type}
use data_nexus.Models.Request.{NotificationSpec, missing}
use data_nexus.Platform.{Platform}
use data_nexus.Domains.{DomainDef, get_domain}
use data_nexus.EventBus.Log.{publish}
use data_nexus.Metrics.{inc}
use data_nexus.Storage.Rows.{ExtractRow, FileInfo}
use data_nexus.Service.{Service, now, on_metrics}

abbrev domain_sources : Option DomainDef → List String
domain_sources none = []
domain_sources (some d) = d.sources

-- `list(get_domain(domain).sources) if get_domain(domain) else []`
unfoldable pub sources_of : String → List String
sources_of domain = domain_sources (get_domain domain)

-- `hashlib.sha256("".join(sorted(f.checksum for f in files)).encode()).hexdigest()`, prefixed
unfoldable pub combined_checksum : Platform → List FileInfo → String
combined_checksum p files =
    concat ("sha256:" ∷ p.sha256_text (concat (sorted (map (λ f. f.checksum) files))) ∷ [])

unfoldable pub make_event_id : Platform → ℕ → String → String
make_event_id p t extract_id = concat ("evt_" ∷ p.strftime t ∷ "_" ∷ last4 extract_id ∷ [])

unfoldable pub files_endpoint : String → String
files_endpoint id = concat ("/api/v1/extracts/" ∷ id ∷ "/files" ∷ [])

-- `notification.get("topic") or f"fund-services.{domain}.extract.ready"`
unfoldable pub base_topic : String → Option String → String
base_topic domain topic =
    if missing topic
    then concat ("fund-services." ∷ domain ∷ ".extract.ready" ∷ [])
    else get_or topic ""

abbrev is_failed : EventBody → Bool
is_failed (EventBody.failed e) = true
is_failed _ = false

unfoldable pub event_topic : String → Option String → EventBody → String
event_topic domain topic body =
    if is_failed body
    then replace ".ready" ".failed" (base_topic domain topic)
    else base_topic domain topic

-- `WebhookDelivery.schedule`
unfoldable pub schedule_webhook : Platform → String → String → Event → Service → Service
schedule_webhook p app url e s = record s {
  webhooks =
      s.webhooks
      ++ record {
        delivery_id = concat ("del_" ∷ p.strftime (now s) ∷ "_" ∷ last4 e.event_id ∷ []);
        app_id = app;
        url = url;
        event_type = event_type e.body;
        body = e;
        attempts = 0;
      }
        ∷ [];
}

-- A caller that waits on a paused bus is taken to go on: what follows in the worker are metrics.
unfoldable pub publish_event : String → String → Event → Service → Service
publish_event topic key e s = record s {
  bus = publish (now s) (record { topic = topic; event = e; partition_key = key }) s.bus;
}

unfoldable pub route_by :
    NotificationMode
    → Platform
    → ExtractRow
    → Option String
    → Option String
    → Event
    → Service
    → Service
unfolding event_topic publish_event schedule_webhook
route_by NotificationMode.event p row topic url e s =
    publish_event (event_topic row.domain topic e.body) row.extract_id e s
route_by NotificationMode.webhook p row topic url e s =
    schedule_webhook p row.app_id (get_or url "") e s
route_by NotificationMode.none p row topic url e s = s

-- `_route_notification`: without a `notification` the mode is `event`.
unfoldable pub route_notification :
    Platform → ExtractRow → Option NotificationSpec → Event → Service → Service
unfolding route_by
route_notification p row none e s = route_by NotificationMode.event p row none none e s
route_notification p row (some n) e s = route_by n.mode p row n.topic n.callback_url e s

event_scope : ExtractRow → List String → EventScope
event_scope row funds = record {
  domain = row.domain;
  period_start = row.request.period.start;
  period_end = row.request.period.end;
  as_of = row.request.as_of;
  fund_scope = funds;
  frequency = row.request.frequency;
}

unfoldable pub outcome_event : Platform → ℕ → ExtractRow → List String → EventBody → Event
unfolding event_scope
outcome_event p t row funds body = record {
  event_id = make_event_id p t row.extract_id;
  emitted_at = t;
  source = "extract-api";
  extract_id = row.extract_id;
  idempotency_key = row.idempotency_key;
  scope = event_scope row funds;
  requester = record { app_id = row.app_id; correlation_id = row.request.requester.correlation_id };
  body = body;
}

count_event : String → String → Service → Service
count_event type domain =
    on_metrics (inc "extract.events.published" 1 (("event_type", type) ∷ ("domain", domain) ∷ []))

-- `_emit_ready`. The list of files is not empty: its first element gives the format.
unfoldable pub emit_ready :
    Platform → ExtractRow → String → FileInfo → List FileInfo → ℕ → ℕ → String → Service → Service
unfolding outcome_event count_event
emit_ready p row run_id first more duration expires_at schema s =
    let files = first ∷ more in
    let body =
      EventBody.ready
        (record {
          file_count = length files;
          total_bytes = sum_of (λ f. f.size_bytes) files;
          total_rows = sum_of (λ f. f.row_count) files;
          format = first.format;
          compression = first.compression;
          checksum = combined_checksum p files;
          schema_version = schema;
          files_endpoint = files_endpoint row.extract_id;
          expires_at = expires_at;
        })
        (record {
          run_id = run_id;
          sources = sources_of row.domain;
          produced_by = "extract-worker";
          duration_seconds = duration;
        }) in
    count_event "extract.ready" row.domain (
      route_notification p row row.request.notification
        (outcome_event p (now s) row (map (λ f. f.partition_key) files) body) s)

-- `_emit_failed`
unfoldable pub emit_failed :
    Platform → ExtractRow → ErrorCode → String → ℕ → PartialResult → Service → Service
unfolding outcome_event count_event
emit_failed p row code message retries partial s =
    let body = EventBody.failed (record {
      code = code;
      message = message;
      retries_attempted = retries;
      partial_result = partial;
    }) in
    count_event "extract.failed" row.domain (
      route_notification p row row.request.notification
        (outcome_event p (now s) row (get_or row.request.fund_scope []) body) s)
