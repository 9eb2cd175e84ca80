-- ===== src/Tests/Consumer.antt =====
-- The example consumer, with a service that lists one file.
use data_nexus.Prelude.{true, ◌≡◌, refl, none, some, [], ◌∷◌, ◌++◌, string_eq}
use data_nexus.Prelude.Text.{concat}
use data_nexus.Models.Enums.{Compression, OutputFormat}
use data_nexus.Models.Events.{Event, EventArtifact, EventBody, EventLineage}
use data_nexus.EventBus.Log.{EventBus, StoredEvent, get_dlq}
use data_nexus.EventBus.Delivery.{deliver}
use data_nexus.Consumer.Handler.{
  Client, Consumer, Listed, check_content, download_all, finish, handle, handle_body,
}
use data_nexus.Consumer.Once.{Processed, deliver_corrupt, handle_again, handle_verified}
use data_nexus.Tests.Data.{platform}

abbrev good : Listed
good = record { partition_key = "f1"; checksum = "sha256:00"; download_url = "/f1" }

abbrev bad : Listed
bad = record { partition_key = "f2"; checksum = "sha256:11"; download_url = "/f2" }

abbrev client : Client
client = record { get_files = λ url. some (good ∷ []); get_content = λ url. some (1 ∷ 2 ∷ []) }

abbrev tampered : Client
tampered = record {
  get_files = λ url. some (good ∷ bad ∷ []);
  get_content = λ url. some (1 ∷ 2 ∷ []);
}

abbrev artifact : EventArtifact
artifact = record {
  file_count = 1;
  total_bytes = 2;
  total_rows = 2;
  format = OutputFormat.csv;
  compression = Compression.none;
  checksum = "sha256:00";
  schema_version = "gl/v2";
  files_endpoint = "/files";
  expires_at = 0;
}

abbrev lineage : EventLineage
lineage = record {
  run_id = "run";
  sources = [];
  produced_by = "extract-worker";
  duration_seconds = 0;
}

abbrev ready : Event
ready = record {
  event_id = "evt";
  emitted_at = 0;
  source = "extract-api";
  extract_id = "ext";
  idempotency_key = "key";
  scope = record {
    domain = "gl";
    period_start = 0;
    period_end = 30;
    as_of = none;
    fund_scope = [];
    frequency = none;
  };
  requester = record { app_id = "app"; correlation_id = none };
  body = EventBody.ready artifact lineage;
}

abbrev consumer : Consumer
consumer = record { seen_event_ids = []; processed_extracts = [] }

handle-returns : (handle platform client ready consumer).0 ≡ true
unfolding handle handle_body finish download_all check_content concat
handle-returns = refl

handle_again_example :
    handle platform tampered ready (handle platform client ready consumer).1
    ≡ (true, (handle platform client ready consumer).1)
handle_again_example =
    handle_again platform client tampered ready ready consumer refl handle-returns

handle_verified_example :
    Processed platform client "/files" "ext" []
      (handle platform client ready consumer).1.processed_extracts
handle_verified_example =
    handle_verified platform client ready consumer {artifact = artifact} {lineage = lineage} refl
      refl handle-returns

abbrev stored : StoredEvent Event
stored = record { offset = 0; topic = "t"; partition_key = "ext"; event = ready; emitted_ts = 0 }

abbrev bus : EventBus Event
bus = record { topics = []; next_offset = []; dlq = []; bus_available = true; pending = [] }

deliver_corrupt_example :
    let (b', c') = deliver "t" (handle platform tampered) stored bus consumer in
    (get_dlq "t" b' ≡ get_dlq "t" bus ++ ready ∷ []) × (c' ≡ consumer)
unfolding check_content concat
deliver_corrupt_example =
    deliver_corrupt platform tampered "t" stored bus consumer {artifact = artifact}
      {lineage = lineage} (good ∷ []) bad [] refl refl refl refl
