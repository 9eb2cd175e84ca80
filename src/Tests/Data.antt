-- ===== src/Tests/Data.antt =====
-- A platform, a request and a service to evaluate the handlers on.
use data_nexus.Prelude.{◌*◌, true, false, none, some, [], ◌∷◌}
use data_nexus.Models.Enums.{Compression, ExtractStatus, OutputFormat, Priority}
use data_nexus.Models.Request.{CreateExtractRequest}
use data_nexus.Platform.{Platform}
use data_nexus.Storage.Rows.{AppRow, ExtractRow, StateJson, Storage, empty}
use data_nexus.Service.{Service}

abbrev pub platform : Platform
platform = record {
  strftime = λ t. "20260101_000000";
  year_month = λ t. "2026/01";
  sha256_hex = λ b. "00";
  sha256_text = λ s. s;
  sha256_int = λ s. 0;
  write_fails = λ id name at. false;
  hmac_sha256_hex = λ k m. "00";
  unicode_digit = λ c. none;
  request_json = λ r. r.domain;
  event_json = λ e. e.event_id;
  gzip_compress = λ b. b;
  zstd_compress = none;
  json_row = λ r. r.position ∷ [];
  json_surrogate = λ rows. 1 ∷ [];
  csv_header = 0 ∷ [];
  csv_line = λ r. r.position ∷ [];
}

abbrev pub request : CreateExtractRequest
request = record {
  domain = "gl";
  period = record { start = 0; end = 30 };
  as_of = none;
  fund_scope = some ("f1" ∷ "f2" ∷ []);
  frequency = none;
  output = record {
    format = OutputFormat.parquet;
    compression = Compression.none;
    partition_by = "fund";
  };
  notification = none;
  idempotency_key = "key";
  priority = Priority.normal;
  requester = record { app_id = "app"; correlation_id = none };
  retention_days = none;
}

abbrev pub app_row : AppRow
app_row = record { app_id = "app"; token = "tok"; webhook_secret = none; cert_fingerprint = none }

abbrev pub tables : Storage
tables = record empty {
  entitlements = ("app", "f1") ∷ ("app", "f2") ∷ ("other", "f3") ∷ [];
  applications = app_row ∷ [];
}

abbrev pub running_row : ExtractRow
running_row = record {
  extract_id = "ext";
  idempotency_key = "key";
  app_id = "app";
  domain = "gl";
  status = ExtractStatus.running;
  request = request;
  state =
      StateJson.progress
        (record { funds_completed = 0; funds_total = 2; percent = 0; current_fund = none });
  created_at = 0;
  updated_at = 0;
  completed_at = none;
  cancelled_at = none;
  expires_at = none;
  run_id = none;
  priority = Priority.normal;
  expiring_event_sent = false;
}

-- 2 million seconds after the epoch.
abbrev pub service : Service
service = record {
  time = 2000000 * 1000000;
  storage = tables;
  store = record { staging = []; published = [] };
  bus = record { topics = []; next_offset = []; dlq = []; bus_available = true; pending = [] };
  metrics = record { counters = []; gauges = []; histograms = [] };
  worker = record {
    queue = [];
    cancellations = [];
    source_outage = false;
    partial_failure = [];
    paused = false;
  };
  webhooks = [];
  deliveries = [];
}

-- The service with one extract that runs.
abbrev pub busy : Service
busy = record service { storage = record tables { extracts = running_row ∷ [] } }
