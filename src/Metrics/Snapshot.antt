-- ===== src/Metrics/Snapshot.antt =====
-- extract_service/metrics.py: `Metrics.snapshot`, and extract_service/alerts.py: the rules over it.
use data_nexus.Prelude.{
  ℕ, ◌*◌, String, Bool, true, false, ◌&&◌, Option, none, some, List, [], ◌∷◌, any, filter, map,
  sum_of, ltb, if◌then◌else◌,
}
use data_nexus.Prelude.Dict.{Dict, insert}
use data_nexus.Prelude.Text.{concat}
use data_nexus.Metrics.{Labels, MetricKey, Metrics}
use data_nexus.Metrics.Summary.{Summary, summary}
use text.Mathlib.Text.{find?, starts_with}

pub record Snapshot : Type 0 where
  pub counters : Dict ℕ
  pub gauges : Dict ℕ
  pub histograms : Dict (Option Summary)

-- `str(dict(labels))`
abbrev pub ShowLabels : Type 0
ShowLabels = Labels → String

-- `f"{name}{dict(labels)}"`
unfoldable pub key_text : ShowLabels → MetricKey → String
key_text show k = concat (k.name ∷ show k.labels ∷ [])

-- A dictionary comprehension over the entries: a later entry with the same text replaces an earlier.
unfoldable pub entries_from {ℓ κ} :
    {V : Type ℓ} {W : Type κ} → ShowLabels → (V → W) → List (MetricKey × V) → Dict W → Dict W
unfolding key_text
entries_from show f [] d = d
entries_from show f ((k, v) ∷ l) d = entries_from show f l (insert (key_text show k) (f v) d)

-- `Metrics.snapshot`
unfoldable pub snapshot : ShowLabels → Metrics → Snapshot
unfolding entries_from
snapshot show m = record {
  counters = entries_from show (λ v. v) m.counters [];
  gauges = entries_from show (λ v. v) m.gauges [];
  histograms = entries_from show summary m.histograms [];
}

-- `_high_queue_depth`
unfoldable pub high_queue_depth : Snapshot → Bool
high_queue_depth s = any (λ e. starts_with e.0 "extract.worker.queue_depth" && ltb 30 e.1) s.gauges

total_of : String → Dict ℕ → ℕ
total_of prefix d = sum_of (λ e. if starts_with e.0 prefix then e.1 else 0) d

-- `_api_error_rate`: `total > 0 and errs / total > 0.01`, over whole numbers
unfoldable pub api_error_rate : Snapshot → Bool
unfolding total_of
api_error_rate s =
    let total = total_of "extract.api.requests" s.counters in
    let errs = total_of "extract.api.errors" s.counters in ltb 0 total && ltb total (errs * 100)

has_text : String → String → Bool
has_text s t = elim (find? s t) [ none ↦ false | some i ↦ true ]

-- `_dlq_growth`
unfoldable pub dlq_growth : Snapshot → Bool
unfolding has_text
dlq_growth s = any (λ e. has_text e.0 "dlq" && ltb 0 e.1) s.gauges

pub record AlertRule : Type 0 where
  pub name : String
  pub severity : String
  pub condition : Snapshot → Bool
  pub description : String

-- `RULES`
abbrev pub rules : List AlertRule
rules =
    record {
      name = "high_queue_depth";
      severity = "warning";
      condition = high_queue_depth;
      description = "Worker queue > 30 for > 5 min";
    }
    ∷ record {
      name = "api_error_rate";
      severity = "critical";
      condition = api_error_rate;
      description = "API 5xx rate > 1% in 5 min";
    }
    ∷ record {
      name = "dlq_growth";
      severity = "warning";
      condition = dlq_growth;
      description = "DLQ depth > 0";
    }
    ∷ []

-- `evaluate`
unfoldable pub evaluate : Snapshot → List String
unfolding high_queue_depth api_error_rate dlq_growth
evaluate s = map (λ r. r.name) (filter (λ r. r.condition s) rules)
