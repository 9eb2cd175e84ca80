-- ===== src/Tests/Metrics.antt =====
-- A histogram, and the alerts of a snapshot.
use data_nexus.Prelude.{◌≡◌, refl, some, [], ◌∷◌}
use data_nexus.Prelude.Dict.{insert}
use data_nexus.Prelude.Text.{concat}
use data_nexus.Metrics.{Metrics}
use data_nexus.Metrics.Summary.{Summary, summary}
use data_nexus.Metrics.Quantiles.{Describes, summary-Describes}
use data_nexus.Metrics.Snapshot.{evaluate, snapshot}

abbrev metrics : Metrics
metrics = record {
  counters =
      (record { name = "extract.api.requests"; labels = [] }, 100)
      ∷ (record { name = "extract.api.errors"; labels = [] }, 2)
      ∷ [];
  gauges =
      (record { name = "extract.worker.queue_depth"; labels = ("priority", "normal") ∷ [] }, 31)
      ∷ (record { name = "bus.dlq.depth"; labels = [] }, 0)
      ∷ [];
  histograms = [];
}

two_alerts : evaluate (snapshot (λ l. "{}") metrics) ≡ "high_queue_depth" ∷ "api_error_rate" ∷ []
unfolding evaluate snapshot insert concat
two_alerts = refl

three_values :
    summary (30 ∷ 10 ∷ 20 ∷ [])
    ≡ some (record { count = 3; sum = 60; p50 = 10; p95 = 20; p99 = 20 })
unfolding summary
three_values = refl

summary-Describes_example :
    (s : Summary) × (summary (30 ∷ 10 ∷ 20 ∷ []) ≡ some s) × Describes (30 ∷ 10 ∷ 20 ∷ []) s
summary-Describes_example = summary-Describes 30 (10 ∷ 20 ∷ [])
