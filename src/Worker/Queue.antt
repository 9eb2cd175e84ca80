-- ===== src/Worker/Queue.antt =====
-- extract_service/worker.py: the admin hooks, the priority queue and the cancellation set.
use data_nexus.Prelude.{
  ℕ, String, Bool, true, false, not, ◌&&◌, ◌||◌, List, [], ◌∷◌, length, filter, contains, ◌==◌,
  string_eq, nat_eq, ltb, if◌then◌else◌,
}
use data_nexus.Prelude.Dict.{insert}
use data_nexus.Prelude.Text.{str_le}
use data_nexus.Models.Enums.{Priority, priority_value}
use data_nexus.Metrics.{set_gauge}
use data_nexus.Service.{Job, Service, WorkerState, now, on_metrics, on_worker}

-- `PRIORITY_WEIGHT`
unfoldable pub priority_weight : Priority → ℕ
priority_weight Priority.high = 0
priority_weight Priority.normal = 1
priority_weight Priority.low = 2

-- `a <= b` of the dataclass with `order=True`: the fields in their order
unfoldable pub job_le : Job → Job → Bool
job_le a b =
    ltb a.priority b.priority
    || a.priority == b.priority
      && (ltb a.enqueued_at b.enqueued_at
          || a.enqueued_at == b.enqueued_at && str_le a.extract_id b.extract_id)

-- `PriorityQueue.put`: `get` takes the head.
unfoldable pub put : Job → List Job → List Job
put j [] = j ∷ []
put j (k ∷ q) = if job_le k j then k ∷ put j q else j ∷ k ∷ q

unfoldable pub simulate_source_outage : Bool → WorkerState → WorkerState
simulate_source_outage enabled w = record w { source_outage = enabled }

unfoldable pub simulate_partial_failure : String → List String → WorkerState → WorkerState
simulate_partial_failure id funds w = record w {
  partial_failure = insert id funds w.partial_failure;
}

unfoldable pub pause_processing : WorkerState → WorkerState
pause_processing w = record w { paused = true }

unfoldable pub resume_processing : WorkerState → WorkerState
resume_processing w = record w { paused = false }

-- `_cancellations.add`
unfoldable pub cancel : String → WorkerState → WorkerState
cancel id w =
    if contains id w.cancellations then w else record w { cancellations = id ∷ w.cancellations }

-- `_cancellations.discard`
unfoldable pub discard : String → WorkerState → WorkerState
discard id w = record w { cancellations = filter (λ j. not (j == id)) w.cancellations }

unfoldable pub queue_depth : WorkerState → ℕ
queue_depth w = length w.queue

unfoldable pub enqueue : String → Priority → Service → Service
unfolding put queue_depth
enqueue id priority s =
    let job : Job = record {
      priority = priority_weight priority;
      enqueued_at = now s;
      extract_id = id;
    } in
    let w : WorkerState = record (s.worker) { queue = put job s.worker.queue } in
    on_metrics
      (set_gauge "extract.worker.queue_depth" (queue_depth w)
        (("priority", priority_value priority) ∷ []))
      (on_worker (λ _. w) s)
