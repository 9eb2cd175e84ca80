-- ===== src/Service.antt =====
-- The state that the parts of the extract service share: the database, the object store, the bus,
-- the metrics, the worker's queue and flags, and the webhook queue. `time` is `time.time()` in
-- microseconds, and `utcnow` drops all below the second.
use data_nexus.Prelude.{ℕ, ◌/◌, String, Bool, List}
use data_nexus.Prelude.Dict.{Dict}
use data_nexus.Models.Events.{Event}
use data_nexus.Storage.Rows.{Storage}
use data_nexus.EventBus.Log.{EventBus}
use data_nexus.ObjectStore.Files.{ObjectStore}
use data_nexus.Metrics.{Metrics}

-- The class `Job` of worker.py. `source_outage` keeps its default everywhere.
pub record Job : Type 0 where
  pub priority : ℕ
  pub enqueued_at : ℕ
  pub extract_id : String

-- The queue and the flags of class `Worker`. The queue is kept in the order of the jobs.
pub record WorkerState : Type 0 where
  pub queue : List Job
  pub cancellations : List String
  pub source_outage : Bool
  pub partial_failure : Dict (List String)
  pub paused : Bool

-- The class `WebhookJob` of webhooks.py; the body is the event.
pub record WebhookJob : Type 0 where
  pub delivery_id : String
  pub app_id : String
  pub url : String
  pub event_type : String
  pub body : Event
  pub attempts : ℕ

pub record DeliveryRecord : Type 0 where
  pub delivery_id : String
  pub delivered : Bool
  pub attempts : ℕ

pub record Service : Type 0 where
  pub time : ℕ
  pub storage : Storage
  pub store : ObjectStore
  pub bus : EventBus Event
  pub metrics : Metrics
  pub worker : WorkerState
  pub webhooks : List WebhookJob
  pub deliveries : List DeliveryRecord

-- `utcnow().timestamp()`
abbrev pub now : Service → ℕ
now s = s.time / 1000000

abbrev pub on_storage : (Storage → Storage) → Service → Service
on_storage f s = record s { storage = f s.storage }

abbrev pub on_store : (ObjectStore → ObjectStore) → Service → Service
on_store f s = record s { store = f s.store }

abbrev pub on_metrics : (Metrics → Metrics) → Service → Service
on_metrics f s = record s { metrics = f s.metrics }

abbrev pub on_worker : (WorkerState → WorkerState) → Service → Service
on_worker f s = record s { worker = f s.worker }

-- What the other tasks do while a task sleeps: each sleep takes one entry.
abbrev pub Schedule : Type 0
Schedule = List (Service → Service)
