-- ===== src/EventBus/Log.antt =====
-- extract_service/event_bus.py: the state of class `EventBus`, its admin methods, `publish` and
-- `prune_expired`. The bus is generic in the events, which it never inspects.
use data_nexus.Prelude.{
  ℕ, ◌+◌, ◌-◌, String, Bool, true, false, List, [], ◌∷◌, ◌++◌, map, length, filter, leb,
  if◌then◌else◌,
}
use data_nexus.Prelude.Dict.{Dict, lookup_or, insert, map_values}
use data_nexus.Prelude.Text.{concat}
use data_nexus.Config.{Settings, days}

pub record StoredEvent {ℓ} (E : Type ℓ) : Type ℓ where
  pub offset : ℕ
  pub topic : String
  pub partition_key : String
  pub event : E
  pub emitted_ts : ℕ

-- The arguments of a `publish` call.
pub record Message {ℓ} (E : Type ℓ) : Type ℓ where
  pub topic : String
  pub event : E
  pub partition_key : String

-- `pending` holds the publishers that wait on the condition while the bus is unavailable.
pub record EventBus {ℓ} (E : Type ℓ) : Type ℓ where
  pub topics : Dict (List (StoredEvent E))
  pub next_offset : Dict ℕ
  pub dlq : Dict (List (StoredEvent E))
  pub bus_available : Bool
  pub pending : List (Message E)

abbrev pub dlq_name : String → String
dlq_name topic = concat (topic ∷ ".dlq" ∷ [])

module _ {ℓ} {E : Type ℓ} where
  abbrev pub topic_log : String → EventBus E → List (StoredEvent E)
  topic_log topic b = lookup_or [] topic b.topics

  unfoldable pub init : EventBus E
  init = record { topics = []; next_offset = []; dlq = []; bus_available = true; pending = [] }

  unfoldable pub pause : EventBus E → EventBus E
  pause b = record b { bus_available = false }

  -- The flag is all that `resume` changes: it does not notify the condition.
  unfoldable pub resume : EventBus E → EventBus E
  resume b = record b { bus_available = true }

  unfoldable pub topic_depth : String → EventBus E → ℕ
  topic_depth topic b = length (topic_log topic b)

  unfoldable pub dlq_depth : String → EventBus E → ℕ
  dlq_depth topic b = length (lookup_or [] (dlq_name topic) b.dlq)

  unfoldable pub get_events : String → EventBus E → List E
  get_events topic b = map (λ e. e.event) (topic_log topic b)

  unfoldable pub get_dlq : String → EventBus E → List E
  get_dlq topic b = map (λ e. e.event) (lookup_or [] (dlq_name topic) b.dlq)

  -- The body of `publish` once the bus is available, without the notification.
  unfoldable pub store_event : ℕ → Message E → EventBus E → EventBus E
  store_event now m b =
      let offset = lookup_or 0 m.topic b.next_offset in
      let stored : StoredEvent E = record {
        offset = offset;
        topic = m.topic;
        partition_key = m.partition_key;
        event = m.event;
        emitted_ts = now;
      } in
      record b {
        next_offset = insert m.topic (offset + 1) b.next_offset;
        topics = insert m.topic (topic_log m.topic b ++ stored ∷ []) b.topics;
      }

  unfoldable pub store_all : ℕ → List (Message E) → EventBus E → EventBus E
  store_all now [] b = b
  store_all now (m ∷ ms) b = store_all now ms (store_event now m b)

  -- A publisher waits while the bus is paused. One that stores its event notifies all: the
  -- waiting publishers find the bus available and store theirs, in the order of their calls.
  unfoldable pub publish : ℕ → Message E → EventBus E → EventBus E
  unfolding store_event store_all
  publish now m b =
      if b.bus_available
      then store_all now b.pending (record (store_event now m b) { pending = [] })
      else record b { pending = b.pending ++ m ∷ [] }

  -- Keeps in every topic the events that are younger than the retention period.
  unfoldable pub prune_expired : Settings → ℕ → EventBus E → EventBus E
  prune_expired cfg now b = record b {
    topics =
        map_values (filter (λ e. leb (now - days cfg.event_retention_days) e.emitted_ts)) b.topics;
  }
