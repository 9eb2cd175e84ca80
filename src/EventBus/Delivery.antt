-- ===== src/EventBus/Delivery.antt =====
-- extract_service/event_bus.py: subscriptions, the delivery loop with its retries, and the
-- dead-letter queue. A handler changes a state of its own and returns whether it succeeded.
use data_nexus.Prelude.{
  ℕ, zero, suc, ◌+◌, ◌*◌, ◌^◌, min, String, Bool, true, false, ◌||◌, Option, none, some, List, [],
  ◌∷◌, ◌++◌, length, leb, get_elem?, if◌then◌else◌,
}
use data_nexus.Prelude.Dict.{lookup_or, insert}
use data_nexus.EventBus.Log.{EventBus, StoredEvent, topic_log, dlq_name}

abbrev pub max_delivery_attempts : ℕ
max_delivery_attempts = 5

pub record Subscription : Type 0 where
  pub group_id : String
  pub offset : ℕ
  pub paused : Bool

-- A new subscription starts at offset 0.
unfoldable pub new_subscription : String → Subscription
new_subscription group = record { group_id = group; offset = 0; paused = false }

-- `min(0.1 * 2**attempt, 2.0)`, in milliseconds
unfoldable pub retry_delay : ℕ → ℕ
retry_delay attempt = min (100 * 2 ^ attempt) 2000

abbrev pub Handler {ℓ} : Type ℓ → Type ℓ → Type ℓ
Handler E H = E → H → Bool × H

-- What the loop of `_deliver` did: whether a call returned, the handler's state, and the sleeps.
pub record Attempts {ℓ} (H : Type ℓ) : Type ℓ where
  pub delivered : Bool
  pub state : H
  pub sleeps : List ℕ

unfoldable pub to_dlq {ℓ} : {E : Type ℓ} → String → StoredEvent E → EventBus E → EventBus E
to_dlq topic e b = record b {
  dlq = insert (dlq_name topic) (lookup_or [] (dlq_name topic) b.dlq ++ e ∷ []) b.dlq;
}

module _ {ℓ} {E H : Type ℓ} where
  -- `left` rounds are left of the loop, and `attempt` calls were made.
  unfoldable pub attempt_from : ℕ → ℕ → Handler E H → E → H → List ℕ → Attempts H
  attempt_from zero attempt handler e h sleeps = record {
    delivered = false;
    state = h;
    sleeps = sleeps;
  }
  attempt_from (suc left) attempt handler e h sleeps =
      let (returned, h') = handler e h in
      let again =
        attempt_from left (attempt + 1) handler e h' (sleeps ++ retry_delay (attempt + 1) ∷ []) in
      if returned then record { delivered = true; state = h'; sleeps = sleeps } else again

  abbrev pub attempts : Handler E H → E → H → Attempts H
  attempts handler e h = attempt_from max_delivery_attempts 0 handler e h []

  -- `_deliver`
  unfoldable pub deliver : String → Handler E H → StoredEvent E → EventBus E → H → EventBus E × H
  unfolding attempt_from to_dlq
  deliver topic handler e b h =
      let done = attempts handler e.event h in
      (if done.delivered then b else to_dlq topic e b, done.state)

  unfoldable pub take_event :
      Option (StoredEvent E)
      → String
      → Handler E H
      → Subscription
      → EventBus E
      → H
      → Subscription × EventBus E × H
  unfolding deliver
  take_event none topic handler sub b h = (sub, b, h)
  take_event (some e) topic handler sub b h =
      let (b', h') = deliver topic handler e b h in (record sub { offset = sub.offset + 1 }, b', h')

  -- One round of the loop of `_run_subscription`; with nothing to read it waits, and the state
  -- stays as it is. The offset indexes the list of the topic's events.
  unfoldable pub poll :
      String → Handler E H → Subscription → EventBus E → H → Subscription × EventBus E × H
  unfolding take_event
  poll topic handler sub b h =
      if leb (length (topic_log topic b)) sub.offset || sub.paused
      then (sub, b, h)
      else take_event (get_elem? (topic_log topic b) sub.offset) topic handler sub b h
