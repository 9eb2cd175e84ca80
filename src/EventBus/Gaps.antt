-- ===== src/EventBus/Gaps.antt =====
-- Where publication and retention do not meet what subscribers rely on: a pause that is lifted,
-- and events that retention drops below a subscription's offset.
use mathlib.Core.List.{append_assoc, map-append}
use mathlib.Core.Path.{subst}
use text.Mathlib.TextPositions.{eq_refl}
use data_nexus.Prelude.{
  ℕ, ◌+◌, ◌-◌, ◌≤◌, ◌<◌, String, true, ◌≡◌, refl, List, [], ◌∷◌, ◌++◌, length, length-append,
  filter, leb, All, arith, le→leb, lt→leb,
}
use data_nexus.Prelude.Dict.{lookup-insert, lookup_or-map_values}
use data_nexus.Config.{Settings, days}
use data_nexus.EventBus.Log.{
  EventBus, Message, StoredEvent, get_events, pause, prune_expired, publish, resume, store_all,
  store_event, topic_depth, topic_log,
}
use data_nexus.EventBus.Delivery.{Handler, Subscription, poll}

module _ {ℓ} {E : Type ℓ} where
  -- A number of `publish` calls at one instant.
  unfoldable pub publish_all : ℕ → List (Message E) → EventBus E → EventBus E
  publish_all now [] b = b
  publish_all now (m ∷ ms) b = publish_all now ms (publish now m b)

  -- A bus on which no publisher waits.
  pub record IsOpen (b : EventBus E) : Type ℓ where
    pub available : b.bus_available ≡ true
    pub idle : b.pending ≡ []

  publish-open :
      (now : ℕ) (m : Message E) (b : EventBus E)
      → IsOpen b
      → publish now m b ≡ record (store_event now m b) { pending = [] }
  unfolding publish store_all
  publish-open now m b o = rw (o.available, o.idle)

  pub publish-IsOpen :
      (now : ℕ) (m : Message E) (b : EventBus E) → IsOpen b → IsOpen (publish now m b)
  unfolding store_event
  publish-IsOpen now m b o =
      rw (publish-open now m b o) (record { available = o.available; idle = refl })

  -- On an available bus a published event becomes the last of its topic.
  pub get_events-publish :
      (now : ℕ) (m : Message E) (b : EventBus E)
      → IsOpen b
      → get_events m.topic (publish now m b) ≡ get_events m.topic b ++ m.event ∷ []
  unfolding store_event get_events
  get_events-publish now m b o =
      rw (publish-open now m b o) (simp (lookup-insert, eq_refl) (rw map-append refl))

  topic_depth-publish :
      (now : ℕ) (m : Message E) (b : EventBus E)
      → IsOpen b
      → topic_depth m.topic (publish now m b) ≡ topic_depth m.topic b + 1
  unfolding store_event topic_depth
  topic_depth-publish now m b o =
      rw (publish-open now m b o)
        (simp (lookup-insert, eq_refl) (length-append (topic_log m.topic b) _))

  topic_depth-publish_all :
      (now : ℕ) (topic : String) (ms : List (Message E)) (b : EventBus E)
      → IsOpen b
      → All (λ m. m.topic ≡ topic) ms
      → topic_depth topic (publish_all now ms b) ≡ topic_depth topic b + length ms
  unfolding publish_all
  topic_depth-publish_all now topic [] b o h = omega arith
  topic_depth-publish_all now topic (m ∷ ms) b o h =
      let one : topic_depth topic (publish now m b) ≡ topic_depth topic b + 1 =
        subst (λ k. topic_depth k (publish now m b) ≡ topic_depth k b + 1) h.0
          (topic_depth-publish now m b o) in
      omega (
        arith,
        topic_depth-publish_all now topic ms (publish now m b) (publish-IsOpen now m b o) h.1,
        one,
      )

  filter_none :
      (cutoff : ℕ) (l : List (StoredEvent E))
      → All (λ e. e.emitted_ts < cutoff) l
      → filter (λ e. leb cutoff e.emitted_ts) l ≡ []
  filter_none cutoff [] h = refl
  filter_none cutoff (e ∷ l) h = rw (lt→leb e.emitted_ts cutoff h.0) (filter_none cutoff l h.1)

  prune-empties :
      (cfg : Settings) (now : ℕ) (topic : String) (b : EventBus E)
      → All (λ e. e.emitted_ts < now - days cfg.event_retention_days) (topic_log topic b)
      → topic_depth topic (prune_expired cfg now b) ≡ 0
  unfolding topic_depth prune_expired
  prune-empties cfg now topic b h = rw (lookup_or-map_values, filter_none _ _ h)

module _ {ℓ} {E H : Type ℓ} where
  -- After retention has dropped every event of a topic, a subscription that had read them all is
  -- given none of the next events, as long as there are not more of them than it had read: each
  -- round waits, though the events are in the topic.
  pub poll-prune_skips :
      (cfg : Settings) (now later : ℕ) (topic : String) (handler : Handler E H) (sub : Subscription)
      (ms : List (Message E)) (b : EventBus E) (h : H)
      → IsOpen b
      → sub.offset ≡ topic_depth topic b
      → All (λ e. e.emitted_ts < now - days cfg.event_retention_days) (topic_log topic b)
      → All (λ m. m.topic ≡ topic) ms
      → length ms ≤ sub.offset
      → let b' = publish_all later ms (prune_expired cfg now b) in
        (topic_depth topic b' ≡ length ms) × (poll topic handler sub b' h ≡ (sub, b', h))
  unfolding poll topic_depth
  poll-prune_skips cfg now later topic handler sub ms b h o read old same few =
      let pruned = prune_expired cfg now b in
      let fresh : IsOpen pruned =
        unfold prune_expired in record { available = o.available; idle = o.idle } in
      let depth : topic_depth topic (publish_all later ms pruned) ≡ length ms = omega (
        arith,
        topic_depth-publish_all later topic ms pruned fresh same,
        prune-empties cfg now topic b old,
      ) in
      (
        depth,
        rw (
            le→leb (length (topic_log topic (publish_all later ms pruned))) sub.offset
              (omega (arith, depth))),
      )

module _ {ℓ} {E : Type ℓ} where
  -- An event published while the bus is paused is not stored when the bus is resumed, but only
  -- by the next publication, and then behind the event of that one.
  pub publish-resume_waits :
      (now later : ℕ) (topic key key' : String) (e f : E) (b : EventBus E)
      → b.pending ≡ []
      → let first : Message E = record { topic = topic; event = e; partition_key = key } in
        let next : Message E = record { topic = topic; event = f; partition_key = key' } in
        let resumed = resume (publish now first (pause b)) in
        (get_events topic resumed ≡ get_events topic b)
        × (get_events topic (publish later next resumed) ≡ get_events topic b ++ f ∷ e ∷ [])
  unfolding publish pause resume get_events store_event store_all
  publish-resume_waits now later topic key key' e f b idle =
      (refl, rw idle (simp (lookup-insert, eq_refl, map-append, append_assoc)))
