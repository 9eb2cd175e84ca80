-- ===== src/EventBus/Consumption.antt =====
-- What a subscription reads of its topic: in order while nothing is pruned, and with a gap after
-- retention has dropped events below its offset.
use data_nexus.Prelude.{
  ℕ, zero, suc, ◌+◌, ◌<◌, String, true, false, ◌≡◌, refl, ap, ◌∙◌, some, List, [], ◌∷◌, length,
  drop, get_elem?, string_eq, arith, lt→leb,
}
use data_nexus.EventBus.Log.{EventBus, StoredEvent, topic_depth, topic_log}
use data_nexus.EventBus.Delivery.{
  Handler, Subscription, attempt_from, deliver, new_subscription, poll,
}

module _ {ℓ} {E H : Type ℓ} (handler : Handler E H) where
  -- The state of a handler that is given some events, each once and in their order.
  unfoldable pub feed : List (StoredEvent E) → H → H
  feed [] h = h
  feed (e ∷ l) h = feed l (handler e.event h).1

module _ {ℓ} {E H : Type ℓ} (topic : String) (handler : Handler E H) where
  -- A number of rounds of `_run_subscription`.
  unfoldable pub poll_times : ℕ → Subscription → EventBus E → H → Subscription × EventBus E × H
  poll_times zero sub b h = (sub, b, h)
  poll_times (suc n) sub b h =
      let (sub', b', h') = poll topic handler sub b h in poll_times n sub' b' h'

module _ {ℓ} {A : Type ℓ} where
  drop-cons :
      (o : ℕ) (l : List A) (x : A) (rest : List A)
      → drop o l ≡ x ∷ rest
      → (get_elem? l o ≡ some x) × (drop (suc o) l ≡ rest) × (o < length l)
  drop-cons zero [] x rest h = absurd (cc)
  drop-cons zero (y ∷ l) x rest h = (cc, cc, omega arith)
  drop-cons (suc o) [] x rest h = absurd (cc)
  drop-cons (suc o) (y ∷ l) x rest h = let (p, q, r) = drop-cons o l x rest h in (p, q, omega arith)

module _ {ℓ} {E H : Type ℓ} (topic : String) (handler : Handler E H) (b : EventBus E)
    (succeeds : (e : E) (h : H) → (handler e h).0 ≡ true) where
  poll_one :
      (sub : Subscription) (h : H) (e : StoredEvent E) (rest : List (StoredEvent E))
      → sub.paused ≡ false
      → drop sub.offset (topic_log topic b) ≡ e ∷ rest
      → poll topic handler sub b h
        ≡ (record sub { offset = sub.offset + 1 }, b, (handler e.event h).1)
  unfolding poll deliver attempt_from
  poll_one sub h e rest awake at =
      let (here, next, below) = drop-cons sub.offset (topic_log topic b) e rest at in
      rw (lt→leb sub.offset (length (topic_log topic b)) below, awake, here, succeeds e.event h)

  poll_rest :
      (rest : List (StoredEvent E)) (sub : Subscription) (h : H)
      → sub.paused ≡ false
      → drop sub.offset (topic_log topic b) ≡ rest
      → poll_times topic handler (length rest) sub b h
        ≡ (record sub { offset = sub.offset + length rest }, b, feed handler rest h)
  unfolding poll_times feed
  poll_rest [] sub h awake at =
      let same : sub.offset ≡ sub.offset + 0 = omega arith in
      ap (λ (o : ℕ). (record sub { offset = o }, b, h)) same
  poll_rest (e ∷ rest) sub h awake at =
      let (here, next, below) = drop-cons sub.offset (topic_log topic b) e rest at in
      let moved : sub.offset + 1 ≡ suc sub.offset = omega arith in
      let sum : sub.offset + 1 + length rest ≡ sub.offset + suc (length rest) = omega arith in
      let tail : drop (sub.offset + 1) (topic_log topic b) ≡ rest = rw moved next in
      ap (λ (r : Subscription × EventBus E × H). poll_times topic handler (length rest) r.0 r.1 r.2)
        (poll_one sub h e rest awake at)
      ∙ poll_rest rest (record sub { offset = sub.offset + 1 }) (handler e.event h).1 awake tail
      ∙ ap (λ (o : ℕ). (record sub { offset = o }, b, feed handler rest (handler e.event h).1)) sum

  -- A subscription from offset 0 whose handler never raises is given every event of the topic,
  -- each once and in the order of publication, in as many rounds as there are events; the bus
  -- stays as it is, and the offset ends at the depth of the topic.
  pub poll_in_order :
      (group : String) (h : H)
      → poll_times topic handler (topic_depth topic b) (new_subscription group) b h ≡ (
        record (new_subscription group) { offset = topic_depth topic b },
        b,
        feed handler (topic_log topic b) h,
      )
  unfolding topic_depth new_subscription
  poll_in_order group h =
      let sum : 0 + length (topic_log topic b) ≡ length (topic_log topic b) = omega arith in
      poll_rest (topic_log topic b) (new_subscription group) h refl refl
      ∙ ap
          (λ (o : ℕ).
            (record (new_subscription group) { offset = o }, b, feed handler (topic_log topic b) h))
          sum
