-- ===== src/EventBus/Retries.antt =====
-- What the delivery loop does with a handler, by its answers to the calls.
use mathlib.Core.List.{map-append}
use text.Mathlib.TextPositions.{eq_refl}
use data_nexus.Prelude.{
  ℕ, zero, suc, ◌+◌, ◌<◌, String, Bool, true, false, ◌≡◌, refl, List, [], ◌∷◌, ◌++◌, arith,
}
use data_nexus.Prelude.Dict.{lookup-insert}
use data_nexus.EventBus.Log.{EventBus, StoredEvent, get_dlq}
use data_nexus.EventBus.Delivery.{Handler, attempt_from, deliver, retry_delay, to_dlq}

module _ {ℓ} {E H : Type ℓ} (handler : Handler E H) (e : E) where
  -- The handler's state after a number of calls for one event.
  unfoldable pub state_after : ℕ → H → H
  state_after zero h = h
  state_after (suc n) h = state_after n (handler e h).1

  -- The answer to the call of a number, counted from 0.
  abbrev pub answer : ℕ → H → Bool
  answer n h = (handler e (state_after n h)).0

  all_fail :
      (left attempt : ℕ) (h : H) (sleeps : List ℕ)
      → ((n : ℕ) → n < left → answer n h ≡ false)
      → ((attempt_from left attempt handler e h sleeps).delivered ≡ false)
        × ((attempt_from left attempt handler e h sleeps).state ≡ state_after left h)
  unfolding attempt_from state_after
  all_fail zero attempt h sleeps fails = (refl, refl)
  all_fail (suc left) attempt h sleeps fails =
      let first : (handler e h).0 ≡ false = fails 0 (omega arith) in
      rw first (
        all_fail left (attempt + 1) (handler e h).1 (sleeps ++ retry_delay (attempt + 1) ∷ [])
          (λ n lt. fails (suc n) (omega arith)))

  first_success :
      (left attempt k : ℕ) (h : H) (sleeps : List ℕ)
      → k < left
      → ((n : ℕ) → n < k → answer n h ≡ false)
      → answer k h ≡ true
      → ((attempt_from left attempt handler e h sleeps).delivered ≡ true)
        × ((attempt_from left attempt handler e h sleeps).state ≡ state_after (suc k) h)
  unfolding attempt_from state_after
  first_success zero attempt k h sleeps lt fails succeeds = absurd (omega arith)
  first_success (suc left) attempt zero h sleeps lt fails succeeds = rw succeeds (refl, refl)
  first_success (suc left) attempt (suc k) h sleeps lt fails succeeds =
      let first : (handler e h).0 ≡ false = fails 0 (omega arith) in
      rw first (
        first_success left (attempt + 1) k (handler e h).1
          (sleeps ++ retry_delay (attempt + 1) ∷ []) (omega arith)
          (λ n below. fails (suc n) (omega arith)) succeeds)

module _ {ℓ} {E H : Type ℓ} (topic : String) (handler : Handler E H) (e : StoredEvent E)
    (b : EventBus E) (h : H) where
  -- When the handler raises at its first k calls, with k below five, and returns at the next,
  -- the event counts as delivered: the bus is unchanged, and the handler was called k + 1 times.
  pub deliver_success :
      (k : ℕ)
      → k < 5
      → ((n : ℕ) → n < k → answer handler e.event n h ≡ false)
      → answer handler e.event k h ≡ true
      → deliver topic handler e b h ≡ (b, state_after handler e.event (suc k) h)
  unfolding deliver
  deliver_success k lt fails succeeds =
      let done = first_success handler e.event 5 0 k h [] lt fails succeeds in rw (done.0, done.1)

  -- When the handler raises at each of its five calls, the event becomes the last dead letter of
  -- the topic, and the topics and offsets of the bus stay as they are.
  pub deliver_dead_letter :
      ((n : ℕ) → n < 5 → answer handler e.event n h ≡ false)
      → let (b', h') = deliver topic handler e b h in
        (get_dlq topic b' ≡ get_dlq topic b ++ e.event ∷ [])
        × (b'.topics ≡ b.topics)
        × (b'.next_offset ≡ b.next_offset)
        × (h' ≡ state_after handler e.event 5 h)
  unfolding deliver to_dlq get_dlq
  deliver_dead_letter fails =
      let done = all_fail handler e.event 5 0 h [] fails in
      rw done.0 (simp (lookup-insert, eq_refl) (rw map-append refl), refl, refl, done.1)
