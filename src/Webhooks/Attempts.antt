-- ===== src/Webhooks/Attempts.antt =====
-- How often a webhook is sent, and when it counts as delivered.
use data_nexus.Prelude.{
  ℕ, zero, suc, ◌+◌, ◌-◌, ◌≤◌, ◌<◌, true, false, ◌≡◌, refl, [], ◌∷◌, ◌++◌, length, arith,
  Bool-cases, ltb, ltb→lt, inl, inr,
}
use data_nexus.Config.{Settings}
use data_nexus.Service.{Service, WebhookJob}
use data_nexus.Webhooks.Delivery.{
  Attempted, Receiver, accepted, attempt, attempt_from, Post, post_of,
}
use data_nexus.Platform.{Platform}

-- A delivery stops at the first answer in the 2xx range: all answers before it, from the attempt
-- after `start` on, are others. One that is given up has made all of its attempts.
pub record FirstAccepted (receiver : Receiver) (start left : ℕ) (d : Attempted) : Type 0 where
  pub at_most : d.attempts ≤ start + left
  pub refused : (n : ℕ) → start < n → n < d.attempts → accepted (receiver n) ≡ false
  pub delivered :
      d.delivered ≡ true → (start < d.attempts) × (accepted (receiver d.attempts) ≡ true)
  pub given_up :
      d.delivered ≡ false
      → (d.attempts ≡ start + left)
        × ((n : ℕ) → start < n → n ≤ d.attempts → accepted (receiver n) ≡ false)

FirstAccepted-next :
    (receiver : Receiver) (start left : ℕ) (d : Attempted)
    → accepted (receiver (start + 1)) ≡ false
    → FirstAccepted receiver (start + 1) left d
    → FirstAccepted receiver start (suc left) d
FirstAccepted-next receiver start left d bad v = record {
  at_most = omega (arith, v.at_most);
  refused = λ n low high. after n low (λ later. v.refused n later high);
  delivered = λ e. (omega (arith, (v.delivered e).0), (v.delivered e).1);
  given_up = λ e. (
    omega (arith, (v.given_up e).0),
    λ n low high. after n low (λ later. (v.given_up e).1 n later high),
  );
}
  where
    after :
        (n : ℕ)
        → start < n
        → (start + 1 < n → accepted (receiver n) ≡ false)
        → accepted (receiver n) ≡ false
    after n low later = elim (Bool-cases (ltb (start + 1) n)) [
      | inl e ↦ later (ltb→lt (start + 1) n e)
      | inr e ↦ let same : n ≡ start + 1 = ground arith in rw same bad
    ]

attempt_from-FirstAccepted :
    (receiver : Receiver) (left start : ℕ)
    → FirstAccepted receiver start left (attempt_from left start receiver)
unfolding attempt_from
attempt_from-FirstAccepted receiver zero start = record {
  at_most = omega arith;
  refused = λ n low high. ground arith;
  delivered = λ e. cc;
  given_up = λ e. (omega arith, λ n low high. ground arith);
}
attempt_from-FirstAccepted receiver (suc left) start =
    elim (Bool-cases (accepted (receiver (start + 1)))) [
      | inl good ↦ rw good (record {
        at_most = omega arith;
        refused = λ n low high. ground arith;
        delivered = λ _. (omega arith, good);
        given_up = λ e. cc;
      })
      | inr bad ↦ rw bad (
          FirstAccepted-next receiver start left _ bad
            (attempt_from-FirstAccepted receiver left (start + 1)))
    ]

-- A webhook job that has not been tried yet is delivered at the first answer in the 2xx range, or
-- given up after one attempt for every entry of the backoff schedule, none of them so answered. The
-- record of it is added to the deliveries, and its row says so.
pub attempt-FirstAccepted :
    (p : Platform) (cfg : Settings) (receiver : Post → Receiver) (job : WebhookJob) (s : Service)
    → job.attempts ≡ 0
    → (d : Attempted) × FirstAccepted
        (receiver (post_of p cfg job s))
        0
        (length cfg.webhook_backoff_schedule)
        d
      × ((attempt p cfg receiver job s).deliveries
          ≡ s.deliveries
            ++ record {
              delivery_id = job.delivery_id;
              delivered = d.delivered;
              attempts = d.attempts;
            }
              ∷ [])
unfolding attempt
attempt-FirstAccepted p cfg receiver job s new = (
  attempt_from (length cfg.webhook_backoff_schedule) 0 (receiver (post_of p cfg job s)),
  attempt_from-FirstAccepted (receiver (post_of p cfg job s)) _ 0,
  (let whole : length cfg.webhook_backoff_schedule - 0 ≡ length cfg.webhook_backoff_schedule =
        omega arith in
      rw (new, whole) refl),
)
