-- ===== src/Webhooks/Signed.antt =====
-- The signature of a webhook, against a receiver that checks it.
use data_nexus.Prelude.{
  ℕ, zero, suc, ◌+◌, ◌-◌, ◌<◌, String, Bool, true, false, Option, none, some, [], ◌∷◌, ◌++◌, ◌≡◌,
  refl, ◌==◌, string_eq, if◌then◌else◌, length, eq_iff, arith, ap, ◌∙◌,
}
use data_nexus.Prelude.Dict.{lookup}
use data_nexus.Prelude.Text.{concat}
use data_nexus.Config.{Settings}
use data_nexus.Platform.{Platform}
use data_nexus.Service.{DeliveryRecord, Service, WebhookJob}
use data_nexus.Webhooks.Delivery.{
  Post, Receiver, accepted, attempt, attempt_from, get_secret, post_of, signature,
}

check_header : Option String → String → Option ℕ
check_header none expected = some 401
check_header (some sent) expected = if sent == expected then some 204 else some 401

-- The header that a receiver with a key asks for: the digest of the body alone.
abbrev pub expected_header : Platform → String → String → String
expected_header p key content = concat ("sha256=" ∷ p.hmac_sha256_hex key content ∷ [])

-- A receiver with a key, which accepts what is signed with it and refuses all else.
unfoldable pub verifier : Platform → String → Post → Receiver
unfolding check_header
verifier p key post n =
    check_header (lookup "X-Extract-Signature" post.headers) (expected_header p key post.content)

-- A receiver that accepts nothing is asked each time.
attempt_from_refused :
    (receiver : Receiver) (left start : ℕ)
    → ((n : ℕ) → accepted (receiver n) ≡ false)
    → attempt_from left start receiver ≡ record { delivered = false; attempts = start + left }
unfolding attempt_from
attempt_from_refused receiver zero start bad =
    ap (λ n. record { delivered = false; attempts = n }) (omega arith)
attempt_from_refused receiver (suc left) start bad =
    let more : start + 1 + left ≡ start + suc left = omega arith in
    rw (bad (start + 1), attempt_from_refused receiver left (start + 1) bad, more) refl

attempt_from_accepted :
    (receiver : Receiver) (left start : ℕ)
    → ((n : ℕ) → accepted (receiver n) ≡ true)
    → 0 < left
    → attempt_from left start receiver ≡ record { delivered = true; attempts = start + 1 }
unfolding attempt_from
attempt_from_accepted receiver zero start good some_left = absurd (omega (arith, some_left))
attempt_from_accepted receiver (suc left) start good some_left = rw (good (start + 1)) refl

accepted-verifier :
    (p : Platform) (cfg : Settings) (key : String) (job : WebhookJob) (s : Service) (n : ℕ)
    → accepted (verifier p key (post_of p cfg job s) n) ≡ (
        expected_header p (get_secret cfg job.app_id s) (p.event_json job.body)
        == expected_header p key (p.event_json job.body))
unfolding accepted verifier check_header post_of lookup signature
accepted-verifier p cfg key job s n = ground arith

-- The record of a delivery that took some attempts.
abbrev pub delivery : WebhookJob → Bool → ℕ → DeliveryRecord
delivery job delivered attempts = record {
  delivery_id = job.delivery_id;
  delivered = delivered;
  attempts = attempts;
}

attempt_deliveries :
    (p : Platform) (cfg : Settings) (receiver : Post → Receiver) (job : WebhookJob) (s : Service)
    (delivered : Bool) (attempts : ℕ)
    → job.attempts ≡ 0
    → attempt_from (length cfg.webhook_backoff_schedule) 0 (receiver (post_of p cfg job s))
      ≡ record { delivered = delivered; attempts = attempts }
    → (attempt p cfg receiver job s).deliveries
      ≡ s.deliveries ++ delivery job delivered attempts ∷ []
unfolding attempt
attempt_deliveries p cfg receiver job s delivered attempts new h =
    let whole : length cfg.webhook_backoff_schedule - 0 ≡ length cfg.webhook_backoff_schedule =
      omega arith in
    rw (new, whole, h) refl

-- A receiver that accepts exactly what carries `sha256=` and the digest of the body with its key: with the secret of
-- the application it gets the webhook at the first attempt, and with a key that signs this event
-- otherwise it gets none, and the delivery is given up after an attempt for every entry of the
-- backoff schedule, of which there is one at least.
pub attempt-verifier :
    (p : Platform) (cfg : Settings) (key : String) (job : WebhookJob) (s : Service)
    → job.attempts ≡ 0
    → 0 < length cfg.webhook_backoff_schedule
    → (expected_header p (get_secret cfg job.app_id s) (p.event_json job.body)
        == expected_header p key (p.event_json job.body))
      ≡ false
    → ((attempt p cfg (verifier p (get_secret cfg job.app_id s)) job s).deliveries
        ≡ s.deliveries ++ delivery job true 1 ∷ [])
      × ((attempt p cfg (verifier p key) job s).deliveries
          ≡ s.deliveries ++ delivery job false (length cfg.webhook_backoff_schedule) ∷ [])
attempt-verifier p cfg key job s new some_left differ =
    let secret = get_secret cfg job.app_id s in
    let payload = p.event_json job.body in
    let same : (expected_header p secret payload == expected_header p secret payload) ≡ true =
      (eq_iff (expected_header p secret payload) (expected_header p secret payload)).1 refl in
    (
      attempt_deliveries p cfg (verifier p secret) job s true 1 new (
          attempt_from_accepted (verifier p secret (post_of p cfg job s)) _ 0
            (λ n. accepted-verifier p cfg secret job s n ∙ same) some_left),
      attempt_deliveries p cfg (verifier p key) job s false _ new (
          attempt_from_refused (verifier p key (post_of p cfg job s)) _ 0
            (λ n. accepted-verifier p cfg key job s n ∙ differ)
          ∙ ap (λ n. record { delivered = false; attempts = n }) (omega arith)),
    )
