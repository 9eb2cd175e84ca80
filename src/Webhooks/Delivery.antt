-- ===== src/Webhooks/Delivery.antt =====
-- extract_service/webhooks.py: the attempts of `WebhookDelivery._attempt`. What a POST does is the
-- answer of the receiver to the request: a status code, or an exception.
use data_nexus.Prelude.{
  ℕ, zero, suc, ◌+◌, ◌-◌, String, Bool, true, false, ◌&&◌, Option, none, some, [], ◌∷◌, ◌++◌,
  length, leb, ltb, if◌then◌else◌,
}
use data_nexus.Prelude.Dict.{Dict}
use data_nexus.Prelude.Text.{concat, is_blank}
use data_nexus.Platform.{Platform}
use data_nexus.Config.{Settings}
use data_nexus.Storage.Rows.{AppRow}
use data_nexus.Storage.Apps.{audit, get_app}
use data_nexus.Service.{Service, WebhookJob, now, on_storage}

-- What a POST sends.
pub record Post : Type 0 where
  pub url : String
  pub content : String
  pub headers : Dict String

-- The answer to the attempt of a number, counted from 1; `none` is an exception.
abbrev pub Receiver : Type 0
Receiver = ℕ → Option ℕ

-- `200 <= resp.status_code < 300`
unfoldable pub accepted : Option ℕ → Bool
accepted none = false
accepted (some status) = leb 200 status && ltb status 300

pub record Attempted : Type 0 where
  pub delivered : Bool
  pub attempts : ℕ

-- The loop of `_attempt` with `left` rounds left, after `attempts` rounds.
unfoldable pub attempt_from : ℕ → ℕ → Receiver → Attempted
unfolding accepted
attempt_from zero attempts receiver = record { delivered = false; attempts = attempts }
attempt_from (suc left) attempts receiver =
    let again = attempt_from left (attempts + 1) receiver in
    if accepted (receiver (attempts + 1))
    then record { delivered = true; attempts = attempts + 1 }
    else again

abbrev outcome_action : Bool → String
outcome_action true = "webhook.delivered"
outcome_action false = "webhook.failed"

abbrev outcome_text : Bool → String
outcome_text true = "success"
outcome_text false = "failure"

secret_of : Option AppRow → String → String
secret_of none default = default
secret_of (some app) default = elim app.webhook_secret [
  | none ↦ default
  | some secret ↦ if is_blank secret then default else secret
]

-- `_get_secret`
unfoldable pub get_secret : Settings → String → Service → String
unfolding secret_of
get_secret cfg app s = secret_of (get_app app s.storage) cfg.webhook_signing_secret_default

-- The value of X-Extract-Signature.
unfoldable pub signature : Platform → String → String → String
signature p secret payload = concat ("sha256=" ∷ p.hmac_sha256_hex secret payload ∷ [])

unfoldable pub post_of : Platform → Settings → WebhookJob → Service → Post
unfolding signature get_secret
post_of p cfg job s = record {
  url = job.url;
  content = p.event_json job.body;
  headers =
      ("Content-Type", "application/json")
      ∷ ("X-Extract-Signature", signature p (get_secret cfg job.app_id s) (p.event_json job.body))
      ∷ ("X-Extract-Event", job.event_type)
      ∷ ("X-Extract-Delivery", job.delivery_id)
      ∷ [];
}

-- `_attempt`
unfoldable pub attempt : Platform → Settings → (Post → Receiver) → WebhookJob → Service → Service
unfolding attempt_from post_of
attempt p cfg receiver job s =
    let done =
      attempt_from (length cfg.webhook_backoff_schedule - job.attempts) job.attempts
        (receiver (post_of p cfg job s)) in
    on_storage
      (audit (now s) (some job.app_id) (outcome_action done.delivered) (some job.body.extract_id)
        (outcome_text done.delivered))
      (record s {
        deliveries =
            s.deliveries
            ++ record {
              delivery_id = job.delivery_id;
              delivered = done.delivered;
              attempts = done.attempts;
            }
              ∷ [];
      })

-- A round of `_run`: takes the job at the head of the queue.
unfoldable pub run_next : Platform → Settings → (Post → Receiver) → Service → Service
unfolding attempt
run_next p cfg receiver s = elim s.webhooks [
  | [] ↦ s
  | job ∷ jobs ↦ attempt p cfg receiver job (record s { webhooks = jobs })
]
