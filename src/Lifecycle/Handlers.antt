-- ===== src/Lifecycle/Handlers.antt =====
-- The handlers move extracts along the diagram: `create_extract`, `cancel_extract` and the reads.
use data_nexus.Prelude.{
  String, false, ◌≡◌, refl, ◌⊎◌, inl, inr, Option, none, some, List, [], ◌∷◌, ◌++◌, any, leb, ◌==◌,
  string_eq, arith, Bool-cases, Option-cases,
}
use data_nexus.Config.{Settings}
use data_nexus.Models.Enums.{ExtractStatus, is_terminal}
use data_nexus.Models.Request.{CreateExtractRequest}
use data_nexus.Metrics.{set_gauge}
use data_nexus.Platform.{Platform}
use data_nexus.Storage.Rows.{IdempotencyRow}
use data_nexus.Storage.Apps.{audit, prune_rl_events, record_rl_event}
use data_nexus.Storage.Extracts.{
  count_active_extracts, create_extract, get_extract, has_key, lookup_idempotency, new_row,
  record_idempotency,
}
use data_nexus.Auth.Limiter.{check_concurrent, check_request}
use data_nexus.Auth.Principals.{Principal, check_entitlements}
use data_nexus.Service.{Job, Service, now, on_worker}
use data_nexus.Worker.Queue
use data_nexus.Worker.Queue.{enqueue, put}
use data_nexus.Worker.Outcome.{status_of}
use data_nexus.Api.Cancel.{cancel, cancel_row, mark_cancelled, owned}
use data_nexus.Api.Cap.{Result-cases}
use data_nexus.Api.Idempotency.{fresh_id, fresh_row}
use data_nexus.Api.Create.{
  accept, by_key, create, estimate_duration, make_extract_id, new_extract, replay, replay_row,
  request_fingerprint, validate_request, with_storage,
}
use data_nexus.Lifecycle.Diagram.{◌⟶◌, one}
use data_nexus.Lifecycle.Board.{
  Behaves, Moved, Moved-trans, Moved-refl, Same, Saves, Saves-Same, Saves-update, Sound, Sound-Same,
  Sound-Saves,
}
use data_nexus.Lifecycle.Adding.{Adds, Sound-Adds}

-- The service after a call of the database in a handler.
abbrev pub checked : Settings → String → Service → Service
checked cfg app s = record s { storage = (check_request cfg s.time app s.storage).1 }

pub Same-checked : (cfg : Settings) (app : String) (s : Service) → Same s (checked cfg app s)
unfolding check_request prune_rl_events record_rl_event
Same-checked cfg app s = (ground arith, refl)

module _ (p : Platform) (cfg : Settings) (suffix app : String) (r : CreateExtractRequest)
    (held : List String) (s : Service) where
  -- The row of a request that is accepted, with its job or without it, where the key is known.
  added :
      (scope : List String) {s' : Service}
      → any (λ x. x.extract_id == fresh_id p cfg suffix app r s) s.storage.extracts ≡ false
      → s'.storage.extracts ≡ s.storage.extracts ++ fresh_row p cfg suffix app r s scope ∷ []
      → ((s'.worker.queue ≡ s.worker.queue)
          ⊎ ((j : Job) × (j.extract_id ≡ fresh_id p cfg suffix app r s)
              × (s'.worker.queue ≡ put j s.worker.queue)))
      → Adds s s'
  unfolding new_row new_extract
  added scope free rows queue = record {
    row = fresh_row p cfg suffix app r s scope;
    accepted = refl;
    fresh = free;
    rows = rows;
    queue = queue;
  }

  Moved-accept : Sound held s → Moved held s (accept p cfg suffix app r s).1
  unfolding accept check_concurrent create_extract record_idempotency new_extract make_extract_id
      request_fingerprint estimate_duration audit enqueue set_gauge
  Moved-accept v = elim (Result-cases (check_entitlements app r.fund_scope s.storage)) [
    | inr (e, denied) ↦ rw denied (Moved-refl held s v)
    | inl (scope, entitled) ↦
        elim (Bool-cases
          (leb cfg.rate_limit_concurrent_extracts (count_active_extracts app s.storage))) [
            | inl full ↦ rw (entitled, full) (Moved-refl held s v)
            | inr below ↦
                elim (Bool-cases
                  (any (λ x. x.extract_id == fresh_id p cfg suffix app r s) s.storage.extracts)) [
                    | inl taken ↦ rw (entitled, below, taken) (Moved-refl held s v)
                    | inr free ↦
                        elim (Bool-cases
                          (any (has_key app r.idempotency_key) s.storage.idempotency)) [
                            | inl known ↦
                                rw (entitled, below, free, known)
                                  (Sound-Adds held s _ (added scope free refl (inl refl)) v)
                            | inr fresh ↦
                                rw (entitled, below, free, fresh)
                                  (Sound-Adds held s _ (added scope free refl (inr (_, refl, refl)))
                                    v)
                          ]
                  ]
          ]
  ]

  Moved-by_key :
      (known : Option IdempotencyRow)
      → Sound held s
      → Moved held s (by_key known p cfg suffix app r s).1
  unfolding by_key replay replay_row
  Moved-by_key none v = Moved-accept v
  Moved-by_key (some known) v =
      elim (Bool-cases (known.request_fingerprint == request_fingerprint p r)) [
        | inl same ↦ elim (Option-cases (get_extract known.extract_id s.storage)) [
          | inl lost ↦ rw (same, lost) (Moved-refl held s v)
          | inr (row, found) ↦ rw (same, found) (Moved-refl held s v)
        ]
        | inr other ↦ rw other (Moved-refl held s v)
      ]

-- A request for an extract behaves.
pub Behaves-create :
    (p : Platform) (cfg : Settings) (suffix : String) (who : Principal) (r : CreateExtractRequest)
    (held : List String)
    → Behaves held (λ s. (create p cfg suffix who r s).1)
unfolding create with_storage
Behaves-create p cfg suffix who r held s v =
    let s₁ = checked cfg who.app_id s in
    let first = Sound-Same held s s₁ (Same-checked cfg who.app_id s) v in
    let known = lookup_idempotency cfg (now s₁) who.app_id r.idempotency_key s₁.storage in
    elim (Bool-cases (r.requester.app_id == who.app_id)) [
      | inr foreign ↦ rw foreign (Moved-refl held s v)
      | inl own ↦ elim (Result-cases (check_request cfg s.time who.app_id s.storage).0) [
        | inr (e, limited) ↦ rw (own, limited) first
        | inl (h, allowed) ↦ elim (Result-cases (validate_request cfg r)) [
          | inr (e, bad) ↦ rw (own, allowed, bad) first
          | inl (u, valid) ↦
              rw (own, allowed, valid)
                (Moved-trans held s s₁ _ first
                  (Moved-by_key p cfg suffix who.app_id r held s₁ known))
        ]
      ]
    ]

Saves-mark_cancelled :
    (app id : String) (s : Service) → Saves id ExtractStatus.cancelled s (mark_cancelled app id s)
unfolding mark_cancelled audit Queue.cancel
Saves-mark_cancelled app id s =
    Saves-Same id ExtractStatus.cancelled s (on_worker (Queue.cancel id) s) _ _ (refl, ground arith)
      (Saves-update _ id _ _ refl) (refl, refl)

Moved-mark_cancelled :
    (app id : String) (st : ExtractStatus) (held : List String) (s : Service)
    → status_of id s ≡ some st
    → is_terminal st ≡ false
    → Sound held s
    → Moved held s (mark_cancelled app id s)
unfolding is_terminal
Moved-mark_cancelled app id ExtractStatus.accepted held s old open_now v =
    Sound-Saves id s (mark_cancelled app id s) (Saves-mark_cancelled app id s) old held
      (λ h. inr refl) (λ h. inr refl) (one ◌⟶◌.withdraw) v
Moved-mark_cancelled app id ExtractStatus.running held s old open_now v =
    Sound-Saves id s (mark_cancelled app id s) (Saves-mark_cancelled app id s) old held
      (λ h. inr refl) (λ h. inr refl) (one ◌⟶◌.cancel) v
Moved-mark_cancelled app id _ held s old open_now v = absurd cc

Moved-cancel_row :
    (app id : String) (held : List String) (s : Service)
    → Sound held s
    → Moved held s (cancel_row app id (owned app (get_extract id s.storage)) s).1
unfolding cancel_row owned
Moved-cancel_row app id held s v = elim (Option-cases (get_extract id s.storage)) [
  | inl lost ↦ rw lost (Moved-refl held s v)
  | inr (row, found) ↦ elim (Bool-cases (row.app_id == app)) [
    | inr foreign ↦ rw (found, foreign) (Moved-refl held s v)
    | inl own ↦ elim (Bool-cases (is_terminal row.status)) [
      | inl ended ↦ rw (found, own, ended) (Moved-refl held s v)
      | inr open_now ↦
          rw (found, own, open_now)
            (Moved-mark_cancelled app id row.status held s (rw found refl) open_now v)
    ]
  ]
]

-- A request to cancel an extract behaves.
pub Behaves-cancel :
    (cfg : Settings) (who : Principal) (id : String) (held : List String)
    → Behaves held (λ s. (cancel cfg who id s).1)
unfolding cancel with_storage
Behaves-cancel cfg who id held s v =
    let s₁ = checked cfg who.app_id s in
    let first = Sound-Same held s s₁ (Same-checked cfg who.app_id s) v in
    elim (Result-cases (check_request cfg s.time who.app_id s.storage).0) [
      | inr (e, limited) ↦ rw limited first
      | inl (h, allowed) ↦
          rw allowed (Moved-trans held s s₁ _ first (Moved-cancel_row who.app_id id held s₁))
    ]
