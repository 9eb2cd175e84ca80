-- ===== src/Api/Cap.antt =====
-- The cap on the active extracts of an application.
use data_nexus.Prelude.{
  ◌+◌, ◌≤◌, ◌<◌, String, ◌&&◌, ◌≡◌, refl, ◌⊎◌, inl, inr, List, [], ◌∷◌, ◌++◌, length, filter, any,
  leb, ◌==◌, string_eq, eq_iff, if◌then◌else◌, arith, Bool-cases,
}
use data_nexus.Config.{Settings}
use data_nexus.Errors.{ExtractError}
use data_nexus.Exec.{Result, ok, err}
use data_nexus.Models.Enums.{status_eq}
use data_nexus.Models.Request.{CreateExtractRequest}
use data_nexus.Platform.{Platform}
use data_nexus.Metrics.{set_gauge}
use data_nexus.Storage.Rows.{ExtractRow}
use data_nexus.Storage.Apps.{audit}
use data_nexus.Storage.Extracts.{
  count_active_extracts, create_extract, has_key, is_active, new_row, record_idempotency,
}
use data_nexus.Auth.Principals.{check_entitlements}
use data_nexus.Auth.Limiter.{check_concurrent}
use data_nexus.Service.{Service}
use data_nexus.Worker.Queue.{enqueue}
use data_nexus.Api.Create.{
  accept, estimate_duration, make_extract_id, new_extract, request_fingerprint,
}
use data_nexus.Api.Idempotency.{fresh_id, fresh_row}

count-append :
    (app : String) (l : List ExtractRow) (x : ExtractRow)
    → length (filter (λ r. r.app_id == app && is_active r.status) (l ++ x ∷ []))
      ≡ length (filter (λ r. r.app_id == app && is_active r.status) l)
        + (if x.app_id == app && is_active x.status then 1 else 0)
count-append app [] x = ground arith
count-append app (y ∷ l) x = ground (arith, count-append app l x)

pub Result-cases :
    {A : Type 0} (x : Result A) → ((a : A) × (x ≡ ok a)) ⊎ ((e : ExtractError) × (x ≡ err e))
Result-cases (ok a) = inl (a, refl)
Result-cases (err e) = inr (e, refl)

module _ (p : Platform) (cfg : Settings) (suffix app : String) (r : CreateExtractRequest)
    (s : Service) where
  -- What `accept` does to the table of extracts: nothing, or one row, and that only below the cap.
  abbrev Adds : List ExtractRow → Type 0
  Adds rows =
      (rows ≡ s.storage.extracts)
      ⊎ ((count_active_extracts app s.storage < cfg.rate_limit_concurrent_extracts)
          × ((scope : List String) × (rows
                ≡ s.storage.extracts ++ fresh_row p cfg suffix app r s scope ∷ [])))

  accept-Adds : Adds (accept p cfg suffix app r s).1.storage.extracts
  unfolding accept check_concurrent create_extract record_idempotency new_extract make_extract_id
      request_fingerprint estimate_duration audit enqueue set_gauge
  accept-Adds = elim (Result-cases (check_entitlements app r.fund_scope s.storage)) [
    | inr (e, denied) ↦ rw denied (inl refl)
    | inl (scope, entitled) ↦
        elim (Bool-cases
          (leb cfg.rate_limit_concurrent_extracts (count_active_extracts app s.storage))) [
            | inl full ↦ rw (entitled, full) (inl refl)
            | inr below ↦
                elim (Bool-cases
                  (any (λ x. x.extract_id == fresh_id p cfg suffix app r s) s.storage.extracts)) [
                    | inl taken ↦ rw (entitled, below, taken) (inl refl)
                    | inr free ↦
                        elim (Bool-cases
                          (any (has_key app r.idempotency_key) s.storage.idempotency)) [
                            | inl known ↦
                                rw (entitled, below, free, known)
                                  (inr (ground arith, (scope, refl)))
                            | inr fresh ↦
                                rw (entitled, below, free, fresh)
                                  (inr (ground arith, (scope, refl)))
                          ]
                  ]
          ]
  ]

  -- A request for an extract never takes an application over its cap: whatever application and
  -- whatever answer, when at most `rate_limit_concurrent_extracts` extracts of the application
  -- were active before, at most that many are after.
  pub accept-IsCapped :
      (app' : String)
      → count_active_extracts app' s.storage ≤ cfg.rate_limit_concurrent_extracts
      → count_active_extracts app' (accept p cfg suffix app r s).1.storage
        ≤ cfg.rate_limit_concurrent_extracts
  unfolding new_row new_extract count_active_extracts
  accept-IsCapped app' capped = elim accept-Adds [
    | inl same ↦ rw same capped
    | inr (below, (scope, added)) ↦
        rw (added, count-append app' s.storage.extracts (fresh_row p cfg suffix app r s scope))
          (ground (arith, eq_iff app app'))
  ]
