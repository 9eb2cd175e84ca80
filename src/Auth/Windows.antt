-- ===== src/Auth/Windows.antt =====
-- What the sliding windows of class `RateLimiter` guarantee.
use data_nexus.Prelude.{
  ℕ, ◌+◌, ◌-◌, ◌/◌, ◌≤◌, ◌<◌, String, ◌≡◌, ◌↔◌, inl, inr, leb, if◌then◌else◌, eq_iff, arith,
  Bool-cases,
}
use data_nexus.Config.{Settings}
use data_nexus.Errors.{ExtractError}
use data_nexus.Exec.{Result, ok, err}
use data_nexus.Storage.Rows.{Storage}
use data_nexus.Storage.Apps.{count_rl_events, prune_rl_events, record_rl_event}
use data_nexus.Storage.Lookup.{count-later, count-prune, count-record}
use data_nexus.Auth.Limiter.{RateHeaders, check_request, window_start}

-- The requests of an application that count at an instant.
abbrev pub recent : String → ℕ → Storage → ℕ
recent app t s = count_rl_events app "request" (window_start t) s

-- A request is refused exactly when the minute before it already has the allowed number of
-- requests of its application, and then it is refused with status 429 and 60 seconds.
pub check_request_exact :
    (cfg : Settings) (t : ℕ) (app : String) (s : Storage)
    → ((check_request cfg t app s).0 ≡ err (ExtractError.rate_limited 60))
      ↔ (cfg.rate_limit_requests_per_minute ≤ recent app t s)
unfolding check_request
check_request_exact cfg t app s =
    let e =
      count-prune app "request" (window_start t) (window_start t - 3600000000) s (omega arith) in
    ground (arith, e)

-- At most the allowed number of requests of any application fall into the minute before `t`.
abbrev pub IsLimited : Settings → String → ℕ → Storage → Type 0
IsLimited cfg app t s = recent app t s ≤ cfg.rate_limit_requests_per_minute

-- A request that is let in takes a place that was free.
record-IsLimited :
    (cfg : Settings) (app app' : String) (t : ℕ) (s : Storage)
    → recent app' t s < cfg.rate_limit_requests_per_minute
    → IsLimited cfg app t s
    → IsLimited cfg app t (record_rl_event app' "request" t s)
record-IsLimited cfg app app' t s free h =
    ground (arith, count-record app "request" app' "request" (window_start t) t s, eq_iff app' app)

prune-IsLimited :
    (cfg : Settings) (app : String) (t t' : ℕ) (s : Storage)
    → t ≤ t'
    → IsLimited cfg app t s
    → IsLimited cfg app t' (prune_rl_events (window_start t' - 3600000000) s)
prune-IsLimited cfg app t t' s h v = omega (
  arith,
  count-prune app "request" (window_start t') (window_start t' - 3600000000) s (omega arith),
  count-later app "request" (window_start t) (window_start t') s (omega arith),
)

check_request-IsLimited :
    (cfg : Settings) (app app' : String) (t t' : ℕ) (s : Storage)
    → t ≤ t'
    → IsLimited cfg app t s
    → IsLimited cfg app t' (check_request cfg t' app' s).1
unfolding check_request
check_request-IsLimited cfg app app' t t' s h v =
    let s' = prune_rl_events (window_start t' - 3600000000) s in
    let pruned = prune-IsLimited cfg app t t' s h v in
    elim (Bool-cases (leb cfg.rate_limit_requests_per_minute (recent app' t' s'))) [
      | inl full ↦ rw full pruned
      | inr free ↦ rw free (record-IsLimited cfg app app' t' s' (ground arith) pruned)
    ]

-- What a check answers, by the number of requests in the minute before.
abbrev pub answer_at : Settings → ℕ → ℕ → Result RateHeaders
answer_at cfg t n =
    if leb cfg.rate_limit_requests_per_minute n
    then err (ExtractError.rate_limited 60)
    else ok (record {
      limit = cfg.rate_limit_requests_per_minute;
      remaining = cfg.rate_limit_requests_per_minute - n - 1;
      reset = t / 1000000 + 60;
    })

-- A check by one application at a later instant: it is answered 429 when the minute before has
-- the allowed number of its requests already, and let in otherwise, with what is left of the
-- limit; a request that is let in counts from then on, a refused one does not; and the windows of
-- all applications stay within the limit.
pub check_request_meters :
    (cfg : Settings) (app app' : String) (t t' : ℕ) (s : Storage)
    → t ≤ t'
    → IsLimited cfg app t s
    → let n = recent app' t' s in
      let (answer, s') = check_request cfg t' app' s in
      (answer ≡ answer_at cfg t' n)
      × (recent app' t' s' ≡ (if leb cfg.rate_limit_requests_per_minute n then n else n + 1))
      × IsLimited cfg app t' s'
unfolding check_request
check_request_meters cfg app app' t t' s later v =
    let s' = prune_rl_events (window_start t' - 3600000000) s in
    let pruned : recent app' t' s' ≡ recent app' t' s =
      count-prune app' "request" (window_start t') (window_start t' - 3600000000) s (omega arith) in
    let counted = count-record app' "request" app' "request" (window_start t') t' s' in
    (
      ground (arith, pruned),
      ground (arith, pruned, counted, eq_iff app' app'),
      check_request-IsLimited cfg app app' t t' s later v,
    )
