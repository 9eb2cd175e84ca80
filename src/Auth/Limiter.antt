-- ===== src/Auth/Limiter.antt =====
-- extract_service/auth.py: class `RateLimiter`. Instants are `time.time()` in microseconds.
use data_nexus.Prelude.{ℕ, ◌+◌, ◌-◌, ◌*◌, ◌/◌, String, if◌then◌else◌, leb}
use data_nexus.Config.{Settings}
use data_nexus.Errors.{ExtractError}
use data_nexus.Exec.{Exec, ok, err}
use data_nexus.Storage.Rows.{Storage}
use data_nexus.Storage.Apps.{count_rl_events, prune_rl_events, record_rl_event}
use data_nexus.Storage.Extracts.{count_active_extracts}

abbrev pub seconds : ℕ → ℕ
seconds n = n * 1000000

-- The start of the window that ends now.
abbrev pub window_start : ℕ → ℕ
window_start t = t - seconds 60

pub record Window : Type 0 where
  pub count : ℕ
  pub remaining : ℕ
  pub reset : ℕ

-- `_check_window`: prunes what is an hour older than the window, and counts.
unfoldable pub check_window : ℕ → String → String → ℕ → Storage → Window × Storage
check_window t app kind limit s =
    let s' = prune_rl_events (window_start t - seconds 3600) s in
    let count = count_rl_events app kind (window_start t) s' in
    (record { count = count; remaining = limit - count - 1; reset = t / 1000000 + 60 }, s')

-- The headers `X-RateLimit-Limit`, `-Remaining` and `-Reset`.
pub record RateHeaders : Type 0 where
  pub limit : ℕ
  pub remaining : ℕ
  pub reset : ℕ

-- `check_request`
unfoldable pub check_request : Settings → ℕ → String → Exec Storage RateHeaders
unfolding check_window
check_request cfg t app s =
    let limit = cfg.rate_limit_requests_per_minute in
    let (w, s') = check_window t app "request" limit s in
    if leb limit w.count then (err (ExtractError.rate_limited 60), s') else (
      ok (record { limit = limit; remaining = w.remaining; reset = w.reset }),
      record_rl_event app "request" t s',
    )

-- `check_presign`
unfoldable pub check_presign : Settings → ℕ → String → Exec Storage (Unit {0})
unfolding check_window
check_presign cfg t app s =
    let limit = cfg.rate_limit_presign_per_minute in
    let (w, s') = check_window t app "presign" limit s in
    if leb limit w.count
    then (err (ExtractError.rate_limited 60), s')
    else (ok tt, record_rl_event app "presign" t s')

-- `check_concurrent`
unfoldable pub check_concurrent : Settings → String → Exec Storage (Unit {0})
check_concurrent cfg app s =
    if leb cfg.rate_limit_concurrent_extracts (count_active_extracts app s)
    then (err (ExtractError.rate_limited 30), s)
    else (ok tt, s)
