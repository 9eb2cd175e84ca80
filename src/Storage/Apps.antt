-- ===== src/Storage/Apps.antt =====
-- Applications, entitlements, the audit log and the rate-limit events of class `Storage`.
use data_nexus.Prelude.{
  ℕ, ◌∷◌, String, Bool, ◌&&◌, not, Option, List, [], ◌++◌, map, ◌==◌, string_eq, if◌then◌else◌, leb,
  find, filter, any, length,
}
use data_nexus.Storage.Rows.{AppRow, RateLimitEvent, Storage}

abbrev pub has_entitlement : String → String → List (String × String) → Bool
has_entitlement app fund rows = any (λ e. e.0 == app && e.1 == fund) rows

-- `INSERT OR IGNORE INTO entitlements`
unfoldable pub grant : String → String → Storage → Storage
grant app fund s =
    if has_entitlement app fund s.entitlements
    then s
    else record s { entitlements = s.entitlements ++ (app, fund) ∷ [] }

unfoldable pub grant_all : String → List String → Storage → Storage
grant_all app [] s = s
grant_all app (f ∷ funds) s = grant_all app funds (grant app f s)

-- `INSERT OR REPLACE INTO applications`, and the entitlements of `fund_ids`
unfoldable pub register_app : AppRow → List String → Storage → Storage
unfolding grant_all grant
register_app row fund_ids s = grant_all row.app_id fund_ids (record s {
  applications = filter (λ a. not (a.app_id == row.app_id)) s.applications ++ row ∷ [];
})

unfoldable pub lookup_app_by_token : String → Storage → Option AppRow
lookup_app_by_token token s = find (λ a. a.token == token) s.applications

unfoldable pub get_app : String → Storage → Option AppRow
get_app app s = find (λ a. a.app_id == app) s.applications

-- The rows are unique by the primary key, so the list stands for the set.
unfoldable pub entitled_funds : String → Storage → List String
entitled_funds app s = map (λ e. e.1) (filter (λ e. e.0 == app) s.entitlements)

unfoldable pub audit : ℕ → Option String → String → Option String → String → Storage → Storage
audit now app action resource outcome s = record s {
  audit_log =
      s.audit_log
      ++ record {
        timestamp = now;
        app_id = app;
        action = action;
        resource = resource;
        outcome = outcome;
      }
        ∷ [];
}

unfoldable pub record_rl_event : String → String → ℕ → Storage → Storage
record_rl_event app kind ts s = record s {
  rate_limit_events = s.rate_limit_events ++ record { app_id = app; kind = kind; ts = ts } ∷ [];
}

abbrev pub in_window : String → String → ℕ → RateLimitEvent → Bool
in_window app kind since e = e.app_id == app && e.kind == kind && leb since e.ts

unfoldable pub count_rl_events : String → String → ℕ → Storage → ℕ
count_rl_events app kind since s = length (filter (in_window app kind since) s.rate_limit_events)

unfoldable pub prune_rl_events : ℕ → Storage → Storage
prune_rl_events before s = record s {
  rate_limit_events = filter (λ e. leb before e.ts) s.rate_limit_events;
}
