-- ===== src/Tests/Auth.antt =====
-- The checks of requests, on a service with one application.
use data_nexus.Prelude.{◌≡◌, arith, refl, none, some, [], ◌∷◌}
use data_nexus.Config.{default_settings}
use data_nexus.Storage.Apps.{count_rl_events, entitled_funds, lookup_app_by_token}
use data_nexus.Auth.Identity.{Backed, authenticate_sound}
use data_nexus.Auth.Limiter.{check_request}
use data_nexus.Prelude.Strip.{strip}
use data_nexus.Auth.Principals.{
  Principal, authenticate, check_entitlements, resolve_scope, check_token, check_app, bearer,
  fingerprint_ok,
}
use data_nexus.Auth.Scope.{Within, check_entitlements_sound}
use data_nexus.Auth.Windows.{IsLimited, check_request_meters, recent}
use data_nexus.Exec.{ok}
use data_nexus.Prelude.Text.{lower_starts_with, sorted, insert_sorted, drop_chars}
use data_nexus.Tests.Data.{tables}

abbrev who : Principal
who = record { app_id = "app"; cert_fingerprint = none; token = "tok" }

authenticate_sound_example : Backed (some "Bearer tok") none tables who
unfolding authenticate check_token check_app bearer strip fingerprint_ok lookup_app_by_token
    drop_chars lower_starts_with
authenticate_sound_example = authenticate_sound (some "Bearer tok") none tables {who = who} refl

check_entitlements_sound_example : Within (entitled_funds "app" tables) ("f1" ∷ "f2" ∷ [])
unfolding check_entitlements resolve_scope entitled_funds sorted insert_sorted
check_entitlements_sound_example =
    check_entitlements_sound "app" none tables {scope = "f1" ∷ "f2" ∷ []} refl

check_request_meters_example :
    let (answer, s') = check_request default_settings 160000000 "app" tables in
    (answer ≡ ok (record { limit = 60; remaining = 59; reset = 220 }))
    × (recent "app" 160000000 s' ≡ 1)
    × IsLimited default_settings "app" 160000000 s'
unfolding count_rl_events
check_request_meters_example =
    check_request_meters default_settings "app" "app" 100000000 160000000 tables (omega arith)
      (omega arith)
