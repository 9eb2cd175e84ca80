-- ===== src/Auth/Principals.antt =====
-- extract_service/auth.py: the bearer token, `authenticate` and `check_entitlements`.
use data_nexus.Prelude.{
  String, Bool, true, not, ◌||◌, Option, none, some, List, [], ◌∷◌, filter, contains, is_empty,
  ◌==◌, string_eq, nat_eq, if◌then◌else◌,
}
use data_nexus.Prelude.Strip.{strip}
use data_nexus.Prelude.Text.{drop_chars, is_blank, lower_starts_with, sorted}
use data_nexus.Errors.{ExtractError}
use data_nexus.Exec.{Result, ok, err}
use data_nexus.Storage.Rows.{AppRow, Storage}
use data_nexus.Storage.Apps.{entitled_funds, lookup_app_by_token}

pub record Principal : Type 0 where
  pub app_id : String
  pub cert_fingerprint : Option String
  pub token : String

-- `_bearer`. After the prefix test the first space is the seventh character.
unfoldable pub bearer : Option String → Option String
unfolding strip
bearer none = none
bearer (some header) =
    if is_blank header
    then none
    else if lower_starts_with header "bearer "
    then some (strip (drop_chars 7 header))
    else none

-- `app.get("cert_fingerprint") and x_mtls_fingerprint`, then the comparison: an absent or empty
-- fingerprint on either side passes.
unfoldable pub fingerprint_ok : Option String → Option String → Bool
fingerprint_ok none given = true
fingerprint_ok (some known) none = true
fingerprint_ok (some known) (some given) = is_blank known || is_blank given || known == given

unfoldable pub check_app : Option AppRow → Option String → String → Result Principal
unfolding fingerprint_ok
check_app none given token = err ExtractError.unauthorized
check_app (some app) given token =
    if fingerprint_ok app.cert_fingerprint given
    then ok (record { app_id = app.app_id; cert_fingerprint = given; token = token })
    else err ExtractError.unauthorized

unfoldable pub check_token : Option String → Option String → Storage → Result Principal
unfolding check_app
check_token none given s = err ExtractError.unauthorized
check_token (some token) given s =
    if is_blank token
    then err ExtractError.unauthorized
    else check_app (lookup_app_by_token token s) given token

-- `authenticate`, on the headers `Authorization` and `X-MTLS-Fingerprint`
unfoldable pub authenticate : Option String → Option String → Storage → Result Principal
unfolding check_token bearer
authenticate header given s = check_token (bearer header) given s

-- `[f for f in requested if f not in entitled]`
abbrev pub missing_funds : List String → List String → List String
missing_funds entitled requested = filter (λ f. not (contains f entitled)) requested

-- `check_entitlements` on the entitled funds of the application
unfoldable pub resolve_scope : List String → Option (List String) → Result (List String)
resolve_scope [] none = err (ExtractError.entitlement_denied [])
resolve_scope [] (some []) = err (ExtractError.entitlement_denied [])
resolve_scope (e ∷ es) none = ok (sorted (e ∷ es))
resolve_scope (e ∷ es) (some []) = ok (sorted (e ∷ es))
resolve_scope entitled (some (f ∷ fs)) =
    if is_empty (missing_funds entitled (f ∷ fs))
    then ok (f ∷ fs)
    else err (ExtractError.entitlement_denied (missing_funds entitled (f ∷ fs)))

-- `check_entitlements`
unfoldable pub check_entitlements : String → Option (List String) → Storage → Result (List String)
unfolding resolve_scope
check_entitlements app requested s = resolve_scope (entitled_funds app s) requested
