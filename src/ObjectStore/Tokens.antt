-- ===== src/ObjectStore/Tokens.antt =====
-- extract_service/object_store.py: the download tokens, `sign` and `verify`. Instants are seconds.
use data_nexus.Prelude.{
  ℕ, ◌+◌, String, Bool, true, ◌&&◌, Option, none, some, [], ◌∷◌, ◌==◌, string_eq, ltb,
  if◌then◌else◌,
}
use data_nexus.Prelude.Numbers.{ℤ, decimal, int_of, show, split3}
use data_nexus.Prelude.Text.{all_codes, concat}
use data_nexus.Config.{Settings}
use data_nexus.Platform.{Platform}

-- `ttl_seconds or settings.presigned_url_ttl_seconds`
unfoldable pub ttl_of : Settings → Option ℕ → ℕ
ttl_of cfg none = cfg.presigned_url_ttl_seconds
ttl_of cfg (some n) = if ltb 0 n then n else cfg.presigned_url_ttl_seconds

-- The signed text; the expiry is printed.
unfoldable pub payload : String → String → String → String → String → String
payload id domain filename app expiry =
    concat (id ∷ "|" ∷ domain ∷ "|" ∷ filename ∷ "|" ∷ app ∷ "|" ∷ expiry ∷ [])

unfoldable pub digest_of : Platform → Settings → String → String
digest_of p cfg message = p.hmac_sha256_hex cfg.presign_secret message

-- `sign`, at the instant of `utcnow()`
unfoldable pub sign :
    Platform → Settings → ℕ → String → String → String → String → Option ℕ → String × ℕ
unfolding ttl_of digest_of payload
sign p cfg t id domain filename app ttl =
    let expires = t + ttl_of cfg ttl in
    let token = digest_of p cfg (payload id domain filename app (decimal expires)) in
    (concat (token ∷ "." ∷ decimal expires ∷ "." ∷ app ∷ []), expires)

-- What `verify` returns, or the `TypeError` of `hmac.compare_digest`.
pub data Verdict : Type 0 where
  valid : String → Verdict
  invalid : String → Verdict
  type_error : Verdict

abbrev pub is_ascii : ℕ → Bool
is_ascii c = ltb c 128

-- `expires_ts < int(utcnow().timestamp())`
unfoldable pub is_past : ℕ → ℤ → Bool
is_past t (ℤ.pos n) = ltb n t
is_past t (ℤ.negsuc n) = true

-- `hmac.compare_digest` on texts takes ASCII only.
unfoldable pub compare_digest : String → String → String → Verdict
compare_digest expected digest app =
    if all_codes is_ascii expected && all_codes is_ascii digest
    then (if expected == digest then Verdict.valid app else Verdict.invalid "bad signature")
    else Verdict.type_error

unfoldable pub check_signature :
    Platform → Settings → ℕ → String → String → String → String → String → Option ℤ → Verdict
unfolding is_past compare_digest digest_of payload
check_signature p cfg t id domain filename digest app none = Verdict.invalid "malformed token"
check_signature p cfg t id domain filename digest app (some expiry) =
    if is_past t expiry
    then Verdict.invalid "token expired"
    else compare_digest (digest_of p cfg (payload id domain filename app (show expiry))) digest app

unfoldable pub check_parts :
    Platform → Settings → ℕ → String → String → String → Option (String × String × String) → Verdict
unfolding check_signature
check_parts p cfg t id domain filename none = Verdict.invalid "malformed token"
check_parts p cfg t id domain filename (some (digest, expiry, app)) =
    check_signature p cfg t id domain filename digest app (int_of p.unicode_digit expiry)

-- `verify`
unfoldable pub verify : Platform → Settings → ℕ → String → String → String → String → Verdict
unfolding check_parts
verify p cfg t id domain filename token = check_parts p cfg t id domain filename (split3 token)
