-- ===== src/ObjectStore/Signing.antt =====
-- extract_service/object_store.py: what a token of `sign` opens under `verify`.
use data_nexus.Prelude.{
  ℕ, ◌+◌, ◌≤◌, ◌<◌, String, Bool, true, false, ◌&&◌, ◌||◌, Option, none, some, [], ◌∷◌, All, ◌≡◌,
  refl, sym, ◌∙◌, ◌==◌, string_eq, ltb, leb, arith, eq_iff, Bool-cases, inl, inr,
}
use data_nexus.Prelude.Numbers.{ℤ, decimal, int_of, show, split3}
use data_nexus.Prelude.Decimals.{int_of-decimal, all_codes-decimal, is_digit}
use data_nexus.Prelude.Splitting.{other_than, split3-join, join_inj}
use data_nexus.Prelude.Text.{all_codes, all_codes_mono, concat}
use Prim.Native.Char.{char}
use text.Mathlib.TextLemmas.{append-nil, append_cancel_right}
use text.Mathlib.TextPositions.{eq_refl}
use data_nexus.Config.{Settings}
use data_nexus.Platform.{Platform}
use data_nexus.ObjectStore.Tokens.{
  ttl_of, payload, digest_of, sign, Verdict, is_ascii, is_past, compare_digest, check_signature,
  check_parts, verify,
}

-- A hexadecimal digit, as `hexdigest` prints it.
abbrev pub is_hex : ℕ → Bool
is_hex c = leb b'0' c && leb c b'9' || leb b'a' c && leb c b'f'

-- The documented form of a digest.
abbrev pub HexDigests : Platform → Type 0
HexDigests p = (key message : String) → all_codes is_hex (p.hmac_sha256_hex key message) ≡ true

no_dot_hex : (s : String) → all_codes is_hex s ≡ true → all_codes (other_than b'.') s ≡ true
no_dot_hex s = all_codes_mono is_hex (other_than b'.') (λ c h. ground arith) s

no_dot_digit : (s : String) → all_codes is_digit s ≡ true → all_codes (other_than b'.') s ≡ true
no_dot_digit s = all_codes_mono is_digit (other_than b'.') (λ c h. ground arith) s

ascii_hex : (s : String) → all_codes is_hex s ≡ true → all_codes is_ascii s ≡ true
ascii_hex s = all_codes_mono is_hex is_ascii (λ c h. ground arith) s

module _ (p : Platform) (cfg : Settings) (hex : HexDigests p) where
  digest_of-IsHex : (message : String) → all_codes is_hex (digest_of p cfg message) ≡ true
  unfolding digest_of
  digest_of-IsHex message = hex cfg.presign_secret message

  split3-sign :
      (t : ℕ) (id domain filename app : String) (ttl : Option ℕ)
      → let expires = t + ttl_of cfg ttl in
        split3 (sign p cfg t id domain filename app ttl).0
        ≡ some (
          digest_of p cfg (payload id domain filename app (decimal expires)),
          decimal expires,
          app,
        )
  unfolding sign concat
  split3-sign t id domain filename app ttl =
      let expiry = decimal (t + ttl_of cfg ttl) in
      let digest = digest_of p cfg (payload id domain filename app expiry) in
      rw (append-nil app) (
        split3-join digest expiry app (no_dot_hex digest (digest_of-IsHex _))
          (no_dot_digit expiry (all_codes-decimal (t + ttl_of cfg ttl))))

  compare_digest-own :
      (message app : String)
      → compare_digest (digest_of p cfg message) (digest_of p cfg message) app ≡ Verdict.valid app
  unfolding compare_digest
  compare_digest-own message app =
      let digest = digest_of p cfg message in
      rw (ascii_hex digest (digest_of-IsHex message), eq_refl digest) refl

  -- When digests are hexadecimal, a token opens the file that it was signed for, for the
  -- application that it names, at every instant up to its expiry, which lies before the year 10000.
  pub verify-sign :
      (t u : ℕ) (id domain filename app : String) (ttl : Option ℕ)
      → let (token, expires) = sign p cfg t id domain filename app ttl in
        u ≤ expires
        → expires < 253402300800
        → verify p cfg u id domain filename token ≡ Verdict.valid app
  unfolding verify check_parts check_signature is_past sign show decimal
  verify-sign t u id domain filename app ttl fresh small =
      let n = t + ttl_of cfg ttl in
      let on_time : is_past u (ℤ.pos n) ≡ false = ground arith in
      rw
        (
          split3-sign t id domain filename app ttl,
          int_of-decimal p.unicode_digit n 12 (omega arith) (omega arith),
          on_time,
        )
        (compare_digest-own (payload id domain filename app (decimal n)) app)

compare_digest_sound :
    (expected digest app : String) {who : String}
    → compare_digest expected digest app ≡ Verdict.valid who
    → (digest ≡ expected) × (app ≡ who)
unfolding compare_digest
compare_digest_sound expected digest app {who} h =
    elim (Bool-cases (all_codes is_ascii expected && all_codes is_ascii digest)) [
      | inl plain ↦
          let shown = rw plain at h in
          elim (Bool-cases (expected == digest)) [
            | inl same ↦
                let e : Verdict.valid app ≡ Verdict.valid who = rw same at shown in
                (ground (arith, eq_iff expected digest), cc)
            | inr apart ↦ absurd (ground arith)
          ]
      | inr odd ↦ absurd (ground arith)
    ]

module _ (p : Platform) (cfg : Settings) (t : ℕ) (id domain filename : String) where
  check_signature_sound :
      (digest app : String) (parsed : Option ℤ) {who : String}
      → check_signature p cfg t id domain filename digest app parsed ≡ Verdict.valid who
      → (n : ℕ) × (parsed ≡ some (ℤ.pos n))
        × (digest ≡ digest_of p cfg (payload id domain filename app (decimal n)))
        × (app ≡ who)
        × (t ≤ n)
  unfolding check_signature is_past show
  check_signature_sound digest app none h = absurd cc
  check_signature_sound digest app (some (ℤ.negsuc n)) h = absurd cc
  check_signature_sound digest app (some (ℤ.pos n)) h = elim (Bool-cases (ltb n t)) [
    | inl past ↦ absurd (ground arith)
    | inr live ↦
        let (same, named) = compare_digest_sound _ digest app (rw live at h) in
        (n, refl, same, named, ground arith)
  ]

  check_parts_sound :
      (parts : Option (String × String × String)) {app : String}
      → check_parts p cfg t id domain filename parts ≡ Verdict.valid app
      → (expiry : String) × (n : ℕ) × (parts
          ≡ some (digest_of p cfg (payload id domain filename app (decimal n)), expiry, app))
        × (int_of p.unicode_digit expiry ≡ some (ℤ.pos n))
        × (t ≤ n)
  unfolding check_parts
  check_parts_sound none h = absurd cc
  check_parts_sound (some (digest, expiry, who)) h =
      let (n, read, same, named, live) =
        check_signature_sound digest who (int_of p.unicode_digit expiry) h in
      (expiry, n, cc, read, live)

  -- A token opens a file only if it is a digest, an expiry that is not past and the application, and
  -- the digest is that of this extract, domain and file with this application and expiry.
  pub verify_sound :
      (token : String) {app : String}
      → verify p cfg t id domain filename token ≡ Verdict.valid app
      → (expiry : String) × (n : ℕ) × (split3 token
          ≡ some (digest_of p cfg (payload id domain filename app (decimal n)), expiry, app))
        × (int_of p.unicode_digit expiry ≡ some (ℤ.pos n))
        × (t ≤ n)
  unfolding verify
  verify_sound token h = check_parts_sound (split3 token) h

payload_inj :
    (id id' domain domain' filename filename' app expiry : String)
    → All (λ s. all_codes (other_than b'|') s ≡ true) (id ∷ id' ∷ domain ∷ domain' ∷ [])
    → payload id domain filename app expiry ≡ payload id' domain' filename' app expiry
    → (id ≡ id') × (domain ≡ domain') × (filename ≡ filename')
unfolding payload concat
payload_inj id id' domain domain' filename filename' app expiry (a, (a', (b, (b', _)))) e =
    let bar = char b'|' tt in
    let (ids, more) = join_inj bar id id' _ _ a a' e in
    let (domains, last) = join_inj bar domain domain' _ _ b b' more in
    (ids, domains, append_cancel_right filename filename' _ last)

module _ (p : Platform) (cfg : Settings) (hex : HexDigests p) where
  -- Where digests are hexadecimal, ids and domains have no bar, and the digests of the two payloads
  -- do not collide: a token that was signed for one file opens no other file, extract or domain, and
  -- for no other application.
  pub verify_confined :
      (t u : ℕ) (id id' domain domain' filename filename' app : String) (ttl : Option ℕ)
      {who : String}
      → let (token, expires) = sign p cfg t id domain filename app ttl in
        let signed = payload id domain filename app (decimal expires) in
        let wanted = payload id' domain' filename' app (decimal expires) in
        All (λ s. all_codes (other_than b'|') s ≡ true) (id ∷ id' ∷ domain ∷ domain' ∷ [])
        → expires < 253402300800
        → (digest_of p cfg signed ≡ digest_of p cfg wanted → signed ≡ wanted)
        → verify p cfg u id' domain' filename' token ≡ Verdict.valid who
        → (id ≡ id') × (domain ≡ domain') × (filename ≡ filename') × (app ≡ who)
  unfolding sign
  verify_confined t u id id' domain domain' filename filename' app ttl {who} bars small apart h =
      let expires = t + ttl_of cfg ttl in
      let token = (sign p cfg t id domain filename app ttl).0 in
      let (expiry, n, parts, read, live) = verify_sound p cfg u id' domain' filename' token h in
      let both = sym parts ∙ split3-sign p cfg hex t id domain filename app ttl in
      let named : who ≡ app = cc in
      let text : expiry ≡ decimal expires = cc in
      let value : some (ℤ.pos n) ≡ some (ℤ.pos expires) =
        sym read
        ∙ rw text (int_of-decimal p.unicode_digit expires 12 (omega arith) (omega arith)) in
      let number : n ≡ expires = cc in
      let (ids, domains, files) =
        payload_inj id id' domain domain' filename filename' app (decimal expires) bars
          (apart cc) in
      (ids, domains, files, sym named)
