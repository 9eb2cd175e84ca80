-- ===== src/Auth/Identity.antt =====
-- Whom `authenticate` of extract_service/auth.py lets in.
use mathlib.Core.Path.{subst}
use mathlib.Core.List.{Mem, mem-cons_self, mem-cons_of_mem}
use data_nexus.Prelude.{
  List, [], ◌∷◌, find, eq_iff, ◌==◌, ◌⊎◌, String, true, false, ◌≡◌, refl, sym, ap, Option, none,
  some, string_eq, arith, Bool-cases, inl, inr,
}
use data_nexus.Prelude.Text.{is_blank}
use data_nexus.Exec.{ok}
use data_nexus.Storage.Rows.{AppRow, Storage}
use data_nexus.Storage.Apps.{lookup_app_by_token}
use data_nexus.Auth.Principals.{
  Principal, authenticate, bearer, check_app, check_token, fingerprint_ok,
}

-- Where both sides have a fingerprint that is not empty, the two are equal.
abbrev pub Matches : Option String → Option String → Type 0
Matches none given = Unit
Matches (some known) none = Unit
Matches (some known) (some given) =
    (is_blank known ≡ true) ⊎ (is_blank given ≡ true) ⊎ (known ≡ given)

fingerprint_ok-Matches :
    (known given : Option String) → fingerprint_ok known given ≡ true → Matches known given
unfolding fingerprint_ok
fingerprint_ok-Matches none given h = tt
fingerprint_ok-Matches (some known) none h = tt
fingerprint_ok-Matches (some known) (some given) h = elim (Bool-cases (is_blank known)) [
  | inl blank ↦ inl blank
  | inr full ↦ elim (Bool-cases (is_blank given)) [
    | inl blank ↦ inr (inl blank)
    | inr there ↦ inr (inr ((eq_iff known given).0 (ground arith)))
  ]
]

-- A row that is found by a token is in the table and has this token.
find-token :
    (token : String) (rows : List AppRow) {app : AppRow}
    → find (λ a. a.token == token) rows ≡ some app
    → Mem app rows × (app.token ≡ token)
find-token token [] h = absurd (ground arith)
find-token token (a ∷ rows) {app} h = elim (Bool-cases (a.token == token)) [
  | inl here ↦
      let same : a ≡ app = ground arith in
      (
        subst (λ x. Mem x (a ∷ rows)) same mem-cons_self,
        rw (← same) ((eq_iff a.token token).0 here),
      )
  | inr there ↦
      let (listed, owned) = find-token token rows {app = app} (ground arith) in
      (mem-cons_of_mem a listed, owned)
]

-- A registered application that stands behind a principal.
pub record Backed (header given : Option String) (s : Storage) (who : Principal) : Type 0 where
  pub app : AppRow
  pub token : bearer header ≡ some who.token
  pub not_blank : is_blank who.token ≡ false
  pub registered : Mem app s.applications
  pub same_token : app.token ≡ who.token
  pub same_app : who.app_id ≡ app.app_id
  pub fingerprint : Matches app.cert_fingerprint given

check_app-ok :
    (o : Option AppRow) (given : Option String) (token : String) {who : Principal}
    → check_app o given token ≡ ok who
    → (app : AppRow) × (o ≡ some app)
      × (who.app_id ≡ app.app_id)
      × (who.token ≡ token)
      × (fingerprint_ok app.cert_fingerprint given ≡ true)
unfolding check_app
check_app-ok none given token h = cc
check_app-ok (some app) given token {who} h =
    elim (Bool-cases (fingerprint_ok app.cert_fingerprint given)) [
      | inl good ↦
          let same : record { app_id = app.app_id; cert_fingerprint = given; token = token } ≡ who =
            ground arith in
          (
            app,
            refl,
            sym (ap (λ (w : Principal). w.app_id) same),
            sym (ap (λ (w : Principal). w.token) same),
            good,
          )
      | inr bad ↦ let no_one = rw bad at h in cc
    ]

check_token-ok :
    (o given : Option String) (s : Storage) {who : Principal}
    → check_token o given s ≡ ok who
    → (o ≡ some who.token)
      × (is_blank who.token ≡ false)
      × ((app : AppRow) × (lookup_app_by_token who.token s ≡ some app)
          × (who.app_id ≡ app.app_id)
          × (fingerprint_ok app.cert_fingerprint given ≡ true))
unfolding check_token
check_token-ok none given s h = cc
check_token-ok (some token) given s {who} h = elim (Bool-cases (is_blank token)) [
  | inl blank ↦ let no_one = rw blank at h in cc
  | inr full ↦
      let (app, found, same, tok, print) =
        check_app-ok (lookup_app_by_token token s) given token (rw full at h) in
      (ap some (sym tok), rw tok full, (app, rw tok found, same, print))
]

-- A request that is let in carries a token, which is not empty, of an application in the table,
-- and counts as that application. Where the application has a fingerprint and the request carries
-- one, neither of them empty, they are equal.
pub authenticate_sound :
    (header given : Option String) (s : Storage) {who : Principal}
    → authenticate header given s ≡ ok who
    → Backed header given s who
unfolding authenticate lookup_app_by_token
authenticate_sound header given s {who} h =
    let (token, full, (app, found, same, print)) = check_token-ok (bearer header) given s h in
    let (listed, owned) = find-token who.token s.applications found in
    record {
      app = app;
      token = token;
      not_blank = full;
      registered = listed;
      same_token = owned;
      same_app = same;
      fingerprint = fingerprint_ok-Matches app.cert_fingerprint given print;
    }
