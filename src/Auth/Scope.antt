-- ===== src/Auth/Scope.antt =====
-- What the entitlement check of extract_service/auth.py lets through.
use data_nexus.Prelude.{
  String, true, Option, none, some, List, [], ◌∷◌, ◌≡◌, refl, ◌↔◌, string_eq, contains, is_empty,
  All, eq_iff, arith, Bool-cases, inl, inr,
}
use data_nexus.Prelude.Text.{insert_sorted, sorted, str_le}
use data_nexus.Exec.{ok}
use data_nexus.Storage.Rows.{Storage}
use data_nexus.Storage.Apps.{entitled_funds}
use data_nexus.Auth.Principals.{check_entitlements, missing_funds, resolve_scope}

-- Every fund of a list is among the funds of another.
abbrev pub Within : List String → List String → Type 0
Within entitled = All (λ f. contains f entitled ≡ true)

Within-cons :
    (e : String) (entitled funds : List String)
    → Within entitled funds
    → Within (e ∷ entitled) funds
Within-cons e entitled [] h = tt
Within-cons e entitled (f ∷ funds) h = (ground arith, Within-cons e entitled funds h.1)

Within-self : (funds : List String) → Within funds funds
Within-self [] = tt
Within-self (f ∷ funds) =
    (ground (arith, eq_iff f f), Within-cons f funds funds (Within-self funds))

Within-insert_sorted :
    (entitled : List String) (f : String) (funds : List String)
    → contains f entitled ≡ true
    → Within entitled funds
    → Within entitled (insert_sorted f funds)
unfolding insert_sorted
Within-insert_sorted entitled f [] p h = (p, tt)
Within-insert_sorted entitled f (g ∷ funds) p h = elim (Bool-cases (str_le f g)) [
  | inl le ↦ rw le (p, h)
  | inr gt ↦ rw gt (h.0, Within-insert_sorted entitled f funds p h.1)
]

Within-sorted :
    (entitled funds : List String) → Within entitled funds → Within entitled (sorted funds)
unfolding sorted
Within-sorted entitled [] h = tt
Within-sorted entitled (f ∷ funds) h =
    Within-insert_sorted entitled f (sorted funds) h.0 (Within-sorted entitled funds h.1)

none_missing :
    (entitled funds : List String)
    → is_empty (missing_funds entitled funds) ≡ true
    → Within entitled funds
none_missing entitled [] h = tt
none_missing entitled (f ∷ funds) h = elim (Bool-cases (contains f entitled)) [
  | inl found ↦ (found, none_missing entitled funds (ground arith))
  | inr lost ↦ absurd (ground arith)
]

Within-none_missing :
    (entitled funds : List String)
    → Within entitled funds
    → is_empty (missing_funds entitled funds) ≡ true
Within-none_missing entitled [] h = refl
Within-none_missing entitled (f ∷ funds) h = rw h.0 (Within-none_missing entitled funds h.1)

resolve_scope_sound :
    (entitled : List String) (requested : Option (List String)) {scope : List String}
    → resolve_scope entitled requested ≡ ok scope
    → Within entitled scope
unfolding resolve_scope
resolve_scope_sound [] none h = cc
resolve_scope_sound [] (some []) h = cc
resolve_scope_sound (e ∷ es) none {scope} h =
    let p : sorted (e ∷ es) ≡ scope = cc in
    rw (← p) (Within-sorted (e ∷ es) (e ∷ es) (Within-self (e ∷ es)))
resolve_scope_sound (e ∷ es) (some []) {scope} h =
    let p : sorted (e ∷ es) ≡ scope = cc in
    rw (← p) (Within-sorted (e ∷ es) (e ∷ es) (Within-self (e ∷ es)))
resolve_scope_sound entitled (some (f ∷ fs)) {scope} h =
    elim (Bool-cases (is_empty (missing_funds entitled (f ∷ fs)))) [
      | inl whole ↦
          let p : f ∷ fs ≡ scope = ground arith in rw (← p) (none_missing entitled (f ∷ fs) whole)
      | inr part ↦ absurd (ground arith)
    ]

-- Whatever was asked for, every fund of a granted scope is one that the application is entitled
-- to.
pub check_entitlements_sound :
    (app : String) (requested : Option (List String)) (s : Storage) {scope : List String}
    → check_entitlements app requested s ≡ ok scope
    → Within (entitled_funds app s) scope
unfolding check_entitlements
check_entitlements_sound app requested s h = resolve_scope_sound (entitled_funds app s) requested h

-- A request that names funds is granted those funds, unchanged, exactly when the application is
-- entitled to each of them.
pub check_entitlements_exact :
    (app f : String) (fs : List String) (s : Storage)
    → (check_entitlements app (some (f ∷ fs)) s ≡ ok (f ∷ fs))
      ↔ Within (entitled_funds app s) (f ∷ fs)
unfolding check_entitlements resolve_scope
check_entitlements_exact app f fs s = (
  check_entitlements_sound app (some (f ∷ fs)) s,
  λ h. rw (Within-none_missing (entitled_funds app s) (f ∷ fs) h),
)
