-- ===== src/Startup/Restart.antt =====
-- What a start of the service leaves of the applications and entitlements of the one before.
use data_nexus.Prelude.{
  String, Bool, true, ◌&&◌, not, Option, none, some, List, [], ◌∷◌, ◌++◌, ◌≡◌, refl, ◌==◌,
  string_eq, if◌then◌else◌, find, filter, All, eq_iff, arith, Option-cases, inl, inr,
}
use data_nexus.Storage.Rows.{AppRow, Storage}
use data_nexus.Storage.Extracts.{or_else}
use data_nexus.Storage.Apps.{get_app, grant, grant_all, has_entitlement, register_app}
use data_nexus.Startup.{calc_app, fes_app, fes_funds, seed_calc, seed_demo_tenants, seed_fes}

find-append :
    (p : AppRow → Bool) (rows : List AppRow) (row : AppRow)
    → find p (rows ++ row ∷ []) ≡ or_else (find p rows) (if p row then some row else none)
find-append p [] row = ground arith
find-append p (r ∷ rows) row = ground (arith, find-append p rows row)

-- A replaced row is found at its own key, and at no other.
find-replaced :
    (row : AppRow) (app : String) (rows : List AppRow)
    → find (λ a. a.app_id == app) (filter (λ a. not (a.app_id == row.app_id)) rows ++ row ∷ [])
      ≡ (if row.app_id == app then some row else find (λ a. a.app_id == app) rows)
find-replaced row app [] = ground arith
find-replaced row app (r ∷ rows) = ground (
  arith,
  find-replaced row app rows,
  eq_iff r.app_id row.app_id,
  eq_iff r.app_id app,
  eq_iff row.app_id app,
)

grant-applications :
    (app fund : String) (s : Storage) → (grant app fund s).applications ≡ s.applications
unfolding grant
grant-applications app fund s = ground arith

grant_all-applications :
    (app : String) (funds : List String) (s : Storage)
    → (grant_all app funds s).applications ≡ s.applications
unfolding grant_all
grant_all-applications app [] s = refl
grant_all-applications app (f ∷ funds) s =
    cc (grant_all-applications app funds (grant app f s), grant-applications app f s)

get_app-register :
    (row : AppRow) (funds : List String) (app : String) (s : Storage)
    → get_app app (register_app row funds s)
      ≡ (if row.app_id == app then some row else get_app app s)
unfolding get_app register_app
get_app-register row funds app s =
    rw
      (grant_all-applications row.app_id funds (record s {
        applications = filter (λ a. not (a.app_id == row.app_id)) s.applications ++ row ∷ [];
      }))
      (find-replaced row app s.applications)

get_app-grant_all :
    (app : String) (funds : List String) (j : String) (s : Storage)
    → get_app j (grant_all app funds s) ≡ get_app j s
unfolding get_app
get_app-grant_all app funds j s = rw (grant_all-applications app funds s) refl

-- The row that the set-up has for a name.
abbrev demo_if : AppRow → String → Option AppRow
demo_if row app = if row.app_id == app then some row else none

get_app-seed_fes :
    (app : String) (s : Storage)
    → get_app app (seed_fes s) ≡ or_else (get_app app s) (demo_if fes_app app)
unfolding seed_fes
get_app-seed_fes app s = ground (
  arith,
  get_app-register fes_app fes_funds app s,
  get_app-grant_all "fes-plus-plus" fes_funds app s,
  eq_iff "fes-plus-plus" app,
)

get_app-seed_calc :
    (app : String) (s : Storage)
    → get_app app (seed_calc s) ≡ or_else (get_app app s) (demo_if calc_app app)
unfolding seed_calc
get_app-seed_calc app s =
    ground
      (arith, get_app-register calc_app ("fund_A" ∷ "fund_B" ∷ []) app s, eq_iff "calc-engine" app)

-- Every fund of a list is an entitlement of the application.
abbrev pub Granted : String → Storage → List String → Type 0
Granted app s = All (λ f. has_entitlement app f s.entitlements ≡ true)

has_entitlement-snoc :
    (app fund : String) (rows : List (String × String)) (e : String × String)
    → has_entitlement app fund (rows ++ e ∷ [])
      ≡ (if has_entitlement app fund rows then true else e.0 == app && e.1 == fund)
has_entitlement-snoc app fund [] e = ground arith
has_entitlement-snoc app fund (r ∷ rows) e = ground (arith, has_entitlement-snoc app fund rows e)

has_entitlement-grant :
    (app fund j g : String) (s : Storage)
    → has_entitlement j g (grant app fund s).entitlements
      ≡ (if has_entitlement j g s.entitlements then true else app == j && fund == g)
unfolding grant
has_entitlement-grant app fund j g s =
    ground (arith, has_entitlement-snoc j g s.entitlements (app, fund), eq_iff app j, eq_iff fund g)

grant_all_mono :
    (app : String) (funds : List String) (j g : String) (s : Storage)
    → has_entitlement j g s.entitlements ≡ true
    → has_entitlement j g (grant_all app funds s).entitlements ≡ true
unfolding grant_all
grant_all_mono app [] j g s h = h
grant_all_mono app (f ∷ funds) j g s h =
    grant_all_mono app funds j g (grant app f s)
      (rw (has_entitlement-grant app f j g s) (rw h refl))

grant_all-Granted :
    (app : String) (funds : List String) (s : Storage) → Granted app (grant_all app funds s) funds
unfolding grant_all
grant_all-Granted app [] s = tt
grant_all-Granted app (f ∷ funds) s = (
  grant_all_mono app funds app f (grant app f s)
      (ground (arith, has_entitlement-grant app f app f s, eq_iff app app, eq_iff f f)),
  grant_all-Granted app funds (grant app f s),
)

grant_all_idle :
    (app : String) (funds : List String) (s : Storage)
    → Granted app s funds
    → grant_all app funds s ≡ s
unfolding grant_all grant
grant_all_idle app [] s h = refl
grant_all_idle app (f ∷ funds) s h = rw h.0 (grant_all_idle app funds s h.1)

Granted-grant_all :
    (app : String) (funds : List String) (j : String) (gs : List String) (s : Storage)
    → Granted j s gs
    → Granted j (grant_all app funds s) gs
Granted-grant_all app funds j [] s h = tt
Granted-grant_all app funds j (g ∷ gs) s h =
    (grant_all_mono app funds j g s h.0, Granted-grant_all app funds j gs s h.1)

-- What the two steps are when the application is there, and when it is not.
seed_fes_new :
    (s : Storage) → get_app "fes-plus-plus" s ≡ none → seed_fes s ≡ register_app fes_app fes_funds s
unfolding seed_fes
seed_fes_new s h = ground arith

seed_fes_known :
    (s : Storage) (app : AppRow)
    → get_app "fes-plus-plus" s ≡ some app
    → seed_fes s ≡ grant_all "fes-plus-plus" fes_funds s
unfolding seed_fes
seed_fes_known s app h = ground arith

seed_calc_new :
    (s : Storage)
    → get_app "calc-engine" s ≡ none
    → seed_calc s ≡ register_app calc_app ("fund_A" ∷ "fund_B" ∷ []) s
unfolding seed_calc
seed_calc_new s h = ground arith

seed_calc_known :
    (s : Storage) (app : AppRow) → get_app "calc-engine" s ≡ some app → seed_calc s ≡ s
unfolding seed_calc
seed_calc_known s app h = ground arith

register_app-Granted :
    (row : AppRow) (funds : List String) (s : Storage)
    → Granted row.app_id (register_app row funds s) funds
unfolding register_app
register_app-Granted row funds s = grant_all-Granted row.app_id funds _

register_app_mono :
    (row : AppRow) (funds : List String) (j : String) (gs : List String) (s : Storage)
    → Granted j s gs
    → Granted j (register_app row funds s) gs
unfolding register_app
register_app_mono row funds j gs s h = Granted-grant_all row.app_id funds j gs _ h

seed_fes-Granted : (s : Storage) → Granted "fes-plus-plus" (seed_fes s) fes_funds
seed_fes-Granted s = elim (Option-cases (get_app "fes-plus-plus" s)) [
  | inl missing ↦ rw (seed_fes_new s missing) (register_app-Granted fes_app fes_funds s)
  | inr (app, known) ↦
      rw (seed_fes_known s app known) (grant_all-Granted "fes-plus-plus" fes_funds s)
]

seed_calc-Granted :
    (gs : List String) (s : Storage)
    → Granted "fes-plus-plus" s gs
    → Granted "fes-plus-plus" (seed_calc s) gs
seed_calc-Granted gs s h = elim (Option-cases (get_app "calc-engine" s)) [
  | inl missing ↦
      rw (seed_calc_new s missing)
        (register_app_mono calc_app ("fund_A" ∷ "fund_B" ∷ []) "fes-plus-plus" gs s h)
  | inr (app, known) ↦ rw (seed_calc_known s app known) h
]

seed_demo_tenants-Granted : (s : Storage) → Granted "fes-plus-plus" (seed_demo_tenants s) fes_funds
unfolding seed_demo_tenants
seed_demo_tenants-Granted s = seed_calc-Granted fes_funds (seed_fes s) (seed_fes-Granted s)

-- The application that the set-up makes under a name, if it makes one.
abbrev pub demo_app : String → Option AppRow
demo_app app = or_else (demo_if fes_app app) (demo_if calc_app app)

get_app-seed :
    (app : String) (s : Storage)
    → get_app app (seed_demo_tenants s) ≡ or_else (get_app app s) (demo_app app)
unfolding seed_demo_tenants
get_app-seed app s = ground (arith, get_app-seed_calc app (seed_fes s), get_app-seed_fes app s)

seed_idle :
    (s : Storage) {fes calc : AppRow}
    → get_app "fes-plus-plus" s ≡ some fes
    → get_app "calc-engine" s ≡ some calc
    → Granted "fes-plus-plus" s fes_funds
    → seed_demo_tenants s ≡ s
unfolding seed_demo_tenants
seed_idle s {fes} {calc} f c granted = cc (
  seed_fes_known s fes f,
  grant_all_idle "fes-plus-plus" fes_funds s granted,
  seed_calc_known s calc c,
)

found_after :
    (app : String) (s : Storage) {row : AppRow}
    → demo_app app ≡ some row
    → (a : AppRow) × (get_app app (seed_demo_tenants s) ≡ some a)
found_after app s {row} h = rw (get_app-seed app s) (elim (Option-cases (get_app app s)) [
  | inl missing ↦ rw missing (row, h)
  | inr (a, known) ↦ rw known (a, refl)
])

-- However the last run left the database, a start leaves every registered application as it was,
-- makes the two demonstration tenants that are missing and no other, and has all of its funds
-- among the entitlements of the first; and a second start changes nothing.
pub seed_restart :
    (app : String) (s : Storage)
    → (get_app app (seed_demo_tenants s) ≡ or_else (get_app app s) (demo_app app))
      × Granted "fes-plus-plus" (seed_demo_tenants s) fes_funds
      × (seed_demo_tenants (seed_demo_tenants s) ≡ seed_demo_tenants s)
seed_restart app s =
    let granted : Granted "fes-plus-plus" (seed_demo_tenants s) fes_funds =
      seed_demo_tenants-Granted s in
    (
      get_app-seed app s,
      granted,
      seed_idle (seed_demo_tenants s) (found_after "fes-plus-plus" s refl).1
          (found_after "calc-engine" s refl).1 granted,
    )
