-- ===== src/Startup.antt =====
-- extract_service/main.py: `_seed_demo_tenants`, which `lifespan` runs at each start on the database
-- that the last run left.
use Prim.Native.String
use data_nexus.Prelude.{
  ℕ, zero, suc, ◌+◌, String, Option, none, some, List, [], ◌∷◌, ◌++◌, map, ltb, if◌then◌else◌,
}
use data_nexus.Prelude.Numbers.{decimal}
use data_nexus.Prelude.Text.{concat}
use data_nexus.Storage.Rows.{AppRow, Storage}
use data_nexus.Storage.Apps.{get_app, grant_all, register_app}
pub mod Restart

-- `range(start, start + n)`
unfoldable pub range : ℕ → ℕ → List ℕ
range start zero = []
range start (suc n) = start ∷ range (start + 1) n

-- `f"{i:03d}"`
unfoldable pub pad3 : ℕ → String
pad3 i =
    if ltb i 10
    then concat ("00" ∷ decimal i ∷ [])
    else if ltb i 100
    then concat ("0" ∷ decimal i ∷ [])
    else decimal i

-- `f"fund_{c}"` for each letter of a text
unfoldable pub lettered : String → List String
lettered String.[] = []
lettered (String.◌∷◌ c s) = concat ("fund_" ∷ String.◌∷◌ c String.[] ∷ []) ∷ lettered s

unfoldable pub fes_funds : List String
unfolding lettered range pad3
fes_funds =
    lettered "ABCDEFGHIJKLMNOPQRSTUVWXYZ" ++ map (λ i. concat ("fund_" ∷ pad3 i ∷ [])) (range 0 100)

abbrev pub fes_app : AppRow
fes_app = record {
  app_id = "fes-plus-plus";
  token = "demo-token-fes";
  webhook_secret = some "fes-webhook-secret";
  cert_fingerprint = some "demo-cert-fes";
}

abbrev pub calc_app : AppRow
calc_app = record {
  app_id = "calc-engine";
  token = "demo-token-calc";
  webhook_secret = some "calc-webhook-secret";
  cert_fingerprint = none;
}

-- The tenant of the downstream system gets its entitlements at each start.
unfoldable pub seed_fes : Storage → Storage
seed_fes s = elim (get_app "fes-plus-plus" s) [
  | none ↦ register_app fes_app fes_funds s
  | some app ↦ grant_all "fes-plus-plus" fes_funds s
]

unfoldable pub seed_calc : Storage → Storage
seed_calc s = elim (get_app "calc-engine" s) [
  | none ↦ register_app calc_app ("fund_A" ∷ "fund_B" ∷ []) s
  | some app ↦ s
]

unfoldable pub seed_demo_tenants : Storage → Storage
unfolding seed_fes seed_calc
seed_demo_tenants s = seed_calc (seed_fes s)
