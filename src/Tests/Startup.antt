-- ===== src/Tests/Startup.antt =====
-- The set-up of the demonstration tenants, on a database that has another application.
use data_nexus.Prelude.{◌≡◌, refl, some, length}
use data_nexus.Prelude.Text.{concat}
use data_nexus.Prelude.Numbers.{decimal, digits, digit_char}
use data_nexus.Prelude.Lists.{get_elem?}
use data_nexus.Storage.Apps.{get_app}
use data_nexus.Startup.{calc_app, fes_funds, lettered, pad3, range, seed_demo_tenants}
use data_nexus.Startup.Restart.{Granted, seed_restart}
use data_nexus.Tests.Data.{tables}

fes_funds_count : length fes_funds ≡ 126
unfolding fes_funds lettered range
fes_funds_count = refl

fes_funds_numbered : get_elem? fes_funds 33 ≡ some "fund_007"
unfolding fes_funds lettered range concat pad3 decimal digits digit_char
fes_funds_numbered = refl

seed_restart_example :
    (get_app "calc-engine" (seed_demo_tenants tables) ≡ some calc_app)
    × Granted "fes-plus-plus" (seed_demo_tenants tables) fes_funds
    × (seed_demo_tenants (seed_demo_tenants tables) ≡ seed_demo_tenants tables)
unfolding get_app
seed_restart_example = seed_restart "calc-engine" tables
