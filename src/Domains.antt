-- ===== src/Domains.antt =====
-- extract_service/domains.py: the domain registry.
use data_nexus.Prelude.{String, Option, List, [], ◌∷◌}
use data_nexus.Prelude.Dict.{Dict, lookup}

pub record DomainDef : Type 0 where
  pub name : String
  pub sources : List String
  pub schema_version : String

unfoldable pub registry : Dict DomainDef
registry =
    (
      "nav-ledger",
      record {
        name = "nav-ledger";
        sources = "ods.nav_positions" ∷ "warehouse.gl_entries" ∷ [];
        schema_version = "nav-ledger/v3";
      },
    )
    ∷ (
      "gl",
      record { name = "gl"; sources = "warehouse.gl_entries" ∷ []; schema_version = "gl/v2" },
    )
    ∷ (
      "sub-ledger",
      record {
        name = "sub-ledger";
        sources = "ods.sub_ledger" ∷ [];
        schema_version = "sub-ledger/v1";
      },
    )
    ∷ (
      "transaction",
      record {
        name = "transaction";
        sources = "ods.transactions" ∷ [];
        schema_version = "transaction/v4";
      },
    )
    ∷ []

unfoldable pub get_domain : String → Option DomainDef
unfolding registry lookup
get_domain name = lookup name registry
