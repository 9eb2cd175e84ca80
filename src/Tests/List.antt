-- ===== src/Tests/List.antt =====
-- Pages of one extract each.

use data_nexus.Prelude.{◌≤◌, ◌<◌, refl, none, some, [], ◌∷◌}
use data_nexus.Prelude.Lists.{All}
use data_nexus.Storage.Rows.{Storage}
use data_nexus.Storage.Listing.{
  ListQuery, fund_passes, insert_newest, list_extracts, newest_first, selected,
}
use data_nexus.Api.Listing.{cut, page}
use data_nexus.Api.Pages.{next_page_older}
use data_nexus.Tests.Data.{running_row, tables}

abbrev query : ListQuery
query = record {
  domain = none;
  statuses = none;
  created_after = none;
  created_before = none;
  fund_id = none;
  limit = 1;
  cursor = none;
}

abbrev two_rows : Storage
two_rows = record tables {
  extracts = running_row ∷ record running_row { extract_id = "new"; created_at = 5 } ∷ [];
}

next_page_older_example :
    All (λ r. 5 ≤ r.created_at) (page "app" query two_rows).0
    × All (λ r. r.created_at < 5) (page "app" (record query { cursor = some 5 }) two_rows).0
unfolding page cut list_extracts selected newest_first insert_newest fund_passes
next_page_older_example = next_page_older "app" query two_rows two_rows {c = 5} refl
