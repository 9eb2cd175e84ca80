-- ===== src/Storage/Listing.antt =====
-- `Storage.list_extracts`: the filters, the order and the limit of the query. The order of rows of
-- one instant, which SQL leaves open, is that of the table.
use data_nexus.Prelude.{
  ℕ, ◌+◌, String, Bool, true, ◌&&◌, ◌||◌, Option, none, some, List, [], ◌∷◌, filter, contains,
  is_empty, take, leb, ltb, ◌==◌, string_eq, if◌then◌else◌,
}
use data_nexus.Prelude.Text.{is_blank}
use data_nexus.Models.Enums.{ExtractStatus}
use data_nexus.Storage.Rows.{ExtractRow, Storage}

-- The value of the enumeration, as the column `status` has it.
unfoldable pub status_value : ExtractStatus → String
status_value ExtractStatus.accepted = "ACCEPTED"
status_value ExtractStatus.running = "RUNNING"
status_value ExtractStatus.completed = "COMPLETED"
status_value ExtractStatus.failed = "FAILED"
status_value ExtractStatus.partial = "PARTIAL"
status_value ExtractStatus.cancelled = "CANCELLED"
status_value ExtractStatus.expired = "EXPIRED"

-- The keyword arguments of `list_extracts`.
pub record ListQuery : Type 0 where
  pub domain : Option String
  pub statuses : Option (List String)
  pub created_after : Option ℕ
  pub created_before : Option ℕ
  pub fund_id : Option String
  pub limit : ℕ
  pub cursor : Option ℕ

-- A condition that is left out where its argument is `None`, or an empty text.
given_text : Option String → (String → Bool) → Bool
given_text none test = true
given_text (some s) test = is_blank s || test s

given_statuses : Option (List String) → ExtractStatus → Bool
given_statuses none st = true
given_statuses (some l) st = is_empty l || contains (status_value st) l

abbrev pub given_time : Option ℕ → (ℕ → Bool) → Bool
given_time none test = true
given_time (some t) test = test t

-- The `WHERE` clause.
unfoldable pub selected : String → ListQuery → ExtractRow → Bool
unfolding given_text given_statuses status_value
selected app q r =
    r.app_id == app
    && given_text q.domain (λ d. r.domain == d)
    && given_statuses q.statuses r.status
    && given_time q.created_after (λ t. leb t r.created_at)
    && given_time q.created_before (λ t. ltb r.created_at t)
    && given_time q.cursor (λ t. ltb r.created_at t)

-- `ORDER BY created_at DESC`
unfoldable pub insert_newest : ExtractRow → List ExtractRow → List ExtractRow
insert_newest r [] = r ∷ []
insert_newest r (x ∷ l) = if leb x.created_at r.created_at then r ∷ x ∷ l else x ∷ insert_newest r l

unfoldable pub newest_first : List ExtractRow → List ExtractRow
unfolding insert_newest
newest_first [] = []
newest_first (r ∷ l) = insert_newest r (newest_first l)

in_scope : Option (List String) → String → Bool
in_scope none fund = true
in_scope (some funds) fund = is_empty funds || contains fund funds

unfoldable pub fund_passes : Option String → ExtractRow → Bool
unfolding given_text in_scope
fund_passes fund r = given_text fund (in_scope r.request.fund_scope)

-- `list_extracts`: the filter by fund comes after the limit.
unfoldable pub list_extracts : String → ListQuery → Storage → List ExtractRow
unfolding selected newest_first fund_passes
list_extracts app q s =
    filter (fund_passes q.fund_id)
      (take (q.limit + 1) (newest_first (filter (selected app q) s.extracts)))
