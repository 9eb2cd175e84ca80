-- ===== src/Api/Listing.antt =====
-- extract_service/main.py: the handler `list_extracts`.
use data_nexus.Prelude.{
  ℕ, ◌-◌, String, Option, none, some, List, length, take, get_elem?, map, ltb, if◌then◌else◌,
}
use mathlib.Core.Option
use data_nexus.Config.{Settings}
use data_nexus.Errors.{ExtractError}
use data_nexus.Exec.{Exec, Result, ok, err, gets, ◌>>=◌, ◌>>◌}
use data_nexus.Models.Enums.{ExtractStatus}
use data_nexus.Storage.Rows.{ExtractRow, Storage}
use data_nexus.Storage.Listing.{ListQuery, list_extracts}
use data_nexus.Auth.Principals.{Principal}
use data_nexus.Auth.Limiter.{check_request}
use data_nexus.Service.{Service}
use data_nexus.Api.Create.{with_storage}

pub record ListExtractsEntry : Type 0 where
  pub extract_id : String
  pub domain : String
  pub status : ExtractStatus
  pub created_at : ℕ
  pub completed_at : Option ℕ

-- The cursor of a response is the instant that its text decodes to.
pub record ListExtractsResponse : Type 0 where
  pub items : List ListExtractsEntry
  pub next_cursor : Option ℕ

unfoldable pub entry : ExtractRow → ListExtractsEntry
entry r = record {
  extract_id = r.extract_id;
  domain = r.domain;
  status = r.status;
  created_at = r.created_at;
  completed_at = r.completed_at;
}

-- The page that the handler cuts from the rows: one row more than the limit says that there is
-- another page.
unfoldable pub cut : ℕ → List ExtractRow → List ExtractRow × Option ℕ
cut limit rows =
    if ltb limit (length rows)
    then (take limit rows, Option.map (λ r. r.created_at) (get_elem? rows (limit - 1)))
    else (rows, none)

unfoldable pub page : String → ListQuery → Storage → List ExtractRow × Option ℕ
unfolding cut
page app q s = cut q.limit (list_extracts app q s)

-- The query argument `cursor`: absent, or what base64 makes of it, where `none` is an exception.
abbrev pub CursorText : Type 0
CursorText = Option (Option ℕ)

unfoldable pub decode_cursor : CursorText → Result (Option ℕ)
decode_cursor none = ok none
decode_cursor (some none) = err (ExtractError.validation "invalid cursor")
decode_cursor (some (some t)) = ok (some t)

abbrev response : List ExtractRow × Option ℕ → ListExtractsResponse
response (rows, next) = record { items = map entry rows; next_cursor = next }

-- The handler `list_extracts`, for an authenticated principal. The limit is not negative.
unfoldable pub list :
    Settings → Principal → ListQuery → CursorText → Exec Service ListExtractsResponse
unfolding with_storage entry page decode_cursor
list cfg who q cursor = do
  t ← gets (λ s. s.time)
  with_storage (check_request cfg t who.app_id)
  c ← λ s. (decode_cursor cursor, s)
  gets (λ s. response (page who.app_id (record q { cursor = c }) s.storage))
