-- ===== src/Api/Files.antt =====
-- extract_service/main.py: the handlers `list_files` and `download_file`.
use data_nexus.Prelude.{
  ℕ, String, Option, none, some, List, [], ◌∷◌, contains, string_eq, if◌then◌else◌,
}
use data_nexus.Prelude.Strip.{rstrip_slash}
use data_nexus.Prelude.Text.{concat}
use data_nexus.Config.{Settings}
use data_nexus.Errors.{ExtractError}
use data_nexus.Exec.{Exec, ok, err, pure, gets, modify, or_raise, ◌>>=◌, ◌>>◌}
use data_nexus.Models.Enums.{Compression, ExtractStatus, OutputFormat}
use data_nexus.Platform.{Platform}
use data_nexus.Metrics.{inc}
use data_nexus.Storage.Rows.{ExtractRow, FileInfo, Outcome}
use data_nexus.Storage.Apps.{audit, entitled_funds}
use data_nexus.Storage.Extracts.{get_extract}
use data_nexus.ObjectStore.Files.{Content, file_path}
use data_nexus.ObjectStore.Tokens.{Verdict, sign, verify}
use data_nexus.Auth.Principals.{Principal}
use data_nexus.Auth.Limiter.{check_presign, check_request}
use data_nexus.Service.{Service, now, on_metrics, on_storage}
use data_nexus.Api.Cancel.{owned}
use data_nexus.Api.Create.{with_storage}
use data_nexus.Api.Status.{outcome_in}

pub record FileEntry : Type 0 where
  pub file_id : String
  pub partition_key : String
  pub format : OutputFormat
  pub compression : Compression
  pub size_bytes : ℕ
  pub row_count : ℕ
  pub checksum : String
  pub download_url : String
  pub url_expires_at : ℕ

pub record ManifestLink : Type 0 where
  pub download_url : String
  pub url_expires_at : ℕ

pub record FilesResponse : Type 0 where
  pub extract_id : String
  pub files : List FileEntry
  pub manifest : ManifestLink

-- The check of `row["status"]`: 410 once expired, and 409 before there are files.
unfoldable pub check_available : {S : Type 0} → ExtractStatus → Exec S (Unit {0})
check_available ExtractStatus.completed s = (ok tt, s)
check_available ExtractStatus.partial s = (ok tt, s)
check_available ExtractStatus.expired s =
    (err (ExtractError.http 410 "extract has expired per retention policy"), s)
check_available _ s = (err (ExtractError.http 409 "files unavailable"), s)

-- `state.get("files", [])`
unfoldable pub files_in : Option Outcome → List FileInfo
files_in none = []
files_in (some o) = o.files

-- The address of the request: `str(request.base_url)` and the prefix of the routes.
pub record Origin : Type 0 where
  pub base_url : String
  pub prefix : String

unfoldable pub download_url : Origin → String → String → String → String
download_url at id filename token = concat (
    rstrip_slash at.base_url
    ∷ at.prefix
    ∷ "/extracts/"
    ∷ id
    ∷ "/download/"
    ∷ filename
    ∷ "?token="
    ∷ token
    ∷ [])

module _ (p : Platform) (cfg : Settings) (at : Origin) (app id : String) (row : ExtractRow) where
  -- The entry of a file, signed at an instant.
  unfoldable pub entry_of : ℕ → FileInfo → FileEntry
  unfolding download_url
  entry_of t f =
      let (token, expires) = sign p cfg t id row.domain f.name app none in
      record {
        file_id = concat ("file_" ∷ f.partition_key ∷ []);
        partition_key = f.partition_key;
        format = f.format;
        compression = f.compression;
        size_bytes = f.size_bytes;
        row_count = f.row_count;
        checksum = f.checksum;
        download_url = download_url at id f.name token;
        url_expires_at = expires;
      }

  unfoldable pub manifest_link : ℕ → ManifestLink
  unfolding download_url
  manifest_link t =
      let (token, expires) = sign p cfg t id row.domain "manifest.json" app none in
      record { download_url = download_url at id "manifest.json" token; url_expires_at = expires }

  unfoldable pub count_issued : Service → Service
  count_issued = on_metrics (inc "extract.storage.presigned_urls_issued" 1 (("app_id", app) ∷ []))

  -- One round of the loop, for an entitled fund: a URL counts against the limit of presigned URLs.
  unfoldable pub issue_entry : FileInfo → Exec Service FileEntry
  unfolding with_storage entry_of count_issued
  issue_entry f = do
    t ← gets (λ s. s.time)
    with_storage (check_presign cfg t app)
    entry ← gets (λ s. entry_of (now s) f)
    modify count_issued
    pure entry

  -- The loop over the files of the row.
  unfoldable pub list_entries : List String → List FileInfo → Exec Service (List FileEntry)
  list_entries entitled [] = pure []
  list_entries entitled (f ∷ files) =
      let others = list_entries entitled files in
      if contains f.partition_key entitled
      then (issue_entry f >>= λ entry. others >>= λ entries. pure (entry ∷ entries))
      else others

  -- The handler once the row is found.
  unfoldable pub list_row : Exec Service FilesResponse
  unfolding with_storage check_available
  list_row = do
    check_available row.status
    entitled ← gets (λ s. entitled_funds app s.storage)
    entries ← list_entries entitled (files_in (outcome_in row.state))
    t ← gets (λ s. s.time)
    with_storage (check_presign cfg t app)
    link ← gets (λ s. manifest_link (now s))
    at_now ← gets now
    modify (on_storage (audit at_now (some app) "extract.files.list" (some id) "success"))
    pure (record { extract_id = id; files = entries; manifest = link })

unfoldable pub list_owned :
    Platform → Settings → Origin → String → String → Option ExtractRow → Exec Service FilesResponse
unfolding list_row
list_owned p cfg at app id none s = (err (ExtractError.not_found "extract not found"), s)
list_owned p cfg at app id (some row) s = list_row p cfg at app id row s

-- The handler `list_files`, for an authenticated principal.
unfoldable pub list_files :
    Platform → Settings → Origin → Principal → String → Exec Service FilesResponse
unfolding with_storage list_owned owned
list_files p cfg at who id = do
  t ← gets (λ s. s.time)
  with_storage (check_request cfg t who.app_id)
  row ← gets (λ s. owned who.app_id (get_extract id s.storage))
  list_owned p cfg at who.app_id id row

-- The answer to what `verify` returns.
unfoldable pub authorised : {S : Type 0} → Verdict → Exec S String
authorised (Verdict.valid app) s = (ok app, s)
authorised (Verdict.invalid reason) s = (err (ExtractError.http 403 reason), s)
authorised Verdict.type_error s = (err ExtractError.type_error, s)

-- The handler `download_file`, which takes no principal: the token stands for it.
unfoldable pub download_file : Platform → Settings → String → String → String → Exec Service Content
unfolding authorised
download_file p cfg id filename token = do
  found ← gets (λ s. get_extract id s.storage)
  row ← or_raise found (ExtractError.not_found "extract not found")
  verdict ← gets (λ s. verify p cfg (now s) id row.domain filename token)
  app ← authorised verdict
  path ← gets (λ s. file_path id row.domain filename s.store)
  content ← or_raise path (ExtractError.not_found "file not found")
  t ← gets now
  modify (on_storage (audit t (some app) "file.download" (some id) "success"))
  pure content
