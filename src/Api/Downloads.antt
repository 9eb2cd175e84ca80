-- ===== src/Api/Downloads.antt =====
-- extract_service/main.py: what `download_file` gives out, and to whom.
use data_nexus.Prelude.{
  ◌≤◌, ◌<◌, String, none, some, [], ◌∷◌, ◌≡◌, refl, ◌⊎◌, inl, inr, Option-cases, ap, length,
}
use data_nexus.Prelude.Text.{concat}
use data_nexus.Config.{Settings}
use data_nexus.Errors.{ExtractError, http_status}
use data_nexus.Exec.{Result, ok, err}
use data_nexus.Platform.{Platform}
use data_nexus.Storage.Rows.{ExtractRow, FileInfo}
use data_nexus.Storage.Apps.{audit}
use data_nexus.Storage.Extracts.{get_extract}
use data_nexus.ObjectStore.Files.{Content, file_path, partition}
use data_nexus.ObjectStore.Signing.{HexDigests, verify-sign}
use data_nexus.ObjectStore.Tokens.{Verdict, sign, verify}
use data_nexus.Service.{Service, now, on_storage}
use data_nexus.Worker.Written.{Intact, fund_bytes}
use data_nexus.Worker.Funds.{Run}
use data_nexus.Api.Files.{Origin, authorised, download_file, download_url, entry_of}

-- The service after a download that was written to the audit log.
abbrev pub logged : String → String → Service → Service
logged app id s = on_storage (audit (now s) (some app) "file.download" (some id) "success") s

module _ (p : Platform) (cfg : Settings) where
  -- A valid token for a file that is there.
  download_valid :
      (id filename token : String) (s : Service) {row : ExtractRow} {app : String} {c : Content}
      → get_extract id s.storage ≡ some row
      → verify p cfg (now s) id row.domain filename token ≡ Verdict.valid app
      → file_path id row.domain filename s.store ≡ some c
      → download_file p cfg id filename token s ≡ (ok c, logged app id s)
  unfolding download_file
  download_valid id filename token s found valid stored = rw (found, valid, stored) refl

  -- Where digests are hexadecimal: what `list_files` signed for a file opens the file, as long as
  -- the store has it under the domain of the extract and until the expiry that the entry shows, and
  -- the download is logged for the application of the listing.
  pub download_listed :
      HexDigests p
      → (at : Origin) (app id : String) (row row' : ExtractRow) (f : FileInfo) (s later : Service)
        {c : Content}
      → let entry = entry_of p cfg at app id row (now s) f in
        (get_extract id later.storage ≡ some row')
        → row'.domain ≡ row.domain
        → file_path id row.domain f.name later.store ≡ some c
        → now later ≤ entry.url_expires_at
        → entry.url_expires_at < 253402300800
        → (token : String) × (entry.download_url ≡ download_url at id f.name token)
          × (download_file p cfg id f.name token later ≡ (ok c, logged app id later))
  unfolding entry_of
  download_listed hex at app id row row' f s later found same stored fresh small =
      let token = (sign p cfg (now s) id row.domain f.name app none).0 in
      let valid =
        verify-sign p cfg hex (now s) (now later) id row.domain f.name app none fresh small in
      (token, refl, download_valid id f.name token later found (rw same valid) (rw same stored))

  -- What a download is refused for, and whether the service stays as it was.
  abbrev pub Refusal : ExtractError → Type 0
  Refusal e = (http_status e ≡ 404) ⊎ (http_status e ≡ 403) ⊎ (http_status e ≡ 500)

  -- What a download answers: a stored file for a valid token, with a row in the audit log, or a
  -- refusal that changes nothing.
  pub data Answered (id filename token : String) (s : Service)
      : Result Content × Service → Type 0 where
    served :
        (row : ExtractRow) (app : String) (c : Content)
        → get_extract id s.storage ≡ some row
        → verify p cfg (now s) id row.domain filename token ≡ Verdict.valid app
        → file_path id row.domain filename s.store ≡ some c
        → Answered id filename token s (ok c, logged app id s)
    refused : (e : ExtractError) → Refusal e → Answered id filename token s (err e, s)

  download_path-Answered :
      (id filename token : String) (s : Service) (row : ExtractRow) (app : String)
      → get_extract id s.storage ≡ some row
      → verify p cfg (now s) id row.domain filename token ≡ Verdict.valid app
      → Answered id filename token s (download_file p cfg id filename token s)
  unfolding download_file http_status
  download_path-Answered id filename token s row app found valid =
      elim (Option-cases (file_path id row.domain filename s.store)) [
        | inl lost ↦ rw (found, valid, lost) (Answered.refused _ (inl refl))
        | inr stored ↦
            rw (found, valid, stored.1) (Answered.served row app stored.0 found valid stored.1)
      ]

  download_row-Answered :
      (id filename token : String) (s : Service) (row : ExtractRow) (verdict : Verdict)
      → get_extract id s.storage ≡ some row
      → verify p cfg (now s) id row.domain filename token ≡ verdict
      → Answered id filename token s (download_file p cfg id filename token s)
  unfolding download_file authorised http_status
  download_row-Answered id filename token s row (Verdict.valid app) found valid =
      download_path-Answered id filename token s row app found valid
  download_row-Answered id filename token s row (Verdict.invalid reason) found bad =
      rw (found, bad) (Answered.refused _ (inr (inl refl)))
  download_row-Answered id filename token s row Verdict.type_error found bad =
      rw (found, bad) (Answered.refused _ (inr (inr refl)))

  -- Every download ends in one of two ways: it gives out the file that the store has under the
  -- domain of the extract, for a token that is valid now, and logs it for the application of the
  -- token; or it is refused with 404, 403 or 500 and leaves the service as it was.
  pub download_file-Answered :
      (id filename token : String) (s : Service)
      → Answered id filename token s (download_file p cfg id filename token s)
  unfolding download_file http_status
  download_file-Answered id filename token s = elim (Option-cases (get_extract id s.storage)) [
    | inl lost ↦ rw lost (Answered.refused _ (inl refl))
    | inr (row, found) ↦ download_row-Answered id filename token s row _ found refl
  ]

-- A run's own files: where a listed file is as the run wrote it and the store still has it when
-- it is downloaded, before the expiry that its entry shows, the bytes that are given out are the
-- rows of its fund, and have the size and the checksum that the entry shows.
pub download_exact :
    (p : Platform) (cfg : Settings)
    → HexDigests p
    → (at : Origin) (app : String) (run : Run) (row row' : ExtractRow) (f : FileInfo)
      (s later : Service)
    → let id = run.extract_id in
      let entry = entry_of p cfg at app id row (now s) f in
      (get_extract id later.storage ≡ some row')
      → row'.domain ≡ row.domain
      → Intact p run (λ name. file_path id row.domain name later.store) f
      → now later ≤ entry.url_expires_at
      → entry.url_expires_at < 253402300800
      → let bytes = fund_bytes p run f.partition_key in
        (token : String) × (entry.download_url ≡ download_url at id f.name token)
        × ((download_file p cfg id f.name token later).0 ≡ ok (partition bytes))
        × (entry.size_bytes ≡ length bytes)
        × (entry.checksum ≡ concat ("sha256:" ∷ p.sha256_hex bytes ∷ []))
unfolding entry_of
download_exact p cfg hex at app run row row' f s later found same whole fresh small =
    let (token, url, got) =
      download_listed p cfg hex at app run.extract_id row row' f s later found same whole.stored
        fresh small in
    (token, url, ap (λ x. x.0) got, whole.size, whole.checksum)
