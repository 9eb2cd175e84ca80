-- ===== src/Api/FilesListed.antt =====
-- extract_service/main.py: which files `list_files` lists, and when it does.
use data_nexus.Prelude.{
  ℕ, ◌+◌, ◌-◌, ◌≤◌, ◌<◌, String, false, some, List, [], ◌∷◌, ◌≡◌, refl, ◌∙◌, map, filter, length,
  contains, string_eq, leb, arith, eq_iff, Bool-cases, ◌⊎◌, inl, inr,
}
use data_nexus.Config.{Settings}
use data_nexus.Errors.{ExtractError}
use data_nexus.Exec.{ok, err}
use data_nexus.Platform.{Platform}
use data_nexus.Storage.Rows.{ExtractRow, FileInfo, Storage}
use data_nexus.Storage.Apps.{entitled_funds, count_rl_events, prune_rl_events, record_rl_event}
use data_nexus.Storage.Lookup.{count-prune, count-record}
use data_nexus.Auth.Limiter.{check_presign, RateHeaders, check_request, window_start}
use data_nexus.Service.{Service, now}
use data_nexus.Api.Cancel.{owned}
use data_nexus.Auth.Windows.{recent}
use data_nexus.Auth.Principals.{Principal}
use data_nexus.Storage.Extracts.{get_extract}
use data_nexus.Api.Create.{with_storage}
use data_nexus.Api.Files.{
  Origin, issue_entry, list_entries, entry_of, files_in, list_row, list_files, list_owned,
  check_available, manifest_link,
}
use data_nexus.Api.Status.{outcome_in}
use data_nexus.Models.Enums.{ExtractStatus}

-- The URLs of an application that count against the limit at an instant.
abbrev pub recent_urls : String → ℕ → Storage → ℕ
recent_urls app t s = count_rl_events app "presign" (window_start t) s

-- A URL is refused when the minute before has the allowed number, and counts otherwise.
check_presign_refused :
    (cfg : Settings) (t : ℕ) (app : String) (s : Storage)
    → cfg.rate_limit_presign_per_minute ≤ recent_urls app t s
    → (check_presign cfg t app s).0 ≡ err (ExtractError.rate_limited 60)
unfolding check_presign
check_presign_refused cfg t app s full =
    let e =
      count-prune app "presign" (window_start t) (window_start t - 3600000000) s (omega arith) in
    ground (arith, e)

check_presign_allowed :
    (cfg : Settings) (t : ℕ) (app : String) (s : Storage)
    → recent_urls app t s < cfg.rate_limit_presign_per_minute
    → let (answer, s') = check_presign cfg t app s in
      (answer ≡ ok tt) × (recent_urls app t s' ≡ recent_urls app t s + 1)
unfolding check_presign
check_presign_allowed cfg t app s free =
    let kept = prune_rl_events (window_start t - 3600000000) s in
    let e =
      count-prune app "presign" (window_start t) (window_start t - 3600000000) s (omega arith) in
    ground
      (arith, e, count-record app "presign" app "presign" (window_start t) t kept, eq_iff app app)

-- The files of a list that an application is entitled to.
abbrev pub entitled_files : List String → List FileInfo → List FileInfo
entitled_files entitled files = filter (λ f. contains f.partition_key entitled) files

-- The two statuses of an extract that has files.
abbrev pub HasFiles : ExtractStatus → Type 0
HasFiles status = (status ≡ ExtractStatus.completed) ⊎ (status ≡ ExtractStatus.partial)

check_available_open :
    (status : ExtractStatus) (s : Service) → HasFiles status → check_available status s ≡ (ok tt, s)
unfolding check_available
check_available_open status s (inl completed) = rw completed refl
check_available_open status s (inr partly) = rw partly refl

module _ (p : Platform) (cfg : Settings) (at : Origin) (app id : String) (row : ExtractRow) where
  issue_entry_allowed :
      (f : FileInfo) (s : Service)
      → recent_urls app s.time s.storage < cfg.rate_limit_presign_per_minute
      → let (answer, s') = issue_entry p cfg at app id row f s in
        (answer ≡ ok (entry_of p cfg at app id row (now s) f))
        × (s'.time ≡ s.time)
        × (recent_urls app s.time s'.storage ≡ recent_urls app s.time s.storage + 1)
  unfolding issue_entry with_storage
  issue_entry_allowed f s free =
      let (allowed, counted) = check_presign_allowed cfg s.time app s.storage free in
      rw allowed (refl, refl, counted)

  -- While the limit allows a URL for each, the loop answers the entries of the entitled files.
  list_entries_allowed :
      (entitled : List String) (files : List FileInfo) (s : Service)
      → recent_urls app s.time s.storage + length (entitled_files entitled files)
        ≤ cfg.rate_limit_presign_per_minute
      → let (answer, s') = list_entries p cfg at app id row entitled files s in
        (answer ≡ ok (map (entry_of p cfg at app id row (now s)) (entitled_files entitled files)))
        × (s'.time ≡ s.time)
        × (recent_urls app s.time s'.storage
            ≡ recent_urls app s.time s.storage + length (entitled_files entitled files))
  unfolding list_entries
  list_entries_allowed entitled [] s free = (refl, refl, omega arith)
  list_entries_allowed entitled (f ∷ files) s free =
      elim (Bool-cases (contains f.partition_key entitled)) [
        | inl held ↦
            let room = rw held at free in
            let (issued, same, counted) = issue_entry_allowed f s (omega arith) in
            let s₁ = (issue_entry p cfg at app id row f s).1 in
            let (answered, still, total) =
              list_entries_allowed entitled files s₁ (rw (same, counted) (omega arith)) in
            let sum = rw (same, counted) at total in
            rw (held, issued, answered) (rw same refl, still ∙ same, omega (arith, sum))
        | inr lacked ↦ rw lacked (list_entries_allowed entitled files s (rw lacked at free))
      ]

  -- The row of a completed or partial extract, while the limit leaves a URL for each file and the
  -- manifest.
  list_row_allowed :
      (s : Service)
      → let entitled = entitled_funds app s.storage in
        let files = entitled_files entitled (files_in (outcome_in row.state)) in
        HasFiles row.status
        → recent_urls app s.time s.storage + length files < cfg.rate_limit_presign_per_minute
        → (list_row p cfg at app id row s).0
          ≡ ok (record {
            extract_id = id;
            files = map (entry_of p cfg at app id row (now s)) files;
            manifest = manifest_link p cfg at app id row (now s);
          })
  unfolding list_row with_storage
  list_row_allowed s ended free =
      let entitled = entitled_funds app s.storage in
      let files = files_in (outcome_in row.state) in
      let (answered, same, urls) = list_entries_allowed entitled files s (omega arith) in
      let s₁ = (list_entries p cfg at app id row entitled files s).1 in
      let (allowed, counted) =
        check_presign_allowed cfg s₁.time app s₁.storage (rw (same, urls) free) in
      rw (check_available_open row.status s ended, answered, allowed, same) refl

-- A request that the limit lets in counts as a request only, and leaves the other tables alone.
check_request_allowed :
    (cfg : Settings) (t : ℕ) (app : String) (s : Storage) (id : String)
    → recent app t s < cfg.rate_limit_requests_per_minute
    → let (answer, s') = check_request cfg t app s in
      ((h : RateHeaders) × (answer ≡ ok h))
      × (recent_urls app t s' ≡ recent_urls app t s)
      × (get_extract id s' ≡ get_extract id s)
      × (entitled_funds app s' ≡ entitled_funds app s)
unfolding check_request get_extract entitled_funds record_rl_event prune_rl_events
check_request_allowed cfg t app s id free =
    let kept = prune_rl_events (window_start t - 3600000000) s in
    let requests =
      count-prune app "request" (window_start t) (window_start t - 3600000000) s (omega arith) in
    let urls =
      count-prune app "presign" (window_start t) (window_start t - 3600000000) s (omega arith) in
    let counted_apart : recent_urls app t (record_rl_event app "request" t kept)
        ≡ recent_urls app t kept =
      ground (arith, count-record app "presign" app "request" (window_start t) t kept) in
    let admitted : leb cfg.rate_limit_requests_per_minute
          (count_rl_events app "request" (window_start t) kept)
        ≡ false =
      ground arith in
    rw admitted ((_, refl), counted_apart ∙ urls, refl, refl)

-- A principal lists an extract of its own that is completed or partial, while the limits leave a
-- request and a URL for each listed file and the manifest: the answer has the entries of exactly
-- the files of entitled funds, in the order of the run, and the link of the manifest.
pub list_files_lists :
    (p : Platform) (cfg : Settings) (at : Origin) (who : Principal) (id : String) (s : Service)
    {row : ExtractRow}
    → let app = who.app_id in
      let files = entitled_files (entitled_funds app s.storage) (files_in (outcome_in row.state)) in
      (owned app (get_extract id s.storage) ≡ some row)
      → HasFiles row.status
      → recent app s.time s.storage < cfg.rate_limit_requests_per_minute
      → recent_urls app s.time s.storage + length files < cfg.rate_limit_presign_per_minute
      → (list_files p cfg at who id s).0
        ≡ ok (record {
          extract_id = id;
          files = map (entry_of p cfg at app id row (now s)) files;
          manifest = manifest_link p cfg at app id row (now s);
        })
unfolding list_files with_storage list_owned
list_files_lists p cfg at who id s {row} found ended requests urls =
    let app = who.app_id in
    let ((h, admitted), same_urls, same_row, same_funds) =
      check_request_allowed cfg s.time app s.storage id requests in
    let s₁ = record s { storage = (check_request cfg s.time app s.storage).1 } in
    let answered =
      list_row_allowed p cfg at app id row s₁ ended (rw (same_funds, same_urls) urls) in
    rw (admitted, same_row, found, answered, same_funds) refl
