-- ===== src/Api/Reported.antt =====
-- What the status of an extract reports after its run.
use mathlib.Core.Path.{subst}
use text.Mathlib.TextPositions.{eq_refl}
use data_nexus.Prelude.{
  ℕ, String, true, none, ◌≡◌, refl, sym, ◌∙◌, Option, some, List, [], ◌∷◌, string_eq,
}
use data_nexus.Config.{Settings}
use data_nexus.Models.Enums.{ExtractStatus}
use data_nexus.Models.Events.{PartialResult}
use data_nexus.Platform.{Platform}
use data_nexus.Storage.Rows.{ExtractRow, FileInfo, StateJson}
use data_nexus.Storage.Extracts.{apply_changes, get_extract, no_changes}
use data_nexus.Storage.Lookup.{get_extract-key, get_extract-update}
use data_nexus.ObjectStore.Files.{
  Content, Manifest, ObjectStore, file_path, find_published, manifest, marker,
}
use data_nexus.ObjectStore.Publishing.{with_manifest}
use data_nexus.Prelude.Dict.{insert, lookup, lookup-insert}
use data_nexus.Worker.Publication.{finalize_by-Readable}
use data_nexus.Service.{Service, now}
use data_nexus.Worker.Notify.{combined_checksum, files_endpoint}
use data_nexus.Worker.Funds.{Tally}
use data_nexus.Worker.Finalize.{
  build_manifest, complete, complete_partly, count_request, expiry, has_expiry, finalize_completed,
  finalize_partial, outcome_of, save_outcome, schema_version_of,
}
use data_nexus.Worker.Outcome.{publish_files-storage, storage-emit_failed, storage-emit_ready}
use data_nexus.Worker.Process.{finalize, finalize_by}
use data_nexus.Api.Status.{ResultInfo, outcome_in, result_by, result_info, status_response}

-- The result that a manifest and its files stand for, with an expiry.
abbrev pub result_of : Platform → String → ℕ → Manifest → ResultInfo
result_of p id expires m = record {
  location = files_endpoint id;
  file_count = m.file_count;
  total_bytes = m.total_bytes;
  total_rows = m.total_rows;
  checksum = combined_checksum p m.files;
  schema_version = m.schema_version;
  expires_at = expires;
}

module _ (p : Platform) (cfg : Settings) (run_id : String) (started : ℕ) (s : Service)
    {row : ExtractRow} (present : get_extract row.extract_id s.storage ≡ some row)
    (fits : has_expiry cfg row (now s) ≡ true) where
  abbrev saved_row : ExtractStatus → StateJson → ExtractRow
  saved_row status state =
      apply_changes (now s)
        (record no_changes {
          status = some status;
          state = some state;
          completed_at = some (now s);
          expires_at = some (expiry cfg row (now s));
        })
        row

  get_extract-save_outcome :
      (status : ExtractStatus) (state : StateJson)
      → get_extract row.extract_id (save_outcome cfg row status state s).storage
        ≡ some (saved_row status state)
  unfolding save_outcome
  get_extract-save_outcome status state =
      get_extract-update (now s) row.extract_id row.extract_id _ s.storage
      ∙ rw (present, eq_refl row.extract_id) refl

  abbrev manifest_for : List FileInfo → Manifest
  manifest_for files = build_manifest cfg (now s) row run_id files (schema_version_of row.domain)

  -- A stored row that reports a result.
  abbrev Reports : List FileInfo → Option ExtractRow → Type 0
  Reports files stored =
      (r : ExtractRow) × (stored ≡ some r)
      × ((x : ℕ) × (r.expires_at ≡ some x)
          × ((t : ℕ)
              → (status_response t r).result
                ≡ some (result_of p row.extract_id x (manifest_for files))))

  Reports-completed :
      (f : FileInfo) (fs : List FileInfo)
      → Reports (f ∷ fs) (
          get_extract row.extract_id (finalize_completed p cfg row run_id f fs started s).1.storage)
  unfolding finalize_completed complete status_response result_by result_info outcome_in outcome_of
      expiry apply_changes build_manifest count_request
  Reports-completed f fs =
      let (store, published) = publish_files-storage p cfg row run_id (f ∷ fs) s in
      rw (fits, published, storage-emit_ready)
        (
          _,
          get_extract-save_outcome ExtractStatus.completed
              (StateJson.finished (outcome_of p row (f ∷ fs) _)),
          (expiry cfg row (now s), refl, λ t. refl),
        )

  Reports-partial :
      (funds : PartialResult) (f : FileInfo) (fs : List FileInfo) (retries : ℕ)
      → Reports (f ∷ fs) (
          get_extract row.extract_id
            (finalize_partial p cfg row run_id funds (f ∷ fs) started retries s).1.storage)
  unfolding finalize_partial complete_partly status_response result_by result_info outcome_in
      outcome_of expiry apply_changes build_manifest count_request
  Reports-partial funds f fs retries =
      let (store, published) = publish_files-storage p cfg row run_id (f ∷ fs) s in
      rw (fits, published, storage-emit_failed)
        (
          _,
          get_extract-save_outcome ExtractStatus.partial
              (StateJson.finished_partly (outcome_of p row (f ∷ fs) _) _),
          (expiry cfg row (now s), refl, λ t. refl),
        )

  Reports-finalize_by :
      (f : FileInfo) (fs : List FileInfo) (failed : List String) (t : Tally)
      → Reports (f ∷ fs) (
          get_extract row.extract_id
            (finalize_by (f ∷ fs) failed p cfg row run_id started t s).1.storage)
  unfolding finalize_by
  Reports-finalize_by f fs [] t = Reports-completed f fs
  Reports-finalize_by f fs (g ∷ gs) t = Reports-partial _ f fs t.attempts

-- A manifest of which a reader finds the text in the store.
abbrev pub Stored : String → String → Manifest → ObjectStore → Type 0
Stored id domain m store = file_path id domain "manifest.json" store ≡ some (manifest m)

lookup-manifest :
    (m : Manifest) (d : List (String × Content))
    → lookup "manifest.json" (with_manifest m d) ≡ some (manifest m)
lookup-manifest m d =
    lookup-insert "_SUCCESS" "manifest.json" marker (insert "manifest.json" (manifest m) d)
    ∙ lookup-insert "manifest.json" "manifest.json" (manifest m) d

-- After the finalization of a run with files, COMPLETED or PARTIAL, of an extract that was not
-- published before and whose expiry is before the year 10000, a reader finds a manifest in the
-- store, and the status of the extract reports at any time what this manifest says: the number of
-- files, their bytes and rows and the schema version, with the checksum of the files that it
-- lists. The expiry that is reported is the one of the row.
pub status-finalize :
    (p : Platform) (cfg : Settings) (id run_id : String) (started : ℕ) (t : Tally) (s : Service)
    {row : ExtractRow} {f : FileInfo} {fs : List FileInfo}
    → get_extract id s.storage ≡ some row
    → find_published id row.domain s.store ≡ none
    → has_expiry cfg row (now s) ≡ true
    → t.files ≡ f ∷ fs
    → let s' = (finalize p cfg id run_id started t s).1 in
      (m : Manifest) × Stored id row.domain m s'.store
      × (m.files ≡ t.files)
      × ((r : ExtractRow) × (get_extract id s'.storage ≡ some r)
          × ((x : ℕ) × (r.expires_at ≡ some x)
              × ((later : ℕ) → (status_response later r).result ≡ some (result_of p id x m))))
unfolding finalize build_manifest
status-finalize p cfg id run_id started t s {row} {f} {fs} present unpublished fits files =
    let key = get_extract-key id s.storage present in
    let here : get_extract row.extract_id s.storage ≡ some row =
      subst (λ j. get_extract j s.storage ≡ some row) (sym key) present in
    let new : find_published row.extract_id row.domain s.store ≡ none =
      subst (λ j. find_published j row.domain s.store ≡ none) (sym key) unpublished in
    let readable = finalize_by-Readable p cfg run_id row s new started f fs t.funds_failed t fits in
    let told = Reports-finalize_by p cfg run_id started s here fits f fs t.funds_failed t in
    let m = build_manifest cfg (now s) row run_id (f ∷ fs) (schema_version_of row.domain) in
    rw present (
      subst (λ l. Told id l) (sym files)
        (subst (λ j. Told j (f ∷ fs)) key
          (m, readable.found "manifest.json" ∙ lookup-manifest m _, refl, told)))
  where
    Told : String → List FileInfo → Type 0
    Told j l =
        let s' = (finalize_by l t.funds_failed p cfg row run_id started t s).1 in
        (m : Manifest) × Stored j row.domain m s'.store
        × (m.files ≡ l)
        × ((r : ExtractRow) × (get_extract j s'.storage ≡ some r)
            × ((x : ℕ) × (r.expires_at ≡ some x)
                × ((later : ℕ) → (status_response later r).result ≡ some (result_of p j x m))))
