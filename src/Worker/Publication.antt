-- ===== src/Worker/Publication.antt =====
-- What a run publishes: the files of its funds and the manifest, where readers look for them.
use mathlib.Core.Path.{subst}
use data_nexus.Prelude.{
  ℕ, String, true, false, ◌≡◌, refl, ◌∙◌, Option, none, some, List, [], ◌∷◌, ◌==◌, string_eq,
  eq_iff, arith,
}
use data_nexus.Prelude.Dict.{lookup, insert, lookup-insert}
use data_nexus.Prelude.Lists.{All}
use data_nexus.Config.{Settings}
use data_nexus.Models.Enums.{ErrorCode, NotificationMode}
use data_nexus.Models.Events.{Event, PartialResult}
use data_nexus.Models.Request.{NotificationSpec}
use data_nexus.Platform.{Platform}
use data_nexus.Storage.Rows.{ExtractRow, FileInfo}
use data_nexus.Storage.Extracts.{get_extract}
use data_nexus.Storage.Lookup.{get_extract-key}
use data_nexus.ObjectStore.Files.{
  Content, Manifest, ObjectStore, file_path, files_of, find_published, manifest, marker, staged,
}
use data_nexus.ObjectStore.Publishing.{file_path-promote, with_manifest}
use data_nexus.Service.{Schedule, Service, now}
use data_nexus.Worker.Notify.{
  emit_failed, emit_ready, publish_event, route_by, route_notification, schedule_webhook,
}
use data_nexus.Worker.Funds.{LoopEnd, Run, Tally, funds_loop, no_tally}
use data_nexus.Worker.Finalize.{
  build_manifest, finalize_completed, finalize_partial, has_expiry, publish_files,
  schema_version_of,
}
use data_nexus.Worker.Process.{end_loop, finalize, finalize_by}
use data_nexus.Worker.Races.{rest_of_run}
use data_nexus.Worker.Written.{Intact, Quiet, funds_loop-Intact, in_staging}

store-route_by :
    (mode : NotificationMode) (p : Platform) (row : ExtractRow) (topic url : Option String)
    (e : Event) (s : Service)
    → (route_by mode p row topic url e s).store ≡ s.store
unfolding route_by publish_event schedule_webhook
store-route_by NotificationMode.event p row topic url e s = refl
store-route_by NotificationMode.webhook p row topic url e s = refl
store-route_by NotificationMode.none p row topic url e s = refl

store-route :
    (p : Platform) (row : ExtractRow) (n : Option NotificationSpec) (e : Event) (s : Service)
    → (route_notification p row n e s).store ≡ s.store
unfolding route_notification
store-route p row none e s = store-route_by NotificationMode.event p row none none e s
store-route p row (some n) e s = store-route_by n.mode p row n.topic n.callback_url e s

store-emit_ready :
    (p : Platform) (row : ExtractRow) (run_id : String) (f : FileInfo) (fs : List FileInfo)
    (d x : ℕ) (schema : String) (s : Service)
    → (emit_ready p row run_id f fs d x schema s).store ≡ s.store
unfolding emit_ready
store-emit_ready p row run_id f fs d x schema s = store-route p row row.request.notification _ s

store-emit_failed :
    (p : Platform) (row : ExtractRow) (code : ErrorCode) (m : String) (n : ℕ) (r : PartialResult)
    (s : Service)
    → (emit_failed p row code m n r s).store ≡ s.store
unfolding emit_failed
store-emit_failed p row code m n r s = store-route p row row.request.notification _ s

-- What a reader finds once an extract is published: every staged file under its name, the manifest
-- and the marker. The staging prefix is gone.
pub record Readable (id domain : String) (m : Manifest) (before after : ObjectStore) : Type 0 where
  pub found :
      (name : String)
      → file_path id domain name after ≡ lookup name (with_manifest m (files_of (staged id before)))
  pub cleared : staged id after ≡ none

module _ (p : Platform) (cfg : Settings) (run_id : String) (row : ExtractRow) (s : Service)
    (unpublished : find_published row.extract_id row.domain s.store ≡ none) where
  abbrev manifest_of : List FileInfo → Manifest
  manifest_of files = build_manifest cfg (now s) row run_id files (schema_version_of row.domain)

  publish_files-Readable :
      (files : List FileInfo)
      → (store : ObjectStore) × (publish_files p cfg row run_id files s
          ≡ some (record s { store = store }))
        × Readable row.extract_id row.domain (manifest_of files) s.store store
  unfolding publish_files
  publish_files-Readable files =
      let (store, promoted, found, cleared, _) =
        file_path-promote p (now s) row.extract_id row.domain (manifest_of files) s.store
          unpublished in
      (store, rw promoted refl, record { found = found; cleared = cleared })

  pub finalize_by-Readable :
      (started : ℕ) (f : FileInfo) (fs : List FileInfo) (failed : List String) (t : Tally)
      → has_expiry cfg row (now s) ≡ true
      → Readable row.extract_id row.domain
          (manifest_of (f ∷ fs))
          s.store
          (finalize_by (f ∷ fs) failed p cfg row run_id started t s).1.store
  unfolding finalize_by finalize_completed finalize_partial
  finalize_by-Readable started f fs [] t fits =
      let (store, published, readable) = publish_files-Readable (f ∷ fs) in
      rw (fits, published, store-emit_ready) readable
  finalize_by-Readable started f fs (g ∷ gs) t fits =
      let (store, published, readable) = publish_files-Readable (f ∷ fs) in
      rw (fits, published, store-emit_failed) readable

-- A name that neither the manifest nor the marker takes.
abbrev pub OwnName : FileInfo → Type 0
OwnName f = ((f.name == "manifest.json") ≡ false) × ((f.name == "_SUCCESS") ≡ false)

lookup-with_manifest :
    (m : Manifest) (d : List (String × Content)) (f : FileInfo)
    → OwnName f
    → lookup f.name (with_manifest m d) ≡ lookup f.name d
lookup-with_manifest m d f (not_manifest, not_marker) =
    let a : ("_SUCCESS" == f.name) ≡ false =
      ground (arith, eq_iff f.name "_SUCCESS", eq_iff "_SUCCESS" f.name) in
    let b : ("manifest.json" == f.name) ≡ false =
      ground (arith, eq_iff f.name "manifest.json", eq_iff "manifest.json" f.name) in
    lookup-insert "_SUCCESS" f.name marker (insert "manifest.json" (manifest m) d)
    ∙ rw a (lookup-insert "manifest.json" f.name (manifest m) d ∙ rw b refl)

module _ (p : Platform) (run : Run) (domain : String) (m : Manifest) (before after : ObjectStore)
    (v : Readable run.extract_id domain m before after) where
  Intact-Readable :
      (files : List FileInfo)
      → All OwnName files
      → All (Intact p run (in_staging p run before)) files
      → All (Intact p run (λ name. file_path run.extract_id domain name after)) files
  Intact-Readable [] names h = tt
  Intact-Readable (f ∷ files) names h = (
    record {
      stored = v.found f.name ∙ (lookup-with_manifest m _ f names.0 ∙ h.0.stored);
      name = h.0.name;
      size = h.0.size;
      checksum = h.0.checksum;
      row_count = h.0.row_count;
    },
    Intact-Readable files names.1 h.1,
  )

-- A run of an extract that is in the database and not yet published, whose retention leads to an
-- instant before the year 10000, whose staging prefix other tasks leave alone, and whose files take no name of the manifest or the marker: when its loop ends
-- with files, a reader then finds every listed file under its name, with the rows of its fund and
-- the listed checksum, and the staging prefix is gone.
pub run_publishes :
    (p : Platform) (cfg : Settings) (run : Run) (run_id : String) (started total : ℕ)
    (funds : List String) (fs : Schedule) (s : Service) {t : Tally} {f : FileInfo}
    {more : List FileInfo} {row : ExtractRow}
    → Quiet p run fs
    → let (ended, s₁) = funds_loop p cfg run total funds no_tally fs s in
      let s' = (rest_of_run p cfg run run_id started total funds no_tally fs s).1 in
      (ended ≡ LoopEnd.finished t)
      → t.files ≡ f ∷ more
      → All OwnName t.files
      → get_extract run.extract_id s₁.storage ≡ some row
      → find_published run.extract_id row.domain s₁.store ≡ none
      → has_expiry cfg row (now s₁) ≡ true
      → All (Intact p run (λ name. file_path run.extract_id row.domain name s'.store)) t.files
        × (staged run.extract_id s'.store ≡ none)
unfolding end_loop finalize
run_publishes p cfg run run_id started total funds fs s {t} {f} {more} {row} quiet ends files names
      present unpublished fits =
    let s₁ = (funds_loop p cfg run total funds no_tally fs s).1 in
    let key = get_extract-key run.extract_id s₁.storage present in
    let unpublished' : find_published row.extract_id row.domain s₁.store ≡ none =
      rw key unpublished in
    let last = finalize_by (f ∷ more) t.funds_failed p cfg row run_id started t s₁ in
    let same : rest_of_run p cfg run run_id started total funds no_tally fs s ≡ last =
      rw (ends, present, files) refl in
    let m = manifest_of p cfg run_id row s₁ unpublished' (f ∷ more) in
    let v : Readable run.extract_id row.domain m s₁.store last.1.store =
      subst (λ id. Readable id row.domain m s₁.store last.1.store) key
        (finalize_by-Readable p cfg run_id row s₁ unpublished' started f more t.funds_failed t
          fits) in
    rw same (
      Intact-Readable p run row.domain m s₁.store last.1.store v t.files names
          (funds_loop-Intact p cfg run total funds fs s quiet ends),
      v.cleared,
    )
