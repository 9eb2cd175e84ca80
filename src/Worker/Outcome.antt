-- ===== src/Worker/Outcome.antt =====
-- How a run ends: the status that the finalization stores, whatever the row said before.
use mathlib.Core.Option
use data_nexus.Prelude.{
  ℕ, String, Bool, true, false, ap, ◌∙◌, ◌≡◌, refl, Option, none, some, List, [], ◌∷◌, string_eq,
  eq_iff, arith, get_or,
}
use data_nexus.Config.{Settings}
use data_nexus.Errors.{ExtractError}
use data_nexus.Exec.{Result, ok, err}
use data_nexus.Models.Enums.{ErrorCode, ExtractStatus, NotificationMode}
use data_nexus.Models.Events.{Event, PartialResult}
use data_nexus.Models.Request.{NotificationSpec}
use data_nexus.Platform.{Platform}
use data_nexus.Storage.Rows.{ExtractRow, FileInfo, Storage}
use data_nexus.Storage.Extracts.{Changes, apply_changes, get_extract, update_extract}
use data_nexus.Storage.Lookup.{get_extract-key, get_extract-update}
use data_nexus.Prelude.Dict.{insert}
use data_nexus.ObjectStore.Files.{ObjectStore, files_of, manifest, move, staged, write_manifest}
use data_nexus.ObjectStore.Publishing.{promote-write_manifest}
use data_nexus.Service.{Service, now}
use data_nexus.Worker.Notify.{
  emit_failed, emit_ready, publish_event, route_by, route_notification, schedule_webhook,
}
use data_nexus.Worker.Finalize.{
  build_manifest, schema_version_of, finalize_completed, finalize_failed, finalize_partial,
  publish_files, has_expiry,
}
use data_nexus.Worker.Funds.{Tally}
use data_nexus.Worker.Process.{finalize, finalize_by, finalize_row}

storage-route_by :
    (mode : NotificationMode) (p : Platform) (row : ExtractRow) (topic url : Option String)
    (e : Event) (s : Service)
    → (route_by mode p row topic url e s).storage ≡ s.storage
unfolding route_by publish_event schedule_webhook
storage-route_by NotificationMode.event p row topic url e s = refl
storage-route_by NotificationMode.webhook p row topic url e s = refl
storage-route_by NotificationMode.none p row topic url e s = refl

storage-route :
    (p : Platform) (row : ExtractRow) (n : Option NotificationSpec) (e : Event) (s : Service)
    → (route_notification p row n e s).storage ≡ s.storage
unfolding route_notification
storage-route p row none e s = storage-route_by NotificationMode.event p row none none e s
storage-route p row (some n) e s = storage-route_by n.mode p row n.topic n.callback_url e s

-- Notifications change nothing in the database.
pub storage-emit_ready :
    (p : Platform) (row : ExtractRow) (run_id : String) (f : FileInfo) (fs : List FileInfo)
    (d x : ℕ) (schema : String) (s : Service)
    → (emit_ready p row run_id f fs d x schema s).storage ≡ s.storage
unfolding emit_ready
storage-emit_ready p row run_id f fs d x schema s = storage-route p row row.request.notification _ s

pub storage-emit_failed :
    (p : Platform) (row : ExtractRow) (code : ErrorCode) (m : String) (n : ℕ) (r : PartialResult)
    (s : Service)
    → (emit_failed p row code m n r s).storage ≡ s.storage
unfolding emit_failed
storage-emit_failed p row code m n r s = storage-route p row row.request.notification _ s

-- The stored status of an extract.
abbrev pub status_of : String → Service → Option ExtractStatus
status_of id s = Option.map (λ r. r.status) (get_extract id s.storage)

status-update :
    (t : ℕ) (id : String) (c : Changes) (s : Storage) {row : ExtractRow}
    → get_extract id s ≡ some row
    → Option.map (λ r. r.status) (get_extract id (update_extract t row.extract_id c s))
      ≡ some (get_or c.status row.status)
unfolding apply_changes
status-update t id c s {row} h =
    let key = get_extract-key id s h in
    rw (get_extract-update t row.extract_id id c s, h) (ground (arith, eq_iff row.extract_id id))

-- Publishing the files never fails, and changes the object store alone.
pub publish_files-storage :
    (p : Platform) (cfg : Settings) (row : ExtractRow) (run_id : String) (files : List FileInfo)
    (s : Service)
    → (store : ObjectStore) × (publish_files p cfg row run_id files s
        ≡ some (record s { store = store }))
unfolding publish_files
publish_files-storage p cfg row run_id files s =
    let m = build_manifest cfg (now s) row run_id files (schema_version_of row.domain) in
    let moved = promote-write_manifest p (now s) row.extract_id row.domain m s.store in
    (
      move row.extract_id row.domain (p.year_month (now s))
          (insert "manifest.json" (manifest m) (files_of (staged row.extract_id s.store)))
          (write_manifest row.extract_id m s.store),
      rw moved,
    )

-- The status that the lists of a run call for.
abbrev pub final_status : List FileInfo → List String → ExtractStatus
final_status [] failed = ExtractStatus.failed
final_status (f ∷ fs) [] = ExtractStatus.completed
final_status (f ∷ fs) (g ∷ gs) = ExtractStatus.partial

abbrev EndsWith : String → ExtractStatus → Result (Unit {0}) × Service → Type 0
EndsWith id status (r, s) = (r ≡ ok tt) × (status_of id s ≡ some status)

-- What a finalization answers, by the files and whether the expiry is in the calendar.
abbrev pub final_answer : List FileInfo → Bool → Result (Unit {0})
final_answer [] fits = ok tt
final_answer (f ∷ fs) true = ok tt
final_answer (f ∷ fs) false = err ExtractError.overflow

-- The status of the row afterwards: without an expiry it stays.
abbrev pub status_after :
    List FileInfo → List String → Bool → Option ExtractStatus → Option ExtractStatus
status_after [] failed fits before = some (final_status [] failed)
status_after (f ∷ fs) failed true before = some (final_status (f ∷ fs) failed)
status_after (f ∷ fs) failed false before = before

pub status_after_fits :
    (files : List FileInfo) (failed : List String) (before : Option ExtractStatus)
    → status_after files failed true before ≡ some (final_status files failed)
status_after_fits [] failed before = refl
status_after_fits (f ∷ fs) failed before = refl

module _ (p : Platform) (cfg : Settings) (id run_id : String) (started : ℕ) (s : Service)
    {row : ExtractRow} (present : get_extract id s.storage ≡ some row) where
  completed_status :
      (f : FileInfo) (fs : List FileInfo)
      → has_expiry cfg row (now s) ≡ true
      → EndsWith id ExtractStatus.completed (finalize_completed p cfg row run_id f fs started s)
  unfolding finalize_completed
  completed_status f fs fits =
      let (store, published) = publish_files-storage p cfg row run_id (f ∷ fs) s in
      rw (fits, published)
        (refl, rw storage-emit_ready (status-update (now s) id _ s.storage present))

  partial_status :
      (funds : PartialResult) (files : List FileInfo) (retries : ℕ)
      → has_expiry cfg row (now s) ≡ true
      → EndsWith id ExtractStatus.partial
          (finalize_partial p cfg row run_id funds files started retries s)
  unfolding finalize_partial
  partial_status funds files retries fits =
      let (store, published) = publish_files-storage p cfg row run_id files s in
      rw (fits, published)
        (refl, rw storage-emit_failed (status-update (now s) id _ s.storage present))

  failed_status :
      (funds : PartialResult) (code : ErrorCode) (m : String) (retries : ℕ)
      → status_of id (finalize_failed p row funds code m retries s) ≡ some ExtractStatus.failed
  unfolding finalize_failed
  failed_status funds code m retries =
      rw storage-emit_failed (status-update (now s) id _ s.storage present)

  abbrev EndsBy : List FileInfo → List String → Bool → Result (Unit {0}) × Service → Type 0
  EndsBy files failed fits (r, s') =
      (r ≡ final_answer files fits)
      × (status_of id s' ≡ status_after files failed fits (status_of id s))

  finalize_by_status :
      (files : List FileInfo) (failed : List String) (t : Tally) (fits : Bool)
      → has_expiry cfg row (now s) ≡ fits
      → EndsBy files failed fits (finalize_by files failed p cfg row run_id started t s)
  unfolding finalize_by finalize_completed finalize_partial
  finalize_by_status [] failed t fits e = (refl, failed_status _ _ _ _)
  finalize_by_status (f ∷ fs) [] t true e = completed_status f fs e
  finalize_by_status (f ∷ fs) (g ∷ gs) t true e = partial_status _ (f ∷ fs) t.attempts e
  finalize_by_status (f ∷ fs) [] t false e = rw e (refl, refl)
  finalize_by_status (f ∷ fs) (g ∷ gs) t false e = rw e (refl, refl)

-- How a finalization of an extract that is in the database ends. With files, when the retention of
-- the request leads out of the calendar, it raises an OverflowError and the row keeps its status.
-- Otherwise it raises nothing, and the row gets the status that the lists of the run call for,
-- FAILED without files, PARTIAL with files and failed funds, and COMPLETED else, whatever status
-- it had, CANCELLED included.
pub finalize_status :
    (p : Platform) (cfg : Settings) (id run_id : String) (started : ℕ) (t : Tally) (s : Service)
    {row : ExtractRow}
    → get_extract id s.storage ≡ some row
    → let fits = has_expiry cfg row (now s) in
      ((finalize p cfg id run_id started t s).0 ≡ final_answer t.files fits)
      × (status_of id (finalize p cfg id run_id started t s).1
          ≡ status_after t.files t.funds_failed fits (status_of id s))
unfolding finalize
finalize_status p cfg id run_id started t s {row} present =
    let ends =
      finalize_by_status p cfg id run_id started s present t.files t.funds_failed t
        (has_expiry cfg row (now s)) refl in
    let same : finalize_row (get_extract id s.storage) p cfg run_id started t s
        ≡ finalize_by t.files t.funds_failed p cfg row run_id started t s =
      rw present refl in
    (ap (λ x. x.0) same ∙ ends.0, ap (λ x. status_of id x.1) same ∙ ends.1)
