-- ===== src/Lifecycle/Running.antt =====
-- The writes of the worker to the table of extracts, and the loop of `_process` among other tasks.
use data_nexus.Prelude.{
  true, false, ◌⊎◌, inl, inr, Bool-cases, ℕ, String, ◌≡◌, refl, ap, Option, none, some, List, [],
  ◌∷◌, string_eq,
}
use data_nexus.Config.{Settings}
use data_nexus.Models.Enums.{ErrorCode, ExtractStatus, NotificationMode}
use data_nexus.Models.Events.{Event, PartialResult}
use data_nexus.Models.Request.{NotificationSpec}
use data_nexus.Platform.{Platform}
use data_nexus.Storage.Rows.{ExtractRow, FileInfo}
use data_nexus.Service.{Service, now, on_store}
use data_nexus.ObjectStore.Files.{cleanup_staging}
use data_nexus.Worker.Queue.{discard}
use data_nexus.Worker.Notify.{
  emit_failed, emit_ready, publish_event, route_by, route_notification, schedule_webhook,
}
use data_nexus.Worker.Funds.{Tally}
use data_nexus.Worker.Finalize.{
  has_expiry, finalize_cancelled, finalize_completed, finalize_failed, finalize_partial,
}
use data_nexus.Worker.Outcome.{
  final_status, publish_files-storage, storage-emit_failed, storage-emit_ready,
}
use data_nexus.Worker.Process.{finalize_by, start_run}
use data_nexus.Lifecycle.Board.{Saves, Saves-Same, Saves-update}

worker-route_by :
    (mode : NotificationMode) (p : Platform) (row : ExtractRow) (topic url : Option String)
    (e : Event) (s : Service)
    → (route_by mode p row topic url e s).worker ≡ s.worker
unfolding route_by publish_event schedule_webhook
worker-route_by NotificationMode.event p row topic url e s = refl
worker-route_by NotificationMode.webhook p row topic url e s = refl
worker-route_by NotificationMode.none p row topic url e s = refl

worker-route :
    (p : Platform) (row : ExtractRow) (n : Option NotificationSpec) (e : Event) (s : Service)
    → (route_notification p row n e s).worker ≡ s.worker
unfolding route_notification
worker-route p row none e s = worker-route_by NotificationMode.event p row none none e s
worker-route p row (some n) e s = worker-route_by n.mode p row n.topic n.callback_url e s

worker-emit_ready :
    (p : Platform) (row : ExtractRow) (run_id : String) (f : FileInfo) (fs : List FileInfo)
    (d x : ℕ) (schema : String) (s : Service)
    → (emit_ready p row run_id f fs d x schema s).worker ≡ s.worker
unfolding emit_ready
worker-emit_ready p row run_id f fs d x schema s = worker-route p row row.request.notification _ s

worker-emit_failed :
    (p : Platform) (row : ExtractRow) (code : ErrorCode) (m : String) (n : ℕ) (r : PartialResult)
    (s : Service)
    → (emit_failed p row code m n r s).worker ≡ s.worker
unfolding emit_failed
worker-emit_failed p row code m n r s = worker-route p row row.request.notification _ s

pub Saves-start_run :
    (p : Platform) (row : ExtractRow) (s : Service)
    → Saves row.extract_id ExtractStatus.running s (start_run p row s)
unfolding start_run
Saves-start_run p row s = Saves-update _ row.extract_id _ s refl

pub Saves-finalize_cancelled :
    (id : String) (s : Service) → Saves id ExtractStatus.cancelled s (finalize_cancelled id s)
unfolding finalize_cancelled discard
Saves-finalize_cancelled id s =
    Saves-Same id ExtractStatus.cancelled s (on_store (cleanup_staging id) s) _ _ (refl, refl)
      (Saves-update _ id _ _ refl) (refl, refl)

module _ (p : Platform) (cfg : Settings) (row : ExtractRow) (run_id : String) (started : ℕ)
    (t : Tally) (s : Service) where
  Saves-failed :
      (failed : List String)
      → Saves row.extract_id ExtractStatus.failed s
          (finalize_by [] failed p cfg row run_id started t s).1
  unfolding finalize_by finalize_failed
  Saves-failed failed =
      Saves-Same row.extract_id ExtractStatus.failed s (on_store (cleanup_staging row.extract_id) s)
        _ _ (refl, refl) (Saves-update _ row.extract_id _ _ refl)
        (
          ap (λ st. st.extracts) (storage-emit_failed p row _ _ _ _ _),
          ap (λ w. w.queue) (worker-emit_failed p row _ _ _ _ _),
        )

  Saves-fits :
      (files : List FileInfo) (failed : List String)
      → has_expiry cfg row (now s) ≡ true
      → Saves row.extract_id
          (final_status files failed)
          s
          (finalize_by files failed p cfg row run_id started t s).1
  unfolding finalize_by finalize_failed finalize_completed finalize_partial
  Saves-fits [] failed fits = Saves-failed failed
  Saves-fits (f ∷ fs) [] fits =
      let (store, published) = publish_files-storage p cfg row run_id (f ∷ fs) s in
      rw (fits, published)
        (Saves-Same row.extract_id ExtractStatus.completed s (record s { store = store }) _ _
          (refl, refl) (Saves-update _ row.extract_id _ _ refl)
          (
            ap (λ st. st.extracts) (storage-emit_ready p row _ _ _ _ _ _ _),
            ap (λ w. w.queue) (worker-emit_ready p row _ _ _ _ _ _ _),
          ))
  Saves-fits (f ∷ fs) (g ∷ gs) fits =
      let (store, published) = publish_files-storage p cfg row run_id (f ∷ fs) s in
      rw (fits, published)
        (Saves-Same row.extract_id ExtractStatus.partial s (record s { store = store }) _ _
          (refl, refl) (Saves-update _ row.extract_id _ _ refl)
          (
            ap (λ st. st.extracts) (storage-emit_failed p row _ _ _ _ _),
            ap (λ w. w.queue) (worker-emit_failed p row _ _ _ _ _),
          ))

  -- A finalization that raises, as the expiry is out of the calendar, changes nothing.
  pub Saves-finalize_by :
      (files : List FileInfo) (failed : List String)
      → let s' = (finalize_by files failed p cfg row run_id started t s).1 in
        Saves row.extract_id (final_status files failed) s s' ⊎ (s' ≡ s)
  unfolding finalize_by finalize_completed finalize_partial
  Saves-finalize_by files failed = elim (Bool-cases (has_expiry cfg row (now s))) [
    | inl fits ↦ inl (Saves-fits files failed fits)
    | inr past ↦ raised files failed past
  ]
    where
      raised :
          (files : List FileInfo) (failed : List String)
          → has_expiry cfg row (now s) ≡ false
          → let s' = (finalize_by files failed p cfg row run_id started t s).1 in
            Saves row.extract_id (final_status files failed) s s' ⊎ (s' ≡ s)
      raised [] failed past = inl (Saves-failed failed)
      raised (f ∷ fs) [] past = inr (rw past refl)
      raised (f ∷ fs) (g ∷ gs) past = inr (rw past refl)
