-- ===== src/Lifecycle/Reads.antt =====
-- The handlers that only read, and a download, leave the extracts and the queue alone.
use data_nexus.Prelude.{
  String, arith, refl, ◌∙◌, inl, inr, Option, none, some, List, [], ◌∷◌, contains, string_eq,
  Bool-cases,
}
use data_nexus.Config.{Settings}
use data_nexus.Exec.{Result}
use data_nexus.Models.Enums.{ExtractStatus}
use data_nexus.Platform.{Platform}
use data_nexus.Storage.Rows.{ExtractRow, FileInfo}
use data_nexus.Storage.Apps.{audit, entitled_funds, prune_rl_events, record_rl_event}
use data_nexus.Storage.Extracts.{get_extract}
use data_nexus.Auth.Limiter.{check_presign, check_request}
use data_nexus.Auth.Principals.{Principal}
use data_nexus.ObjectStore.Files.{Content}
use data_nexus.Service.{Service}
use data_nexus.Api.Cancel.{owned}
use data_nexus.Api.Cap.{Result-cases}
use data_nexus.Api.Create.{with_storage}
use data_nexus.Api.Downloads.{Answered, download_file-Answered}
use data_nexus.Api.Files.{
  Origin, check_available, download_file, files_in, issue_entry, list_entries, list_files,
  list_owned, list_row,
}
use data_nexus.Api.Status.{get_extract_status, outcome_in, status_of_row}
use data_nexus.Lifecycle.Board.{Same}
use data_nexus.Lifecycle.Handlers.{Same-checked, checked}

Same-trans : (a b c : Service) → Same a b → Same b c → Same a c
Same-trans a b c (rows, queue) (rows', queue') = (rows' ∙ rows, queue' ∙ queue)

Same-status_of_row : (row : Option ExtractRow) (s : Service) → Same s (status_of_row row s).1
unfolding status_of_row
Same-status_of_row none s = (refl, refl)
Same-status_of_row (some row) s = (refl, refl)

pub Same-get_extract_status :
    (cfg : Settings) (who : Principal) (id : String) (s : Service)
    → Same s (get_extract_status cfg who id s).1
unfolding get_extract_status with_storage
Same-get_extract_status cfg who id s =
    let s₁ = checked cfg who.app_id s in
    elim (Result-cases (check_request cfg s.time who.app_id s.storage).0) [
      | inr (e, limited) ↦ rw limited (Same-checked cfg who.app_id s)
      | inl (h, allowed) ↦ rw allowed (
          Same-trans s s₁ (status_of_row (owned who.app_id (get_extract id s₁.storage)) s₁).1
            (Same-checked cfg who.app_id s)
            (Same-status_of_row (owned who.app_id (get_extract id s₁.storage)) s₁))
    ]

Same-Answered :
    (p : Platform) (cfg : Settings) (id filename token : String) (s : Service)
    {x : Result Content × Service}
    → Answered p cfg id filename token s x
    → Same s x.1
unfolding audit
Same-Answered p cfg id filename token s (Answered.served row app c a b d) = (refl, refl)
Same-Answered p cfg id filename token s (Answered.refused e h) = (refl, refl)

pub Same-download_file :
    (p : Platform) (cfg : Settings) (id filename token : String) (s : Service)
    → Same s (download_file p cfg id filename token s).1
Same-download_file p cfg id filename token s =
    Same-Answered p cfg id filename token s (download_file-Answered p cfg id filename token s)

Same-check_available : (st : ExtractStatus) (s : Service) → Same s (check_available st s).1
unfolding check_available
Same-check_available ExtractStatus.completed s = (refl, refl)
Same-check_available ExtractStatus.partial s = (refl, refl)
Same-check_available ExtractStatus.expired s = (refl, refl)
Same-check_available ExtractStatus.accepted s = (refl, refl)
Same-check_available ExtractStatus.running s = (refl, refl)
Same-check_available ExtractStatus.failed s = (refl, refl)
Same-check_available ExtractStatus.cancelled s = (refl, refl)

module _ (p : Platform) (cfg : Settings) (at : Origin) (app id : String) (row : ExtractRow) where
  Same-check_presign :
      (s : Service) → Same s (record s { storage = (check_presign cfg s.time app s.storage).1 })
  unfolding check_presign prune_rl_events record_rl_event
  Same-check_presign s = (ground arith, refl)

  Same-issue_entry : (f : FileInfo) (s : Service) → Same s (issue_entry p cfg at app id row f s).1
  unfolding issue_entry with_storage
  Same-issue_entry f s = elim (Result-cases (check_presign cfg s.time app s.storage).0) [
    | inr (e, limited) ↦ rw limited (Same-check_presign s)
    | inl (u, allowed) ↦ rw allowed (Same-check_presign s)
  ]

  Same-list_entries :
      (entitled : List String) (files : List FileInfo) (s : Service)
      → Same s (list_entries p cfg at app id row entitled files s).1
  unfolding list_entries
  Same-list_entries entitled [] s = (refl, refl)
  Same-list_entries entitled (f ∷ files) s = elim (Bool-cases (contains f.partition_key entitled)) [
    | inr lacked ↦ rw lacked (Same-list_entries entitled files s)
    | inl held ↦
        let s₁ = (issue_entry p cfg at app id row f s).1 in
        let s₂ = (list_entries p cfg at app id row entitled files s₁).1 in
        let both =
          Same-trans s s₁ s₂ (Same-issue_entry f s) (Same-list_entries entitled files s₁) in
        elim (Result-cases (issue_entry p cfg at app id row f s).0) [
          | inr (e, limited) ↦ rw (held, limited) (Same-issue_entry f s)
          | inl (entry, issued) ↦
              elim (Result-cases (list_entries p cfg at app id row entitled files s₁).0) [
                | inr (e, limited) ↦ rw (held, issued, limited) both
                | inl (entries, listed) ↦ rw (held, issued, listed) both
              ]
        ]
  ]

  -- The answer once the entries are listed.
  Same-list_row : (s : Service) → Same s (list_row p cfg at app id row s).1
  unfolding list_row with_storage audit
  Same-list_row s = elim (Result-cases (check_available row.status s).0) [
    | inr (e, closed) ↦ rw closed (Same-check_available row.status s)
    | inl (u, available) ↦
        let s₀ = (check_available row.status s).1 in
        let files = files_in (outcome_in row.state) in
        let entitled = entitled_funds app s₀.storage in
        let s₁ = (list_entries p cfg at app id row entitled files s₀).1 in
        let listed =
          Same-trans s s₀ s₁ (Same-check_available row.status s)
            (Same-list_entries entitled files s₀) in
        elim (Result-cases (list_entries p cfg at app id row entitled files s₀).0) [
          | inr (e, limited) ↦ rw (available, limited) listed
          | inl (entries, done) ↦
              let s₂ = record s₁ { storage = (check_presign cfg s₁.time app s₁.storage).1 } in
              let signed = Same-trans s s₁ s₂ listed (Same-check_presign s₁) in
              elim (Result-cases (check_presign cfg s₁.time app s₁.storage).0) [
                | inr (e, limited) ↦ rw (available, done, limited) signed
                | inl (v, allowed) ↦ rw (available, done, allowed) signed
              ]
        ]
  ]

Same-list_owned :
    (p : Platform) (cfg : Settings) (at : Origin) (app id : String) (row : Option ExtractRow)
    (s : Service)
    → Same s (list_owned p cfg at app id row s).1
unfolding list_owned
Same-list_owned p cfg at app id none s = (refl, refl)
Same-list_owned p cfg at app id (some row) s = Same-list_row p cfg at app id row s

pub Same-list_files :
    (p : Platform) (cfg : Settings) (at : Origin) (who : Principal) (id : String) (s : Service)
    → Same s (list_files p cfg at who id s).1
unfolding list_files with_storage
Same-list_files p cfg at who id s =
    let s₁ = checked cfg who.app_id s in
    let row = owned who.app_id (get_extract id s₁.storage) in
    elim (Result-cases (check_request cfg s.time who.app_id s.storage).0) [
      | inr (e, limited) ↦ rw limited (Same-checked cfg who.app_id s)
      | inl (h, allowed) ↦ rw allowed (
          Same-trans s s₁ (list_owned p cfg at who.app_id id row s₁).1
            (Same-checked cfg who.app_id s) (Same-list_owned p cfg at who.app_id id row s₁))
    ]
