-- ===== src/Webhooks/Retention.antt =====
-- What a round of `RetentionSweeper.run_once` leaves.
use mathlib.Core.Option
use mathlib.Core.Path.{subst}
use data_nexus.Prelude.{
  ◌⊎◌, ◌/◌, String, true, false, ◌≡◌, refl, sym, ap, ◌∙◌, some, List, [], ◌∷◌, filter, map, ℕ,
  get_or, any, ◌==◌, string_eq, arith, Bool-cases, inl, inr,
}
use data_nexus.Config.{Settings}
use data_nexus.Models.Enums.{ExtractStatus, status_eq}
use data_nexus.Platform.{Platform}
use data_nexus.Storage.Rows.{ExtractRow}
use data_nexus.Storage.Extracts.{
  Changes, apply_changes, find_expired, find_expiring, get_extract, no_changes, update_extract,
}
use data_nexus.Storage.Lookup.{get_extract-update}
use data_nexus.Service.{Service, now}
use data_nexus.Worker.Notify.{publish_event}
use data_nexus.Models.Events.{Event}
use data_nexus.EventBus.Log.{EventBus, Message, prune_expired, publish}
use data_nexus.ObjectStore.Files.{ObjectStore, delete_published}
use data_nexus.Webhooks.Rounds.{
  Covers, Covers-filter, Covers-for_each, Updates, any-filter-for_each, expired_by, expiring_soon,
  filter-Covers, get_extract-for_each, map-filter-for_each, place, named, none-for_each,
  present-for_each, time-for_each,
}
use data_nexus.Webhooks.Sweeper.{
  expire, expiring_event, expiring_topic, for_each, run_once, warn, warn_window,
}

warn-Updates :
    (p : Platform) → Updates (warn p) (record no_changes { expiring_event_sent = some true })
unfolding warn publish_event update_extract
warn-Updates p = record { extracts = λ x s. refl; time = λ x s. refl }

expire-Updates : Updates expire (record no_changes { status = some ExtractStatus.expired })
unfolding expire update_extract
expire-Updates = record { extracts = λ x s. refl; time = λ x s. refl }

run_once-nothing_left :
    (p : Platform) (cfg : Settings) (s : Service)
    → let s' = run_once p cfg s in
      (find_expiring (now s') warn_window s'.storage ≡ []) × (find_expired (now s') s'.storage ≡ [])
unfolding run_once find_expiring find_expired apply_changes
run_once-nothing_left p cfg s =
    let todo = filter (expiring_soon (now s)) s.storage.extracts in
    let s₁ = for_each (warn p) todo s in
    let late = filter (expired_by (now s₁)) s₁.storage.extracts in
    let s₂ = for_each expire late s₁ in
    let t₁ : now s₁ ≡ now s =
      ap (λ t. t / 1000000) (time-for_each (warn p) _ (warn-Updates p) todo s) in
    let t₂ : now s₂ ≡ now s₁ =
      ap (λ t. t / 1000000) (time-for_each expire _ expire-Updates late s₁) in
    let warned : Covers (expiring_soon (now s)) [] s₁.storage.extracts =
      Covers-for_each (warn p) _ (warn-Updates p) (expiring_soon (now s)) (λ t r. ground arith) todo
        s (Covers-filter _ s.storage.extracts) in
    (
      subst (λ t. filter (expiring_soon t) s₂.storage.extracts ≡ []) (sym (t₂ ∙ t₁))
          (filter-Covers _ s₂.storage.extracts (
            none-for_each expire _ expire-Updates (expiring_soon (now s)) (λ t r. ground arith) late
              s₁ warned)),
      subst (λ t. filter (expired_by t) s₂.storage.extracts ≡ []) (sym t₂)
          (filter-Covers _ s₂.storage.extracts (
            Covers-for_each expire _ expire-Updates (expired_by (now s₁)) (λ t r. ground arith) late
              s₁ (Covers-filter _ s₁.storage.extracts))),
    )

-- The store without the published files of some extracts.
abbrev pub without_each : List (String × String) → ObjectStore → ObjectStore
without_each [] store = store
without_each ((id, domain) ∷ places) store = without_each places (delete_published id domain store)

-- The bus after some events were published at an instant.
abbrev pub with_each : ℕ → List (Message Event) → EventBus Event → EventBus Event
with_each t [] b = b
with_each t (m ∷ messages) b = with_each t messages (publish t m b)

-- The warning of a row.
abbrev pub warning : Platform → ℕ → ExtractRow → Message Event
warning p t row = record {
  topic = expiring_topic row.domain;
  event = expiring_event p t row (get_or row.expires_at 0);
  partition_key = row.extract_id;
}

for_each-warn :
    (p : Platform) (todo : List ExtractRow) (s : Service)
    → let s' = for_each (warn p) todo s in
      (s'.store ≡ s.store) × (s'.bus ≡ with_each (now s) (map (warning p (now s)) todo) s.bus)
unfolding for_each warn publish_event
for_each-warn p [] s = (refl, refl)
for_each-warn p (x ∷ todo) s = for_each-warn p todo (warn p x s)

for_each-expire :
    (todo : List ExtractRow) (s : Service)
    → let s' = for_each expire todo s in
      (s'.store ≡ without_each (map place todo) s.store) × (s'.bus ≡ s.bus)
unfolding for_each expire
for_each-expire [] s = (refl, refl)
for_each-expire (x ∷ todo) s = for_each-expire todo (expire x s)

-- A round of the sweeper publishes one warning for each COMPLETED row that expires within a day and
-- was not warned of, and nothing else, before it prunes the bus; it deletes the published files
-- of each COMPLETED or PARTIAL row that has expired, and no others; and afterwards, at the same
-- time, no row is left to warn of and none to expire.
pub run_once_settles :
    (p : Platform) (cfg : Settings) (s : Service)
    → let t = now s in
      let s' = run_once p cfg s in
      (s'.bus
        ≡ prune_expired cfg t
            (with_each t (map (warning p t) (find_expiring t warn_window s.storage)) s.bus))
      × (s'.store ≡ without_each (map place (find_expired t s.storage)) s.store)
      × (find_expiring (now s') warn_window s'.storage ≡ [])
      × (find_expired (now s') s'.storage ≡ [])
unfolding run_once find_expired find_expiring
run_once_settles p cfg s =
    let todo = filter (expiring_soon (now s)) s.storage.extracts in
    let s₁ = for_each (warn p) todo s in
    let late = filter (expired_by (now s₁)) s₁.storage.extracts in
    let s₂ = for_each expire late s₁ in
    let t₁ : now s₁ ≡ now s =
      ap (λ t. t / 1000000) (time-for_each (warn p) _ (warn-Updates p) todo s) in
    let t₂ : now s₂ ≡ now s₁ =
      ap (λ t. t / 1000000) (time-for_each expire _ expire-Updates late s₁) in
    let places : map place late ≡ map place (filter (expired_by (now s)) s.storage.extracts) =
      ap (λ t. map place (filter (expired_by t) s₁.storage.extracts)) t₁
      ∙ map-filter-for_each (warn p) _ (warn-Updates p) (expired_by (now s))
          (λ t r. unfold apply_changes in refl) todo s in
    let (store₁, bus₁) = for_each-warn p todo s in
    let (store₂, bus₂) = for_each-expire late s₁ in
    let (none_expiring, none_late) = run_once-nothing_left p cfg s in
    (
      ap (λ t. prune_expired cfg t s₂.bus) (t₂ ∙ t₁) ∙ ap (prune_expired cfg (now s)) (bus₂ ∙ bus₁),
      store₂
          ∙ ap (λ l. without_each l s₁.store) places
          ∙ ap (without_each (map place (filter (expired_by (now s)) s.storage.extracts))) store₁,
      none_expiring,
      none_late,
    )

-- An extract that is neither to be warned of nor expired is left as it is by a round.
pub run_once_others :
    (p : Platform) (cfg : Settings) (id : String) (s : Service)
    → any (λ r. r.extract_id == id) (find_expiring (now s) warn_window s.storage) ≡ false
    → any (λ r. r.extract_id == id) (find_expired (now s) s.storage) ≡ false
    → get_extract id (run_once p cfg s).storage ≡ get_extract id s.storage
unfolding run_once find_expiring find_expired
run_once_others p cfg id s not_warned not_expired =
    let todo = find_expiring (now s) warn_window s.storage in
    let s₁ = for_each (warn p) todo s in
    let t₁ : now s₁ ≡ now s =
      ap (λ t. t / 1000000) (time-for_each (warn p) _ (warn-Updates p) todo s) in
    let not_late : any (named id) (find_expired (now s₁) s₁.storage) ≡ false =
      ap (λ t. any (named id) (find_expired t s₁.storage)) t₁
      ∙ any-filter-for_each (warn p) _ (warn-Updates p) (expired_by (now s))
          (λ t r. unfold apply_changes in refl) id todo s
      ∙ not_expired in
    get_extract-for_each expire _ expire-Updates id (find_expired (now s₁) s₁.storage) s₁ not_late
    ∙ get_extract-for_each (warn p) _ (warn-Updates p) id todo s not_warned

expired-for_each :
    (id : String) (todo : List ExtractRow) (s : Service) {row : ExtractRow}
    → get_extract id s.storage ≡ some row
    → ((any (named id) todo ≡ true) ⊎ (row.status ≡ ExtractStatus.expired))
    → Option.map (λ r. r.status) (get_extract id (for_each expire todo s).storage)
      ≡ some ExtractStatus.expired
unfolding for_each expire
expired-for_each id [] s found (inl listed) = cc
expired-for_each id [] s found (inr done) = rw (found, done) refl
expired-for_each id (x ∷ todo) s {row} found h =
    let c : Changes = record no_changes { status = some ExtractStatus.expired } in
    let kept = get_extract-update (now s) x.extract_id id c s.storage in
    elim (Bool-cases (x.extract_id == id)) [
      | inl same ↦
          expired-for_each id todo (expire x s) {row = apply_changes (now s) c row}
            ((rw (same, found) at kept)) (inr (unfold apply_changes in refl))
      | inr other ↦
          expired-for_each id todo (expire x s) ((rw (other, found) at kept))
            (elim h [ inl listed ↦ inl (ground arith) | inr done ↦ inr done ])
    ]

-- An extract that is due for expiry has status EXPIRED after a round.
pub run_once_expires :
    (p : Platform) (cfg : Settings) (id : String) (s : Service) {row : ExtractRow}
    → get_extract id s.storage ≡ some row
    → any (λ r. r.extract_id == id) (find_expired (now s) s.storage) ≡ true
    → Option.map (λ r. r.status) (get_extract id (run_once p cfg s).storage)
      ≡ some ExtractStatus.expired
unfolding run_once find_expiring find_expired
run_once_expires p cfg id s found listed =
    let todo = find_expiring (now s) warn_window s.storage in
    let s₁ = for_each (warn p) todo s in
    let t₁ : now s₁ ≡ now s =
      ap (λ t. t / 1000000) (time-for_each (warn p) _ (warn-Updates p) todo s) in
    let late : any (named id) (find_expired (now s₁) s₁.storage) ≡ true =
      ap (λ t. any (named id) (find_expired t s₁.storage)) t₁
      ∙ any-filter-for_each (warn p) _ (warn-Updates p) (expired_by (now s))
          (λ t r. unfold apply_changes in refl) id todo s
      ∙ listed in
    let (row', found') = present-for_each (warn p) _ (warn-Updates p) id todo s found in
    expired-for_each id (find_expired (now s₁) s₁.storage) s₁ {row = row'} found' (inl late)
