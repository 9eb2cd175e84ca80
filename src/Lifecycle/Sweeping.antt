-- ===== src/Lifecycle/Sweeping.antt =====
-- The retention sweeper moves extracts along the diagram.

use text.Mathlib.TextPositions.{eq_refl}
use data_nexus.Prelude.{
  ℕ, String, Bool, true, false, ◌&&◌, ◌||◌, ◌≡◌, refl, ◌⊎◌, inl, inr, Option, some, List, [], ◌∷◌,
  map, filter, find, contains, ◌==◌, string_eq, arith, Bool-cases,
}
use data_nexus.Prelude.Lists.{All}
use data_nexus.Config.{Settings}
use data_nexus.Models.Enums.{ExtractStatus, status_eq}
use data_nexus.Platform.{Platform}
use data_nexus.Storage.Rows.{ExtractRow}
use data_nexus.Storage.Extracts.{find_expired, find_expiring, get_extract}
use data_nexus.Service.{Service, now, on_store}
use data_nexus.ObjectStore.Files.{delete_published}
use data_nexus.Worker.Notify.{publish_event}
use data_nexus.Worker.Outcome.{status_of}
use data_nexus.Webhooks.Rounds.{expired_by}
use data_nexus.Webhooks.Sweeper.{expire, for_each, run_once, warn, warn_window}
use data_nexus.Lifecycle.Diagram.{◌⟶◌, ◌⟶*◌, one}
use data_nexus.Lifecycle.Board.{
  Behaves, Distinct, Held, Waiting, Saves-rule, Moved, Moved-trans, Moved-refl, Saves, Saves-Same,
  Saves-update, Sound, Sound-Same, Sound-Saves, Sound-update,
}

Moved-warn :
    (p : Platform) (held : List String) (row : ExtractRow) (s : Service)
    → Sound held s
    → Moved held s (warn p row s)
unfolding warn publish_event
Moved-warn p held row s v =
    Moved-trans held s _ (warn p row s) (Sound-Same held s _ (refl, refl) v)
      (Sound-update _ row.extract_id _ _ held refl)

Moved-warn_rows :
    (p : Platform) (held : List String) (rows : List ExtractRow) (s : Service)
    → Sound held s
    → Moved held s (for_each (warn p) rows s)
unfolding for_each
Moved-warn_rows p held [] s v = Moved-refl held s v
Moved-warn_rows p held (r ∷ rows) s v =
    Moved-trans held s (warn p r s) (for_each (warn p) rows (warn p r s)) (Moved-warn p held r s v)
      (Moved-warn_rows p held rows (warn p r s))

-- A row that a query returned is the one that its identifier finds.
found_later :
    (x : ExtractRow) (rows l : List ExtractRow)
    → contains x.extract_id (map (λ (r : ExtractRow). r.extract_id) l) ≡ false
    → All (λ r. find (λ y. y.extract_id == r.extract_id) rows ≡ some r) l
    → All (λ r. find (λ y. y.extract_id == r.extract_id) (x ∷ rows) ≡ some r) l
found_later x rows [] fresh h = tt
found_later x rows (r ∷ l) fresh h = (
  let other : (x.extract_id == r.extract_id) ≡ false = ground arith in rw other h.0,
  found_later x rows l (ground arith) h.1,
)

every_found :
    (rows : List ExtractRow)
    → Distinct (map (λ (r : ExtractRow). r.extract_id) rows)
    → All (λ r. find (λ y. y.extract_id == r.extract_id) rows ≡ some r) rows
every_found [] h = tt
every_found (x ∷ rows) h =
    (rw (eq_refl x.extract_id) refl, found_later x rows rows h.0 (every_found rows h.1))

-- An extract that may expire, or has.
abbrev Leaving : Option ExtractStatus → Type 0
Leaving o =
    (o ≡ some ExtractStatus.completed)
    ⊎ (o ≡ some ExtractStatus.partial)
    ⊎ (o ≡ some ExtractStatus.expired)

expiring_by :
    (st : ExtractStatus) (due : Bool)
    → ((st == ExtractStatus.completed || st == ExtractStatus.partial) && due) ≡ true
    → Leaving (some st)
expiring_by ExtractStatus.completed due h = inl refl
expiring_by ExtractStatus.partial due h = inr (inl refl)
expiring_by ExtractStatus.expired due h = inr (inr refl)
expiring_by _ due h = absurd cc

expired_rows :
    (t : ℕ) (rows : List ExtractRow) (s : Service)
    → All (λ r. get_extract r.extract_id s.storage ≡ some r) rows
    → All (λ r. Leaving (status_of r.extract_id s)) (filter (expired_by t) rows)
expired_rows t [] s h = tt
expired_rows t (r ∷ rows) s h = elim (Bool-cases (expired_by t r)) [
  | inl due ↦ rw due (rw h.0 (expiring_by r.status _ due), expired_rows t rows s h.1)
  | inr kept ↦ rw kept (expired_rows t rows s h.1)
]

Saves-expire :
    (row : ExtractRow) (s : Service) → Saves row.extract_id ExtractStatus.expired s (expire row s)
unfolding expire
Saves-expire row s =
    Saves-Same row.extract_id ExtractStatus.expired s
      (on_store (delete_published row.extract_id row.domain) s) _ _ (refl, refl)
      (Saves-update _ row.extract_id _ _ refl) (refl, refl)

expires : (o : Option ExtractStatus) → Leaving o → o ⟶* some ExtractStatus.expired
expires o (inl completed) = rw completed (one ◌⟶◌.expire_completed)
expires o (inr (inl partly)) = rw partly (one ◌⟶◌.expire_partial)
expires o (inr (inr expired)) = rw expired ◌⟶*◌.here

expirable_status : (o : Option ExtractStatus) → Leaving o → (st : ExtractStatus) × (o ≡ some st)
expirable_status o (inl h) = (ExtractStatus.completed, h)
expirable_status o (inr (inl h)) = (ExtractStatus.partial, h)
expirable_status o (inr (inr h)) = (ExtractStatus.expired, h)

not_Waiting : (o : Option ExtractStatus) → Leaving o → Waiting o → ⊥
not_Waiting o h w = ground arith

not_Held : (o : Option ExtractStatus) → Leaving o → Held o → ⊥
not_Held o h w = ground arith

module _ (held : List String) (x : ExtractRow) (s : Service)
    (h : Leaving (status_of x.extract_id s)) where
  Moved-expire : Sound held s → Moved held s (expire x s)
  Moved-expire v =
      let (st, old) = expirable_status (status_of x.extract_id s) h in
      Sound-Saves x.extract_id s (expire x s) (Saves-expire x s) old held
        (λ listed. absurd (not_Waiting _ h (v.waiting x.extract_id listed)))
        (λ taken. absurd (not_Held _ h (v.running x.extract_id taken))) (rw (← old) (expires _ h)) v

  Leaving-expire :
      (rows : List ExtractRow)
      → All (λ r. Leaving (status_of r.extract_id s)) rows
      → All (λ r. Leaving (status_of r.extract_id (expire x s))) rows
  Leaving-expire [] l = tt
  Leaving-expire (r ∷ rows) l =
      let (st, old) = expirable_status (status_of x.extract_id s) h in
      (
        Saves-rule x.extract_id s (expire x s) (Saves-expire x s) old Leaving r.extract_id
            (inr (inr refl)) l.0,
        Leaving-expire rows l.1,
      )

Moved-expire_rows :
    (held : List String) (rows : List ExtractRow) (s : Service)
    → All (λ r. Leaving (status_of r.extract_id s)) rows
    → Sound held s
    → Moved held s (for_each expire rows s)
unfolding for_each
Moved-expire_rows held [] s l v = Moved-refl held s v
Moved-expire_rows held (r ∷ rows) s l v =
    Moved-trans held s (expire r s) (for_each expire rows (expire r s))
      (Moved-expire held r s l.0 v)
      (Moved-expire_rows held rows (expire r s) (Leaving-expire held r s l.0 rows l.1))

-- A round of the sweeper behaves.
pub Behaves-run_once :
    (p : Platform) (cfg : Settings) (held : List String) → Behaves held (run_once p cfg)
unfolding run_once find_expired get_extract
Behaves-run_once p cfg held s v =
    let s₁ = for_each (warn p) (find_expiring (now s) warn_window s.storage) s in
    let late = find_expired (now s₁) s₁.storage in
    let s₂ = for_each expire late s₁ in
    let swept =
      Moved-trans held s s₁ s₂
        (Moved-warn_rows p held (find_expiring (now s) warn_window s.storage) s v)
        (λ w.
          Moved-expire_rows held late s₁
            (expired_rows (now s₁) s₁.storage.extracts s₁
              (every_found s₁.storage.extracts w.unique))
            w) in
    Moved-trans held s s₂ (run_once p cfg s) swept (Sound-Same held s₂ _ (refl, refl))
