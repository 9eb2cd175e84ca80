-- ===== src/Lifecycle/Board.antt =====
-- What holds of the extracts and the queue while tasks run, and what a task may do to the statuses.
use mathlib.Core.Option
use mathlib.Core.Path.{subst}
use text.Mathlib.TextPositions.{eq_refl}
use data_nexus.Prelude.{
  ℕ, String, Bool, true, false, ◌≡◌, refl, ap, ◌∙◌, ◌⊎◌, inl, inr, Option, none, some, List, [],
  ◌∷◌, map, contains, ◌==◌, string_eq, eq_iff, arith, Bool-cases, get_or, find, if◌then◌else◌,
}
use data_nexus.Models.Enums.{ExtractStatus}
use data_nexus.Storage.Rows.{ExtractRow}
use data_nexus.Storage.Extracts.{Changes, apply_changes, get_extract, update_extract, update_rows}
use data_nexus.Storage.Lookup.{get_extract-update}
use data_nexus.Service.{Job, Service, on_storage}
use data_nexus.Worker.Outcome.{status_of}
use data_nexus.Lifecycle.Diagram.{◌⟶*◌, ⟶*-trans}

-- No text stands twice in a list.
abbrev pub Distinct : List String → Type 0
Distinct [] = Unit
Distinct (x ∷ l) = (contains x l ≡ false) × Distinct l

abbrev pub jobs : Service → List String
jobs s = map (λ (j : Job). j.extract_id) s.worker.queue

abbrev pub ids : Service → List String
ids s = map (λ (r : ExtractRow). r.extract_id) s.storage.extracts

-- A status that a queued job may find, and one that a running extract may have.
abbrev pub Waiting : Option ExtractStatus → Type 0
Waiting o = (o ≡ some ExtractStatus.accepted) ⊎ (o ≡ some ExtractStatus.cancelled)

abbrev pub Held : Option ExtractStatus → Type 0
Held o = (o ≡ some ExtractStatus.running) ⊎ (o ≡ some ExtractStatus.cancelled)

-- While the extracts of `held` are being run: a queued job is there once, its extract waits and is
-- not being run, and no two rows have the same identifier.
pub record Sound (held : List String) (s : Service) : Type 0 where
  pub waiting : (id : String) → contains id (jobs s) ≡ true → Waiting (status_of id s)
  pub running : (id : String) → contains id held ≡ true → Held (status_of id s)
  pub apart : (id : String) → contains id held ≡ true → contains id (jobs s) ≡ false
  pub distinct : Distinct (jobs s)
  pub unique : Distinct (ids s)

-- Every extract moves along the diagram.
abbrev pub Follows : Service → Service → Type 0
Follows s s' = (id : String) → status_of id s ⟶* status_of id s'

-- What a task may do while the extracts of `held` are being run.
abbrev pub Behaves : List String → (Service → Service) → Type 0
Behaves held f = (s : Service) → Sound held s → Sound held (f s) × Follows s (f s)

-- The same rows and the same queue.
abbrev pub Same : Service → Service → Type 0
Same s s' = (s'.storage.extracts ≡ s.storage.extracts) × (s'.worker.queue ≡ s.worker.queue)

pub status_of-rows :
    (id : String) (s s' : Service)
    → s'.storage.extracts ≡ s.storage.extracts
    → status_of id s' ≡ status_of id s
unfolding get_extract
status_of-rows id s s' same =
    ap (λ rows. Option.map (λ r. r.status) (find (λ r. r.extract_id == id) rows)) same

-- What keeps every status, the queue and the identifiers keeps the invariant.
Sound-statuses :
    (held : List String) (s s' : Service)
    → ((id : String) → status_of id s' ≡ status_of id s)
    → s'.worker.queue ≡ s.worker.queue
    → ids s' ≡ ids s
    → Sound held s
    → Sound held s' × Follows s s'
Sound-statuses held s s' same queue rows v = (
  record {
    waiting = λ id h. rw (same id) (v.waiting id (rw queue at h));
    running = λ id h. rw (same id) (v.running id h);
    apart = λ id h. rw queue (v.apart id h);
    distinct = rw queue v.distinct;
    unique = rw rows v.unique;
  },
  λ id. rw (same id) ◌⟶*◌.here,
)

pub Sound-Same :
    (held : List String) (s s' : Service) → Same s s' → Sound held s → Sound held s' × Follows s s'
Sound-Same held s s' (rows, queue) =
    Sound-statuses held s s' (λ id. status_of-rows id s s' rows) queue
      (ap (map (λ (r : ExtractRow). r.extract_id)) rows)

pub Follows-trans : (a b c : Service) → Follows a b → Follows b c → Follows a c
Follows-trans a b c f g id = ⟶*-trans (f id) (g id)

ids-update_rows :
    (id : String) (t : ℕ) (c : Changes) (rows : List ExtractRow)
    → map (λ (r : ExtractRow). r.extract_id) (update_rows id (apply_changes t c) rows)
      ≡ map (λ (r : ExtractRow). r.extract_id) rows
unfolding update_rows apply_changes
ids-update_rows id t c [] = refl
ids-update_rows id t c (r ∷ rows) = ground (arith, ids-update_rows id t c rows)

status-changed :
    (b : Bool) (t : ℕ) (c : Changes) (o : Option ExtractRow)
    → Option.map (λ r. r.status) (if b then Option.map (apply_changes t c) o else o) ≡ (
        if b
        then Option.map (λ st. get_or c.status st) (Option.map (λ r. r.status) o)
        else Option.map (λ r. r.status) o)
unfolding apply_changes
status-changed true t c none = refl
status-changed true t c (some row) = refl
status-changed false t c o = refl

same_status : (b : Bool) (o : Option ExtractStatus) → (if b then Option.map (λ st. st) o else o) ≡ o
same_status true none = refl
same_status true (some st) = refl
same_status false o = refl

module _ (t : ℕ) (id : String) (c : Changes) (s s' : Service)
    (rows : s'.storage.extracts ≡ update_rows id (apply_changes t c) s.storage.extracts) where
  -- The statuses after the update of one row.
  status_of-write :
      (j : String)
      → status_of j s'
        ≡ (if id == j then Option.map (λ st. get_or c.status st) (status_of j s) else status_of j s)
  unfolding get_extract update_extract
  status_of-write j =
      ap (λ l. Option.map (λ r. r.status) (find (λ r. r.extract_id == j) l)) rows
      ∙ (ap (Option.map (λ r. r.status)) (get_extract-update t id j c s.storage)
          ∙ status-changed (id == j) t c (get_extract j s.storage))

  -- An update of other columns keeps every status.
  pub Sound-columns :
      (held : List String)
      → s'.worker.queue ≡ s.worker.queue
      → c.status ≡ none
      → Sound held s
      → Sound held s' × Follows s s'
  Sound-columns held queue quiet =
      Sound-statuses held s s'
        (λ j. status_of-write j ∙ rw quiet (same_status (id == j) (status_of j s))) queue
        (rw rows (ids-update_rows id t c s.storage.extracts))

  module _ {a b : ExtractStatus} (old : status_of id s ≡ some a) (new : get_or c.status a ≡ b) where
    status_of-own : status_of id s' ≡ some b
    status_of-own = status_of-write id ∙ rw (eq_refl id, old, new) refl

    -- What held of the status of every extract holds after the update, if it holds of the new status.
    status_of-rule :
        (P : Option ExtractStatus → Type 0) (j : String)
        → ((id ≡ j) → P (some b))
        → P (status_of j s)
        → P (status_of j s')
    status_of-rule P j own other = elim (Bool-cases (id == j)) [
      | inl same ↦
          let e = (eq_iff id j).0 same in
          subst (λ k. P (status_of k s')) e (rw status_of-own (own e))
      | inr differs ↦ rw (status_of-write j, differs) other
    ]

    -- The update of a row that no job and no run may miss keeps the invariant.
    pub Sound-write :
        (held : List String)
        → s'.worker.queue ≡ s.worker.queue
        → (contains id (jobs s) ≡ true → Waiting (some b))
        → (contains id held ≡ true → Held (some b))
        → some a ⟶* some b
        → Sound held s
        → Sound held s' × Follows s s'
    Sound-write held queue waits holds move v = (
      record {
        waiting = λ j h.
            let h' = rw queue at h in
            status_of-rule Waiting j (λ e. waits (rw e h')) (v.waiting j h');
        running = λ j h. status_of-rule Held j (λ e. holds (rw e h)) (v.running j h);
        apart = λ j h. rw queue (v.apart j h);
        distinct = rw queue v.distinct;
        unique = rw (rows, ids-update_rows id t c s.storage.extracts) v.unique;
      },
      λ j. elim (Bool-cases (id == j)) [
        | inl same ↦
            let e = (eq_iff id j).0 same in
            subst (λ k. status_of k s ⟶* status_of k s') e (rw (old, status_of-own) move)
        | inr differs ↦ rw (status_of-write j, differs) ◌⟶*◌.here
      ],
    )

-- One row gets a new status, and the queue stays.
pub record Saves (id : String) (st : ExtractStatus) (s s' : Service) : Type 0 where
  pub time : ℕ
  pub changes : Changes
  pub rows : s'.storage.extracts ≡ update_rows id (apply_changes time changes) s.storage.extracts
  pub status : changes.status ≡ some st
  pub queue : s'.worker.queue ≡ s.worker.queue

module _ (id : String) {a b : ExtractStatus} (s s' : Service) (v : Saves id b s s')
    (old : status_of id s ≡ some a) where
  pub status_of-Saves : status_of id s' ≡ some b
  status_of-Saves = status_of-own v.time id v.changes s s' v.rows old (rw v.status refl)

  -- What holds of the new status and held of every status holds of every status.
  pub Saves-rule :
      (P : Option ExtractStatus → Type 0) (j : String)
      → P (some b)
      → P (status_of j s)
      → P (status_of j s')
  Saves-rule P j new =
      status_of-rule v.time id v.changes s s' v.rows old (rw v.status refl) P j (λ e. new)

  pub Sound-Saves :
      (held : List String)
      → (contains id (jobs s) ≡ true → Waiting (some b))
      → (contains id held ≡ true → Held (some b))
      → some a ⟶* some b
      → Sound held s
      → Sound held s' × Follows s s'
  Sound-Saves held waits holds move sound =
      Sound-write v.time id v.changes s s' v.rows old (rw v.status refl) held v.queue waits holds
        move sound

pub Saves-update :
    (t : ℕ) (id : String) (c : Changes) (s : Service) {st : ExtractStatus}
    → c.status ≡ some st
    → Saves id st s (on_storage (update_extract t id c) s)
unfolding update_extract
Saves-update t id c s status = record {
  time = t;
  changes = c;
  rows = refl;
  status = status;
  queue = refl;
}

-- What stands around the write changes neither the rows nor the queue.
pub Saves-Same :
    (id : String) (st : ExtractStatus) (s a b s' : Service)
    → Same s a
    → Saves id st a b
    → Same b s'
    → Saves id st s s'
Saves-Same id st s a b s' (rows, queue) v (rows', queue') = record {
  time = v.time;
  changes = v.changes;
  rows = rows' ∙ rw (← rows) v.rows;
  status = v.status;
  queue = queue' ∙ (v.queue ∙ queue);
}

pub Sound-update :
    (t : ℕ) (id : String) (c : Changes) (s : Service) (held : List String)
    → c.status ≡ none
    → Sound held s
    → let s' = on_storage (update_extract t id c) s in Sound held s' × Follows s s'
unfolding update_extract
Sound-update t id c s held =
    Sound-columns t id c s (on_storage (update_extract t id c) s) refl held refl

-- What a task that behaves makes of a service.
abbrev pub Moved : List String → Service → Service → Type 0
Moved held s s' = Sound held s' × Follows s s'

pub Moved-refl : (held : List String) (s : Service) → Sound held s → Moved held s s
Moved-refl held s v = (v, λ id. ◌⟶*◌.here)

pub Moved-trans :
    (held : List String) (a b c : Service)
    → Moved held a b
    → (Sound held b → Moved held b c)
    → Moved held a c
Moved-trans held a b c (v, first) next =
    let (w, more) = next v in (w, Follows-trans a b c first more)
