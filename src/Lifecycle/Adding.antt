-- ===== src/Lifecycle/Adding.antt =====
-- A new extract and its job keep what holds of the extracts and the queue.
use mathlib.Core.Option
use text.Mathlib.TextPositions.{eq_refl}
use data_nexus.Prelude.{
  String, Bool, true, false, ◌||◌, ◌≡◌, refl, sym, ap, ◌∙◌, ◌⊎◌, inl, inr, Option, none, some, List,
  [], ◌∷◌, ◌++◌, map, any, find, contains, ◌==◌, string_eq, eq_iff, arith, Bool-cases, Option-cases,
  if◌then◌else◌,
}
use data_nexus.Models.Enums.{ExtractStatus}
use data_nexus.Storage.Rows.{ExtractRow}
use data_nexus.Storage.Extracts.{get_extract}
use data_nexus.Service.{Job, Service}
use data_nexus.Worker.Queue.{job_le, put}
use data_nexus.Worker.Outcome.{status_of}
use data_nexus.Lifecycle.Diagram.{◌⟶◌, ◌⟶*◌, one}
use data_nexus.Lifecycle.Board.{Distinct, Follows, Held, Sound, Waiting, jobs}

abbrev keys : List Job → List String
keys q = map (λ (j : Job). j.extract_id) q

abbrev names : List ExtractRow → List String
names rows = map (λ (r : ExtractRow). r.extract_id) rows

contains-put :
    (id : String) (j : Job) (q : List Job)
    → contains id (keys (put j q)) ≡ (id == j.extract_id || contains id (keys q))
unfolding put
contains-put id j [] = refl
contains-put id j (k ∷ q) = elim (Bool-cases (job_le k j)) [
  | inl le ↦ rw le (let rest = contains-put id j q in ground arith)
  | inr gt ↦ rw gt refl
]

Distinct-put :
    (j : Job) (q : List Job)
    → contains j.extract_id (keys q) ≡ false
    → Distinct (keys q)
    → Distinct (keys (put j q))
unfolding put
Distinct-put j [] fresh h = (refl, tt)
Distinct-put j (k ∷ q) fresh h = elim (Bool-cases (job_le k j)) [
  | inl le ↦ rw le (
    contains-put k.extract_id j q
        ∙ ground (arith, eq_iff k.extract_id j.extract_id, eq_iff j.extract_id k.extract_id, h.0),
    Distinct-put j q (ground arith) h.1,
  )
  | inr gt ↦ rw gt (fresh, h)
]

contains-append :
    (id : String) (rows : List ExtractRow) (x : ExtractRow)
    → contains id (names (rows ++ x ∷ [])) ≡ (contains id (names rows) || id == x.extract_id)
contains-append id [] x = ground arith
contains-append id (r ∷ rows) x = ground (arith, contains-append id rows x)

Distinct-append :
    (rows : List ExtractRow) (x : ExtractRow)
    → any (λ r. r.extract_id == x.extract_id) rows ≡ false
    → Distinct (names rows)
    → Distinct (names (rows ++ x ∷ []))
Distinct-append [] x fresh h = (refl, tt)
Distinct-append (r ∷ rows) x fresh h = (
  contains-append r.extract_id rows x ∙ ground (arith, eq_iff r.extract_id x.extract_id, h.0),
  Distinct-append rows x (ground arith) h.1,
)

-- The status after a row is added at the end.
abbrev after : Option ExtractStatus → Bool → Option ExtractStatus
after (some st) new = some st
after none new = if new then some ExtractStatus.accepted else none

after-find :
    (id : String) (rows : List ExtractRow) (x : ExtractRow)
    → x.status ≡ ExtractStatus.accepted
    → Option.map (λ r. r.status) (find (λ r. r.extract_id == id) (rows ++ x ∷ []))
      ≡ after
          (Option.map (λ r. r.status) (find (λ r. r.extract_id == id) rows))
          (x.extract_id == id)
after-find id [] x accepted = elim (Bool-cases (x.extract_id == id)) [
  | inl same ↦ rw (same, accepted) refl
  | inr other ↦ rw other refl
]
after-find id (r ∷ rows) x accepted = elim (Bool-cases (r.extract_id == id)) [
  | inl same ↦ rw same refl
  | inr other ↦ rw other (after-find id rows x accepted)
]

absent :
    (id : String) (rows : List ExtractRow)
    → any (λ r. r.extract_id == id) rows ≡ false
    → find (λ r. r.extract_id == id) rows ≡ none
absent id [] h = refl
absent id (r ∷ rows) h = ground (arith, absent id rows)

-- A row that was accepted under a new identifier, with its job or without.
pub record Adds (s s' : Service) : Type 0 where
  pub row : ExtractRow
  pub accepted : row.status ≡ ExtractStatus.accepted
  pub fresh : any (λ r. r.extract_id == row.extract_id) s.storage.extracts ≡ false
  pub rows : s'.storage.extracts ≡ s.storage.extracts ++ row ∷ []
  pub queue :
      (s'.worker.queue ≡ s.worker.queue)
      ⊎ ((j : Job) × (j.extract_id ≡ row.extract_id) × (s'.worker.queue ≡ put j s.worker.queue))

module _ (held : List String) (s s' : Service) (v : Adds s s') where
  status_of-Adds : (id : String) → status_of id s' ≡ after (status_of id s) (v.row.extract_id == id)
  unfolding get_extract
  status_of-Adds id =
      ap (λ l. Option.map (λ r. r.status) (find (λ r. r.extract_id == id) l)) v.rows
      ∙ after-find id s.storage.extracts v.row v.accepted

  status_of-before : status_of v.row.extract_id s ≡ none
  unfolding get_extract
  status_of-before = rw (absent v.row.extract_id s.storage.extracts v.fresh) refl

  -- An extract that is there keeps its status, and so is not the new one.
  status_of-there :
      (id : String) {st : ExtractStatus}
      → status_of id s ≡ some st
      → (status_of id s' ≡ some st) × ((id == v.row.extract_id) ≡ false)
  status_of-there id {st} there = (
    status_of-Adds id ∙ rw there refl,
    elim (Bool-cases (id == v.row.extract_id)) [
      | inl same ↦
          let e : none ≡ some st =
            sym status_of-before ∙ rw (← (eq_iff id v.row.extract_id).0 same) there in
          absurd cc
      | inr other ↦ other
    ],
  )

  status_of-new : status_of v.row.extract_id s' ≡ some ExtractStatus.accepted
  status_of-new =
      status_of-Adds v.row.extract_id ∙ rw (status_of-before, eq_refl v.row.extract_id) refl

  Waiting-there :
      (id : String)
      → Waiting (status_of id s)
      → Waiting (status_of id s') × ((id == v.row.extract_id) ≡ false)
  Waiting-there id (inl accepted) =
      let (same, other) = status_of-there id accepted in (inl same, other)
  Waiting-there id (inr cancelled) =
      let (same, other) = status_of-there id cancelled in (inr same, other)

  Held-there :
      (id : String)
      → Held (status_of id s)
      → Held (status_of id s') × ((id == v.row.extract_id) ≡ false)
  Held-there id (inl runs) = let (same, other) = status_of-there id runs in (inl same, other)
  Held-there id (inr cancelled) =
      let (same, other) = status_of-there id cancelled in (inr same, other)

  Follows-Adds : Follows s s'
  Follows-Adds id = elim (Option-cases (status_of id s)) [
    | inl missing ↦ elim (Bool-cases (v.row.extract_id == id)) [
      | inl new ↦ rw (status_of-Adds id, missing, new) (one ◌⟶◌.create)
      | inr old ↦ rw (status_of-Adds id, missing, old) ◌⟶*◌.here
    ]
    | inr (st, there) ↦ rw (status_of-Adds id, there) ◌⟶*◌.here
  ]

  -- A job that is queued names the new extract or one that was queued before.
  queued :
      (id : String)
      → contains id (jobs s') ≡ true
      → (id ≡ v.row.extract_id) ⊎ (contains id (jobs s) ≡ true)
  queued id h = elim v.queue [
    | inl same ↦ inr (rw same at h)
    | inr (j, named, put_in) ↦
        let either : (id == j.extract_id || contains id (jobs s)) ≡ true =
          sym (contains-put id j s.worker.queue)
          ∙ ap (λ q. contains id (keys q)) (sym put_in)
          ∙ h in
        elim (Bool-cases (id == j.extract_id)) [
          | inl new ↦ inl ((eq_iff id j.extract_id).0 new ∙ named)
          | inr old ↦ inr (rw old at either)
        ]
  ]

  -- No job names the new extract before.
  unqueued : Sound held s → contains v.row.extract_id (jobs s) ≡ false
  unqueued sound = elim (Bool-cases (contains v.row.extract_id (jobs s))) [
    | inl listed ↦
        let other = (Waiting-there v.row.extract_id (sound.waiting v.row.extract_id listed)).1 in
        absurd (ground (arith, eq_iff v.row.extract_id v.row.extract_id))
    | inr unlisted ↦ unlisted
  ]

  Distinct-Adds : Sound held s → Distinct (jobs s')
  Distinct-Adds sound = elim v.queue [
    | inl same ↦ rw same sound.distinct
    | inr (j, named, put_in) ↦
        rw put_in (Distinct-put j s.worker.queue (rw named (unqueued sound)) sound.distinct)
  ]

  pub Sound-Adds : Sound held s → Sound held s' × Follows s s'
  Sound-Adds sound = (
    record {
      waiting = λ id h. elim (queued id h) [
        | inl new ↦ rw new (inl status_of-new)
        | inr old ↦ (Waiting-there id (sound.waiting id old)).0
      ];
      running = λ id h. (Held-there id (sound.running id h)).0;
      apart = λ id h. elim (Bool-cases (contains id (jobs s'))) [
        | inr unlisted ↦ unlisted
        | inl listed ↦ elim (queued id listed) [
          | inl new ↦
              let other = (Held-there id (sound.running id h)).1 in
              absurd (ground (arith, eq_iff id v.row.extract_id))
          | inr old ↦ let gone = sound.apart id h in absurd cc
        ]
      ];
      distinct = Distinct-Adds sound;
      unique = rw v.rows (Distinct-append s.storage.extracts v.row v.fresh sound.unique);
    },
    Follows-Adds,
  )
