-- ===== src/Worker/Priorities.antt =====
-- The order in which the worker takes its jobs.
use mathlib.Core.List.{Perm}
use mathlib.Core.List.Perm
use data_nexus.Prelude.{
  String, refl, ◌≤◌, ◌<◌, true, false, ◌≡◌, ◌⊎◌, inl, inr, List, [], ◌∷◌, All, arith, Bool-cases,
}
use data_nexus.Models.Enums.{Priority}
use data_nexus.Service.{Job, Service, now}
use data_nexus.Worker.Queue.{enqueue, job_le, priority_weight, put}

-- A job of higher priority goes first; within a priority, one that was enqueued no later.
abbrev pub Precedes : Job → Job → Type 0
Precedes a b =
    (a.priority < b.priority) ⊎ ((a.priority ≡ b.priority) × (a.enqueued_at ≤ b.enqueued_at))

abbrev pub IsOrdered : List Job → Type 0
IsOrdered [] = Unit
IsOrdered (j ∷ q) = All (Precedes j) q × IsOrdered q

job_le-Precedes : (a b : Job) → job_le a b ≡ true → Precedes a b
unfolding job_le
job_le-Precedes a b h = ground arith

job_gt-Precedes : (a b : Job) → job_le a b ≡ false → Precedes b a
unfolding job_le
job_gt-Precedes a b h = ground arith

Precedes-trans : (a b c : Job) → Precedes a b → Precedes b c → Precedes a c
Precedes-trans a b c h k = ground arith

Precedes-All : (a b : Job) (q : List Job) → Precedes a b → All (Precedes b) q → All (Precedes a) q
Precedes-All a b [] h k = tt
Precedes-All a b (c ∷ q) h k = (Precedes-trans a b c h k.0, Precedes-All a b q h k.1)

All-put : (P : Job → Type 0) (j : Job) (q : List Job) → P j → All P q → All P (put j q)
unfolding put
All-put P j [] pj h = (pj, tt)
All-put P j (k ∷ q) pj h = elim (Bool-cases (job_le k j)) [
  | inl le ↦ rw le (h.0, All-put P j q pj h.1)
  | inr gt ↦ rw gt (pj, h)
]

put-IsOrdered : (j : Job) (q : List Job) → IsOrdered q → IsOrdered (put j q)
unfolding put
put-IsOrdered j [] h = (tt, tt)
put-IsOrdered j (k ∷ q) h = elim (Bool-cases (job_le k j)) [
  | inl le ↦ rw le (All-put (Precedes k) j q (job_le-Precedes k j le) h.0, put-IsOrdered j q h.1)
  | inr gt ↦ let first = job_gt-Precedes k j gt in rw gt ((first, Precedes-All j k q first h.0), h)
]

pub put-perm : (j : Job) (q : List Job) → Perm (put j q) (j ∷ q)
unfolding put
put-perm j [] = Perm.refl (j ∷ [])
put-perm j (k ∷ q) = elim (Bool-cases (job_le k j)) [
  | inl le ↦ rw le (Perm.trans (Perm.cons k (put-perm j q)) (Perm.swap j k q))
  | inr gt ↦ rw gt (Perm.refl (j ∷ k ∷ q))
]

-- Putting a job keeps the queue in the order of priority and then of time, and the queue holds
-- the old jobs and the new one, each once.
pub put_in_order :
    (j : Job) (q : List Job) → IsOrdered q → IsOrdered (put j q) × Perm (put j q) (j ∷ q)
put_in_order j q h = (put-IsOrdered j q h, put-perm j q)

-- The job that `enqueue` makes of a request.
abbrev pub job_for : String → Priority → Service → Job
job_for id priority s = record {
  priority = priority_weight priority;
  enqueued_at = now s;
  extract_id = id;
}

-- Taking a request in keeps the queue in the order of priority, HIGH before NORMAL before LOW, and
-- of time within a priority; the queue then has the jobs that it had and one for the request,
-- each once, and the extracts, the files and the events are as they were.
pub enqueue_in_order :
    (id : String) (priority : Priority) (s : Service)
    → IsOrdered s.worker.queue
    → let s' = enqueue id priority s in
      IsOrdered s'.worker.queue
      × Perm s'.worker.queue (job_for id priority s ∷ s.worker.queue)
      × (priority_weight Priority.high < priority_weight Priority.normal)
      × (priority_weight Priority.normal < priority_weight Priority.low)
      × (s'.storage ≡ s.storage)
      × (s'.store ≡ s.store)
      × (s'.bus ≡ s.bus)
unfolding enqueue priority_weight
enqueue_in_order id priority s h =
    let (ordered, same) = put_in_order (job_for id priority s) s.worker.queue h in
    (ordered, same, omega arith, omega arith, refl, refl, refl)
