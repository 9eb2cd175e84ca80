-- ===== src/Lifecycle/Refinement.antt =====
-- The service as a whole: its tasks in any order and nesting, against the diagram.
use data_nexus.Prelude.{arith, ◌≤◌, String, ◌≡◌, refl, ◌⊎◌, inl, inr, Option, some, List, [], ◌∷◌}
use data_nexus.Prelude.Lists.{All}
use data_nexus.Config.{Settings}
use data_nexus.Models.Enums.{ExtractStatus}
use data_nexus.Models.Request.{CreateExtractRequest}
use data_nexus.Platform.{Platform}
use data_nexus.Auth.Principals.{Principal}
use data_nexus.Service.{Schedule, Service}
use data_nexus.Api.Cancel.{cancel}
use data_nexus.Api.Create.{create}
use data_nexus.Webhooks.Sweeper.{run_once}
use data_nexus.Storage.Extracts.{get_extract}
use data_nexus.Worker.Outcome.{status_of}
use data_nexus.Worker.Process.{run_next}
use data_nexus.Lifecycle.Diagram.{◌⟶◌, ◌⟶*◌, IsEnd, rank, ⟶*-rank}
use data_nexus.Lifecycle.Board.{Behaves, Moved-trans, Same, Sound, Sound-Same}
use data_nexus.Lifecycle.Handlers.{Behaves-cancel, Behaves-create}
use data_nexus.Lifecycle.Sweeping.{Behaves-run_once}
use data_nexus.Lifecycle.Working.{Behaves-run_next}

-- What runs on the event loop: the handlers that write, the sweeper, rounds of the worker during
-- which other tasks run at every wait, what leaves the extracts and the queue alone, and any of
-- these one after the other. A round of another worker falls within one wait.
mutual
  pub data Task : (Service → Service) → Type 0 where
    quiet : (f : Service → Service) → ((s : Service) → Same s (f s)) → Task f
    request :
        (p : Platform) (cfg : Settings) (suffix : String) (who : Principal)
        (r : CreateExtractRequest)
        → Task (λ s. (create p cfg suffix who r s).1)
    withdraw :
        (cfg : Settings) (who : Principal) (id : String) → Task (λ s. (cancel cfg who id s).1)
    sweep : (p : Platform) (cfg : Settings) → Task (run_once p cfg)
    work : (p : Platform) (cfg : Settings) (fs : Schedule) → Tasks fs → Task (run_next p cfg fs)
    both : (f g : Service → Service) → Task f → Task g → Task (λ s. g (f s))

  pub data Tasks : Schedule → Type 0 where
    done : Tasks []
    more : (f : Service → Service) (fs : Schedule) → Task f → Tasks fs → Tasks (f ∷ fs)

mutual
  Task-Behaves : (f : Service → Service) → Task f → (held : List String) → Behaves held f
  Task-Behaves f (Task.quiet _ same) held = λ s v. Sound-Same held s (f s) (same s) v
  Task-Behaves f (Task.request p cfg suffix who r) held = Behaves-create p cfg suffix who r held
  Task-Behaves f (Task.withdraw cfg who id) held = Behaves-cancel cfg who id held
  Task-Behaves f (Task.sweep p cfg) held = Behaves-run_once p cfg held
  Task-Behaves f (Task.work p cfg fs others) held =
      Behaves-run_next p cfg fs held (λ id free. Tasks-Behave fs others (id ∷ held))
  Task-Behaves f (Task.both g h first second) held = λ s v.
      Moved-trans held s (g s) (h (g s)) (Task-Behaves g first held s v)
        (Task-Behaves h second held (g s))

  Tasks-Behave : (fs : Schedule) → Tasks fs → (held : List String) → All (Behaves held) fs
  Tasks-Behave fs Tasks.done held = tt
  Tasks-Behave fs (Tasks.more f rest first others) held =
      (Task-Behaves f first held, Tasks-Behave rest others held)

-- The service refines the diagram: whatever tasks run, in whatever order and at whichever waits of
-- the worker, every extract moves along the diagram, and afterwards again a queued job is there
-- once and its extract waits.
pub task_refines :
    (f : Service → Service)
    → Task f
    → (s : Service) → Sound [] s
    → Sound [] (f s) × ((id : String) → status_of id s ⟶* status_of id (f s))
task_refines f task s v = Task-Behaves f task [] s v

-- The status of an ended extract, or what it becomes when the retention period is over.
abbrev pub Lasting : ExtractStatus → Option ExtractStatus → Type 0
Lasting st o = (o ≡ some st) ⊎ (o ≡ some ExtractStatus.expired)

⟶-Lasting :
    {st : ExtractStatus} {a b : Option ExtractStatus}
    → IsEnd st
    → a ⟶ b
    → Lasting st a
    → Lasting st b
⟶-Lasting k ◌⟶◌.expire_completed h = inr refl
⟶-Lasting k ◌⟶◌.expire_partial h = inr refl
⟶-Lasting IsEnd.completed_end _ h = absurd (ground arith)
⟶-Lasting IsEnd.partial_end _ h = absurd (ground arith)
⟶-Lasting IsEnd.failed_end _ h = absurd (ground arith)

⟶*-Lasting :
    {st : ExtractStatus} {a b : Option ExtractStatus}
    → IsEnd st
    → a ⟶* b
    → Lasting st a
    → Lasting st b
⟶*-Lasting k ◌⟶*◌.here h = h
⟶*-Lasting k (◌⟶*◌.then e rest) h = ⟶*-Lasting k rest (⟶-Lasting k e h)

-- An extract that is COMPLETED, PARTIAL or FAILED stays so whatever tasks run, until it is
-- EXPIRED: no late cancellation and no second run changes how it ended.
pub task_keeps_ends :
    (f : Service → Service)
    → Task f
    → (s : Service) → Sound [] s
    → (id : String) {st : ExtractStatus} → IsEnd st
    → status_of id s ≡ some st
    → Lasting st (status_of id (f s))
task_keeps_ends f task s v id k ended = ⟶*-Lasting k ((task_refines f task s v).1 id) (inl ended)

-- Whatever tasks run, no extract comes back to an earlier stage of the diagram.
pub task_never_back :
    (f : Service → Service)
    → Task f
    → (s : Service) → Sound [] s
    → (id : String) → rank (status_of id s) ≤ rank (status_of id (f s))
task_never_back f task s v id = ⟶*-rank ((task_refines f task s v).1 id)

-- The service starts sound, with no extract and no job.
pub start-Sound : (s : Service) → s.storage.extracts ≡ [] → s.worker.queue ≡ [] → Sound [] s
unfolding get_extract
start-Sound s no_rows no_jobs = record {
  waiting = λ id h. absurd (let none_left = rw no_jobs at h in cc);
  running = λ id h. absurd cc;
  apart = λ id h. absurd cc;
  distinct = rw no_jobs tt;
  unique = rw no_rows tt;
}
