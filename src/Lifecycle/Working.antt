-- ===== src/Lifecycle/Working.antt =====
-- The worker moves its extract along the diagram, whatever the other tasks do while it waits.
use mathlib.Core.Path.{subst}
use data_nexus.Prelude.{
  ℕ, String, true, false, ◌≡◌, refl, sym, inl, inr, Option, none, some, List, [], ◌∷◌, length,
  contains, ◌==◌, string_eq, eq_iff, arith, Bool-cases, Option-cases,
}
use data_nexus.Prelude.Lists.{All}
use data_nexus.Config.{Settings}
use data_nexus.Models.Enums.{ExtractStatus, status_eq}
use data_nexus.Platform.{Platform}
use data_nexus.Storage.Rows.{ExtractRow, FileInfo}
use data_nexus.Storage.Extracts.{get_extract}
use data_nexus.Storage.Lookup.{get_extract-key}
use data_nexus.Service.{Job, Schedule, Service, now, on_worker}
use data_nexus.Worker.Funds.{LoopEnd, Run, Tally, funds_loop, no_tally, save_progress, write_fund}
use data_nexus.Worker.Loops.{AllKeep, keep-funds_loop}
use data_nexus.Worker.Outcome.{final_status, status_of}
use data_nexus.Worker.Process.{
  end_loop, finalize, finalize_by, fund_scope_of, process, make_run_id, process_row, run_extract,
  run_job, run_next, run_of, start_run,
}
use data_nexus.Lifecycle.Diagram.{◌⟶◌, ◌⟶*◌, IsEnd, one}
use data_nexus.Lifecycle.Board.{
  Behaves, Follows, Follows-trans, Held, Same, Saves, Sound, Sound-Same, Sound-update, Sound-Saves,
  Waiting, jobs, status_of-Saves,
}
use data_nexus.Lifecycle.Running.{Saves-finalize_by, Saves-finalize_cancelled, Saves-start_run}

-- A run takes an extract that waits no more, and gives it back.
Sound-hold :
    (id : String) (held : List String) (s : Service)
    → status_of id s ≡ some ExtractStatus.running
    → contains id (jobs s) ≡ false
    → Sound held s
    → Sound (id ∷ held) s
Sound-hold id held s started gone v = record {
  waiting = v.waiting;
  running = λ j h. elim (Bool-cases (j == id)) [
    | inl same ↦ rw ((eq_iff j id).0 same) (inl started)
    | inr other ↦ v.running j (rw other at h)
  ];
  apart = λ j h. elim (Bool-cases (j == id)) [
    | inl same ↦ rw ((eq_iff j id).0 same) gone
    | inr other ↦ v.apart j (rw other at h)
  ];
  distinct = v.distinct;
  unique = v.unique;
}

Sound-release :
    (id : String) (held : List String) (s : Service) → Sound (id ∷ held) s → Sound held s
Sound-release id held s v = record {
  waiting = v.waiting;
  running = λ j h. v.running j (ground arith);
  apart = λ j h. v.apart j (ground arith);
  distinct = v.distinct;
  unique = v.unique;
}

final_status-IsEnd :
    (files : List FileInfo) (failed : List String) → IsEnd (final_status files failed)
final_status-IsEnd [] failed = IsEnd.failed_end
final_status-IsEnd (f ∷ fs) [] = IsEnd.completed_end
final_status-IsEnd (f ∷ fs) (g ∷ gs) = IsEnd.partial_end

found_row :
    (id : String) (s : Service) {st : ExtractStatus}
    → status_of id s ≡ some st
    → (row : ExtractRow) × (get_extract id s.storage ≡ some row) × (row.status ≡ st)
found_row id s {st} h = elim (Option-cases (get_extract id s.storage)) [
  | inl lost ↦ let gone : none ≡ some st = rw lost at h in absurd cc
  | inr (row, found) ↦ let own : some row.status ≡ some st = rw found at h in (row, found, cc)
]

busy_row :
    (id : String) (s : Service)
    → Held (status_of id s)
    → (row : ExtractRow) × (get_extract id s.storage ≡ some row)
busy_row id s (inl runs) = let (row, found, _) = found_row id s runs in (row, found)
busy_row id s (inr ends) = let (row, found, _) = found_row id s ends in (row, found)

Same-write_fund :
    (p : Platform) (run : Run) (fund : String) (s : Service) → Same s (write_fund p run fund s).1
unfolding write_fund
Same-write_fund p run fund s = (refl, refl)

module _ (id : String) (held : List String) (free : contains id held ≡ false) where
  -- The last write of a run.
  Sound-end :
      (s s' : Service) {st : ExtractStatus}
      → Sound (id ∷ held) s
      → Saves id st s s'
      → ((o : Option ExtractStatus) → Held o → o ⟶* some st)
      → Sound held s' × Follows s s'
  Sound-end s s' v saved moves =
      let gone = v.apart id (ground (arith, eq_iff id id)) in
      let busy = v.running id (ground (arith, eq_iff id id)) in
      let released = Sound-release id held s v in
      elim busy [
        | inl runs ↦
            Sound-Saves id s s' saved runs held (λ h. absurd cc) (λ h. absurd cc)
              (moves _ (inl refl)) released
        | inr ends ↦
            Sound-Saves id s s' saved ends held (λ h. absurd cc) (λ h. absurd cc)
              (moves _ (inr refl)) released
      ]

  Moves-end :
      (files : List FileInfo) (failed : List String) (o : Option ExtractStatus)
      → Held o
      → o ⟶* some (final_status files failed)
  Moves-end files failed o (inl runs) = rw runs (one (◌⟶◌.finish (final_status-IsEnd files failed)))
  Moves-end files failed o (inr ends) =
      rw ends (one (◌⟶◌.overrule (final_status-IsEnd files failed)))

  Moves-cancelled : (o : Option ExtractStatus) → Held o → o ⟶* some ExtractStatus.cancelled
  Moves-cancelled o (inl runs) = rw runs (one ◌⟶◌.cancel)
  Moves-cancelled o (inr ends) = rw ends ◌⟶*◌.here

  Sound-end_loop :
      (e : LoopEnd) (p : Platform) (cfg : Settings) (run_id : String) (started : ℕ) (s : Service)
      → Sound (id ∷ held) s
      → let s' = (end_loop e p cfg id run_id started s).1 in Sound held s' × Follows s s'
  unfolding end_loop finalize
  Sound-end_loop LoopEnd.cancelled p cfg run_id started s v =
      Sound-end s _ v (Saves-finalize_cancelled id s) Moves-cancelled
  Sound-end_loop (LoopEnd.finished t) p cfg run_id started s v =
      let (row, found) = busy_row id s (v.running id (ground (arith, eq_iff id id))) in
      let key = get_extract-key id s.storage found in
      let last = (finalize_by t.files t.funds_failed p cfg row run_id started t s).1 in
      rw found (elim (Saves-finalize_by p cfg row run_id started t s t.files t.funds_failed) [
        | inl wrote ↦
            let saved =
              subst (λ j. Saves j (final_status t.files t.funds_failed) s last) key wrote in
            Sound-end s last v saved (Moves-end t.files t.funds_failed)
        | inr raised ↦
            subst (λ x. Sound held x × Follows s x) (sym raised)
              (Sound-release id held s v, λ j. ◌⟶*◌.here)
      ])

  abbrev Kept : Service → Service → Type 0
  Kept s x = Sound (id ∷ held) x × Follows s x

  Kept-step :
      (s x y : Service)
      → Kept s x
      → (Sound (id ∷ held) x → Sound (id ∷ held) y × Follows x y)
      → Kept s y
  Kept-step s x y (v, moved) step = let (w, more) = step v in (w, Follows-trans s x y moved more)

  Kept-others : (s : Service) (fs : Schedule) → All (Behaves (id ∷ held)) fs → AllKeep (Kept s) fs
  Kept-others s [] others = tt
  Kept-others s (f ∷ fs) others =
      (λ x h. Kept-step s x (f x) h (others.0 x), Kept-others s fs others.1)

  Sound-save_progress :
      (j fund : String) (total : ℕ) (t : Tally) (s : Service)
      → Sound (id ∷ held) s
      → Kept s (save_progress j fund total t s)
  unfolding save_progress
  Sound-save_progress j fund total t s = Sound-update _ j _ s (id ∷ held) refl

  -- The loop over the funds, while other tasks behave.
  Sound-funds_loop :
      (p : Platform) (cfg : Settings) (run : Run) (total : ℕ) (funds : List String) (t : Tally)
      (fs : Schedule) (s : Service)
      → Sound (id ∷ held) s
      → All (Behaves (id ∷ held)) fs
      → let s' = (funds_loop p cfg run total funds t fs s).1 in Sound (id ∷ held) s' × Follows s s'
  Sound-funds_loop p cfg run total funds t fs s v others =
      keep-funds_loop p run (λ x. Sound (id ∷ held) x × Follows s x)
        (λ fund x h. Kept-step s x _ h (Sound-Same (id ∷ held) x _ (Same-write_fund p run fund x)))
        (λ fund total u x h. Kept-step s x _ h (Sound-save_progress run.extract_id fund total u x))
        cfg total funds t fs s (v, λ j. ◌⟶*◌.here) (Kept-others s fs others)

  abbrev KeptBy : Service → Service → Type 0
  KeptBy s x = Sound held x × Follows s x

  -- A run of an extract that was accepted.
  Sound-run_extract :
      (p : Platform) (cfg : Settings) (fs : Schedule) (row : ExtractRow) (s : Service)
      → row.extract_id ≡ id
      → status_of id s ≡ some ExtractStatus.accepted
      → contains id (jobs s) ≡ false
      → All (Behaves (id ∷ held)) fs
      → Sound held s
      → let s' = (run_extract p cfg fs row s).1 in Sound held s' × Follows s s'
  unfolding run_extract
  Sound-run_extract p cfg fs row s key accepted gone others v =
      let saved =
        subst (λ j. Saves j ExtractStatus.running s (start_run p row s)) key
          (Saves-start_run p row s) in
      let s₁ = start_run p row s in
      let (v₁, started) =
        Sound-Saves id s s₁ saved accepted held (λ h. absurd cc) (λ h. absurd cc) (one ◌⟶◌.start)
          v in
      let running = status_of-Saves id s s₁ saved accepted in
      let scope = fund_scope_of row.request.fund_scope in
      let gone₁ : contains id (jobs s₁) ≡ false = rw saved.queue gone in
      let loop = funds_loop p cfg (run_of row) (length scope) scope no_tally fs s₁ in
      let (v₂, looped) =
        Sound-funds_loop p cfg (run_of row) (length scope) scope no_tally fs s₁
          (Sound-hold id held s₁ running gone₁ v₁) others in
      let run_id = make_run_id p (now s) row.extract_id in
      let last = (end_loop loop.0 p cfg id run_id (now s) loop.1).1 in
      let (v₃, ended) = Sound-end_loop loop.0 p cfg run_id (now s) loop.1 v₂ in
      let moved = Follows-trans s s₁ last started (Follows-trans s₁ loop.1 last looped ended) in
      subst (λ j. KeptBy s (end_loop loop.0 p cfg j run_id (now s) loop.1).1) (sym key) (v₃, moved)

  -- `_process` of an extract whose job was taken from the queue.
  Sound-process :
      (p : Platform) (cfg : Settings) (fs : Schedule) (s : Service)
      → Waiting (status_of id s)
      → contains id (jobs s) ≡ false
      → All (Behaves (id ∷ held)) fs
      → Sound held s
      → let s' = (process p cfg fs id s).1 in Sound held s' × Follows s s'
  unfolding process process_row
  Sound-process p cfg fs s (inl accepted) gone others v =
      let (row, found, status) = found_row id s accepted in
      let key = get_extract-key id s.storage found in
      rw (found, status) (Sound-run_extract p cfg fs row s key accepted gone others v)
  Sound-process p cfg fs s (inr cancelled) gone others v =
      let (row, found, status) = found_row id s cancelled in rw (found, status) (v, λ j. ◌⟶*◌.here)

-- The service once the head of the queue is taken.
abbrev popped : List Job → Service → Service
popped q s = on_worker (λ w. record w { queue = q }) s

Sound-popped :
    (held : List String) (j : Job) (q : List Job) (s : Service)
    → s.worker.queue ≡ j ∷ q
    → Sound held s
    → Sound held (popped q s)
Sound-popped held j q s queue v = record {
  waiting = λ id h. v.waiting id (rw queue (ground arith));
  running = v.running;
  apart = λ id h. let gone = rw queue at (v.apart id h) in ground arith;
  distinct = (rw queue at v.distinct).1;
  unique = v.unique;
}

Sound-run_job :
    (p : Platform) (cfg : Settings) (fs : Schedule) (held : List String) (queue : List Job)
    (s : Service)
    → s.worker.queue ≡ queue
    → ((id : String) → contains id held ≡ false → All (Behaves (id ∷ held)) fs)
    → Sound held s
    → let s' = run_job queue p cfg fs s in Sound held s' × Follows s s'
unfolding run_job
Sound-run_job p cfg fs held [] s same others v = (v, λ j. ◌⟶*◌.here)
Sound-run_job p cfg fs held (j ∷ q) s same others v =
    let id = j.extract_id in
    let listed : contains id (jobs s) ≡ true = rw same (ground (arith, eq_iff id id)) in
    let free : contains id held ≡ false = elim (Bool-cases (contains id held)) [
      | inl taken ↦ let gone = v.apart id taken in absurd cc
      | inr free ↦ free
    ] in
    let d = rw same at v.distinct in
    Sound-process id held free p cfg fs (popped q s) (v.waiting id listed) d.0 (others id free)
      (Sound-popped held j q s same v)

-- A round of the worker, while other tasks behave, behaves.
pub Behaves-run_next :
    (p : Platform) (cfg : Settings) (fs : Schedule) (held : List String)
    → ((id : String) → contains id held ≡ false → All (Behaves (id ∷ held)) fs)
    → Behaves held (run_next p cfg fs)
unfolding run_next
Behaves-run_next p cfg fs held others s v =
    Sound-run_job p cfg fs held s.worker.queue s refl others v
