-- ===== src/Worker/Accounts.antt =====
-- What the loop over the fund scope leaves in its lists.
use mathlib.Core.List.{append_assoc, append-nil, map-append}
use mathlib.Core.Path.{subst}
use data_nexus.Prelude.{
  ℕ, zero, suc, ◌+◌, ◌≤◌, String, ◌≡◌, refl, sym, ap, ◌∙◌, ◌⊎◌, inl, inr, Option, none, some, List,
  [], ◌∷◌, ◌++◌, map, contains, string_eq, leb, arith, if_rule, leb→le, Bool-cases, Option-cases,
}
use data_nexus.Config.{Settings}
use data_nexus.Platform.{Platform}
use data_nexus.Storage.Rows.{FileInfo}
use data_nexus.ObjectStore.Files.{write_partition}
use data_nexus.Service.{Schedule, Service}
use data_nexus.Worker.Funds.{
  FundResult, LoopEnd, Run, Tally, add_result, fund_from, funds_loop, save_progress, sleep,
  attempt_fails, write_fund,
}

module _ (p : Platform) (run : Run) where
  -- A fund that is extracted yields the file of its own partition.
  fund_from-key :
      (left attempts : ℕ) (fund : String) (fs : Schedule) (s : Service) {f : FileInfo}
      → (fund_from p run left attempts fund fs s).file ≡ some f
      → f.partition_key ≡ fund
  unfolding fund_from write_fund write_partition
  fund_from-key zero attempts fund fs s h = cc
  fund_from-key (suc left) attempts fund fs s {f} h =
      elim (Bool-cases (attempt_fails p run fund s)) [
        | inl fails ↦
            fund_from-key left (attempts + 1) fund (sleep fs s).1 (sleep fs s).0 (rw fails at h)
        | inr works ↦
            let found = rw works at h in sym (ap (λ (o : Option FileInfo). key_of fund o) found)
      ]
    where
      key_of : String → Option FileInfo → String
      key_of d none = d
      key_of d (some g) = g.partition_key

  -- The rounds of one fund: all that are allowed when it fails, and no more when it succeeds.
  pub fund_from_attempts :
      (left attempts : ℕ) (fund : String) (fs : Schedule) (s : Service)
      → let r = fund_from p run left attempts fund fs s in
        (r.attempts ≤ attempts + left) × (r.file ≡ none → r.attempts ≡ attempts + left)
  unfolding fund_from
  fund_from_attempts zero attempts fund fs s = (omega arith, λ _. omega arith)
  fund_from_attempts (suc left) attempts fund fs s =
      if_rule
        (λ (r : FundResult).
          (r.attempts ≤ attempts + suc left) × (r.file ≡ none → r.attempts ≡ attempts + suc left))
        (attempt_fails p run fund s)
        (λ _.
          let rest = fund_from_attempts left (attempts + 1) fund (sleep fs s).1 (sleep fs s).0 in
          (omega (arith, rest.0), λ e. omega (arith, rest.1 e)))
        (λ _. (omega arith, λ e. cc))

-- The second list and the third are what a list was split into, each in its order.
pub data Merge : List String → List String → List String → Type 0 where
  nil : Merge [] [] []
  left : {x : String} {l xs ys : List String} → Merge l xs ys → Merge (x ∷ l) (x ∷ xs) ys
  right : {y : String} {l xs ys : List String} → Merge l xs ys → Merge (y ∷ l) xs (y ∷ ys)

abbrev pub keys : List FileInfo → List String
keys = map (λ f. f.partition_key)

-- How the loop over `funds` took the lists from `t` to `t'`: it handled a beginning of the funds,
-- and put each into one list; the files are those of the completed funds, in their order.
pub record Handled (cfg : Settings) (funds : List String) (t t' : Tally) : Type 0 where
  pub handled : List String
  pub rest : List String
  pub completed : List String
  pub failed : List String
  pub split : handled ++ rest ≡ funds
  pub merge : Merge handled completed failed
  pub funds_completed : t'.funds_completed ≡ t.funds_completed ++ completed
  pub funds_failed : t'.funds_failed ≡ t.funds_failed ++ failed
  pub files : keys t'.files ≡ keys t.files ++ completed
  pub stopped : (rest ≡ []) ⊎ (cfg.worker_max_attempts_per_extract ≤ t'.attempts)

module _ (cfg : Settings) (fund : String) (r : FundResult) (t : Tally) where
  Handled-stop :
      (funds : List String)
      → r.file ≡ none
      → cfg.worker_max_attempts_per_extract ≤ (add_result fund r t).attempts
      → Handled cfg (fund ∷ funds) t (add_result fund r t)
  unfolding add_result
  Handled-stop funds e h = record {
    handled = fund ∷ [];
    rest = funds;
    completed = [];
    failed = fund ∷ [];
    split = refl;
    merge = Merge.right Merge.nil;
    funds_completed = rw e (sym (append-nil t.funds_completed));
    funds_failed = rw e;
    files = rw e (sym (append-nil (keys t.files)));
    stopped = inr h;
  }

  Handled-failed :
      (funds : List String) (t' : Tally)
      → r.file ≡ none
      → Handled cfg funds (add_result fund r t) t'
      → Handled cfg (fund ∷ funds) t t'
  unfolding add_result
  Handled-failed funds t' e v = record {
    handled = fund ∷ v.handled;
    rest = v.rest;
    completed = v.completed;
    failed = fund ∷ v.failed;
    split = ap (◌∷◌ fund) v.split;
    merge = Merge.right v.merge;
    funds_completed = rw e at v.funds_completed;
    funds_failed = (rw e at v.funds_failed) ∙ append_assoc t.funds_failed (fund ∷ []) v.failed;
    files = rw e at v.files;
    stopped = v.stopped;
  }

  Handled-completed :
      (funds : List String) (t' : Tally) (f : FileInfo)
      → r.file ≡ some f
      → f.partition_key ≡ fund
      → Handled cfg funds (add_result fund r t) t'
      → Handled cfg (fund ∷ funds) t t'
  unfolding add_result
  Handled-completed funds t' f e k v = record {
    handled = fund ∷ v.handled;
    rest = v.rest;
    completed = fund ∷ v.completed;
    failed = v.failed;
    split = ap (◌∷◌ fund) v.split;
    merge = Merge.left v.merge;
    funds_completed =
        (rw e at v.funds_completed) ∙ append_assoc t.funds_completed (fund ∷ []) v.completed;
    funds_failed = rw e at v.funds_failed;
    files =
        (rw e at v.files)
        ∙ ap (λ l. l ++ v.completed)
            (map-append (λ (g : FileInfo). g.partition_key) t.files (f ∷ []))
        ∙ append_assoc (keys t.files) (f.partition_key ∷ []) v.completed
        ∙ ap (λ x. keys t.files ++ x ∷ v.completed) k;
    stopped = v.stopped;
  }

Handled-none : (cfg : Settings) (t : Tally) → Handled cfg [] t t
Handled-none cfg t = record {
  handled = [];
  rest = [];
  completed = [];
  failed = [];
  split = refl;
  merge = Merge.nil;
  funds_completed = sym (append-nil t.funds_completed);
  funds_failed = sym (append-nil t.funds_failed);
  files = sym (append-nil (keys t.files));
  stopped = inl refl;
}

module _ (p : Platform) (cfg : Settings) (run : Run) (total : ℕ) where
  abbrev next_fund : String → Schedule → Service → FundResult
  next_fund = fund_from p run cfg.worker_max_attempts_per_fund 0

  -- A loop that was not cancelled has handled a beginning of the funds, and put each into one of its
  -- lists, in their order; its files are those of the completed funds. It handled all of the funds
  -- unless the attempts of the extract were used up.
  pub funds_loop-Handled :
      (funds : List String) (t : Tally) (fs : Schedule) (s : Service) {t' : Tally}
      → (funds_loop p cfg run total funds t fs s).0 ≡ LoopEnd.finished t'
      → Handled cfg funds t t'
  unfolding funds_loop add_result fund_from
  funds_loop-Handled [] t fs s {t'} h =
      let same : t ≡ t' = cc in subst (Handled cfg [] t) same (Handled-none cfg t)
  funds_loop-Handled (fund ∷ funds) t fs s {t'} h =
      let r = next_fund fund fs s in
      let u = add_result fund r t in
      let later =
        funds_loop-Handled funds u r.rest (save_progress run.extract_id fund total u r.service) in
      elim (Bool-cases (contains run.extract_id s.worker.cancellations)) [
        | inl c ↦ let no_end = rw c at h in cc
        | inr go ↦
            let h' = rw go at h in
            elim (Option-cases r.file) [
              | inl e ↦ elim (Bool-cases (leb cfg.worker_max_attempts_per_extract u.attempts)) [
                | inl full ↦
                    let done = rw (e, full) at h' in
                    let same : u ≡ t' = cc in
                    subst (Handled cfg (fund ∷ funds) t) same
                      (Handled-stop cfg fund r t funds e (leb→le _ _ full))
                | inr more ↦ Handled-failed cfg fund r t funds t' e (later (rw (e, more) at h'))
              ]
              | inr (f, e) ↦
                  Handled-completed cfg fund r t funds t' f e
                    (fund_from-key p run cfg.worker_max_attempts_per_fund 0 fund fs s e)
                    (later (rw e at h'))
            ]
      ]
