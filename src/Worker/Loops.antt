-- ===== src/Worker/Loops.antt =====
-- extract_service/worker.py: what the loop over the funds keeps, when each of its steps keeps it.
use data_nexus.Prelude.{
  ℕ, zero, suc, ◌+◌, String, ◌&&◌, List, [], ◌∷◌, contains, string_eq, leb, if_rule,
}
use data_nexus.Prelude.Lists.{All}
use data_nexus.Config.{Settings}
use data_nexus.Platform.{Platform}
use data_nexus.Service.{Schedule, Service}
use data_nexus.Worker.Funds.{
  FundResult, LoopEnd, Run, Tally, add_result, fund_from, funds_loop, is_none, save_progress, sleep,
  attempt_fails, write_fund,
}

-- The other tasks keep a property of the service.
abbrev pub AllKeep : (Service → Type 0) → Schedule → Type 0
AllKeep P fs = All (λ f. (s : Service) → P s → P (f s)) fs

module _ (p : Platform) (run : Run) (P : Service → Type 0)
    (written : (fund : String) (s : Service) → P s → P (write_fund p run fund s).1)
    (saved : (fund : String) (total : ℕ) (t : Tally) (s : Service)
      → P s
      → P (save_progress run.extract_id fund total t s)) where
  keep-sleep :
      (fs : Schedule) (s : Service)
      → P s
      → AllKeep P fs
      → P (sleep fs s).0 × AllKeep P (sleep fs s).1
  unfolding sleep
  keep-sleep [] s h v = (h, v)
  keep-sleep (f ∷ fs) s h v = (v.0 s h, v.1)

  pub keep-fund_from :
      (left attempts : ℕ) (fund : String) (fs : Schedule) (s : Service)
      → P s
      → AllKeep P fs
      → let r = fund_from p run left attempts fund fs s in P r.service × AllKeep P r.rest
  unfolding fund_from
  keep-fund_from zero attempts fund fs s h v = (h, v)
  keep-fund_from (suc left) attempts fund fs s h v =
      if_rule (λ (r : FundResult). P r.service × AllKeep P r.rest) (attempt_fails p run fund s)
        (λ _.
          let (slept, rest) = keep-sleep fs s h v in
          keep-fund_from left (attempts + 1) fund (sleep fs s).1 (sleep fs s).0 slept rest)
        (λ _. (written fund s h, v))

  -- What writing a file, saving the progress and every other task keep, the loop keeps.
  pub keep-funds_loop :
      (cfg : Settings) (total : ℕ) (funds : List String) (t : Tally) (fs : Schedule) (s : Service)
      → P s
      → AllKeep P fs
      → P (funds_loop p cfg run total funds t fs s).1
  unfolding funds_loop
  keep-funds_loop cfg total [] t fs s h v = h
  keep-funds_loop cfg total (fund ∷ funds) t fs s h v =
      let r = fund_from p run cfg.worker_max_attempts_per_fund 0 fund fs s in
      let u = add_result fund r t in
      let (after, rest) = keep-fund_from cfg.worker_max_attempts_per_fund 0 fund fs s h v in
      if_rule (λ (x : LoopEnd × Service). P x.1) (contains run.extract_id s.worker.cancellations)
        (λ _. h)
        (λ _.
          if_rule (λ (x : LoopEnd × Service). P x.1)
            (is_none r.file && leb cfg.worker_max_attempts_per_extract u.attempts) (λ _. after)
            (λ _.
              keep-funds_loop cfg total funds u r.rest
                (save_progress run.extract_id fund total u r.service)
                (saved fund total u r.service after) rest))
