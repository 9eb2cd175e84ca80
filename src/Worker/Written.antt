-- ===== src/Worker/Written.antt =====
-- The files of a run, under its staging prefix.
use mathlib.Core.Path.{subst}
use text.Mathlib.TextPositions.{eq_refl}
use text.Mathlib.TextLemmas.{append_cancel_right}
use data_nexus.Prelude.{
  ℕ, zero, suc, ◌+◌, String, ◌≡◌, refl, sym, ap, ◌∙◌, Option, none, some, List, [], ◌∷◌, length,
  contains, ◌==◌, string_eq, eq_iff, if◌then◌else◌, leb, arith, Option-cases, inl, inr, if_rule,
  ◌&&◌,
}
use data_nexus.Prelude.Dict.{lookup, lookup-insert}
use data_nexus.Prelude.Lists.{All, All-append}
use data_nexus.Prelude.Text.{concat}
use data_nexus.Config.{Settings}
use data_nexus.Platform.{Bytes, Platform}
use data_nexus.Storage.Rows.{FileInfo}
use data_nexus.ObjectStore.Files.{
  Content, ObjectStore, compress, files_of, partition, partition_name, serialise, staged,
  write_partition,
}
use data_nexus.ObjectStore.Publishing.{staged-stage}
use data_nexus.Service.{Schedule, Service}
use data_nexus.Worker.Funds.{
  FundResult, LoopEnd, Run, Tally, add_result, fund_from, funds_loop, is_none, no_tally,
  save_progress, sleep, attempt_fails, synthesize_rows, write_fund,
}

-- Names of partitions of one format tell the keys apart.
partition_name-key :
    (k j e : String) → concat (k ∷ "." ∷ e ∷ []) ≡ concat (j ∷ "." ∷ e ∷ []) → k ≡ j
unfolding concat
partition_name-key k j e h = append_cancel_right k j _ h

abbrev Each : (FileInfo → Type 0) → Option FileInfo → Type 0
Each P none = Unit
Each P (some f) = P f

module _ (p : Platform) (run : Run) where
  -- The bytes of the partition of a fund.
  abbrev pub fund_bytes : String → Bytes
  fund_bytes fund =
      compress p
        (serialise p (synthesize_rows p run.domain fund run.request) run.request.output.format)
        run.request.output.compression

  abbrev pub name_of : String → String
  name_of fund = partition_name fund run.request.output.format run.request.output.compression

  -- A file whose bytes are stored under its name in a directory, and whose entry tells the truth of
  -- them.
  pub record Intact (find : String → Option Content) (f : FileInfo) : Type 0 where
    pub stored : find f.name ≡ some (partition (fund_bytes f.partition_key))
    pub name : f.name ≡ name_of f.partition_key
    pub size : f.size_bytes ≡ length (fund_bytes f.partition_key)
    pub checksum : f.checksum ≡ concat ("sha256:" ∷ p.sha256_hex (fund_bytes f.partition_key) ∷ [])
    pub row_count : f.row_count ≡ length (synthesize_rows p run.domain f.partition_key run.request)

  abbrev pub in_staging : ObjectStore → String → Option Content
  in_staging store name = lookup name (files_of (staged run.extract_id store))

  write_fund-new :
      (fund : String) (s : Service)
      → let (f, s') = write_fund p run fund s in Intact (in_staging s'.store) f
  unfolding write_fund write_partition
  write_fund-new fund s = record {
    stored = rw staged-stage (simp (lookup-insert, eq_refl));
    name = refl;
    size = refl;
    checksum = refl;
    row_count = refl;
  }

  write_fund-lookup :
      (fund name : String) (s : Service)
      → in_staging (write_fund p run fund s).1.store name ≡ (
          if name_of fund == name
          then some (partition (fund_bytes fund))
          else in_staging s.store name)
  unfolding write_fund write_partition
  write_fund-lookup fund name s = rw (staged-stage, lookup-insert) refl

  write_fund-old :
      (fund : String) (s : Service) (f : FileInfo)
      → Intact (in_staging s.store) f
      → Intact (in_staging (write_fund p run fund s).1.store) f
  unfolding partition_name
  write_fund-old fund s f v = record {
    stored =
        write_fund-lookup fund f.name s
        ∙ if_rule (λ (x : Option Content). x ≡ some (partition (fund_bytes f.partition_key)))
            (name_of fund == f.name)
            (λ e.
              let same : name_of fund ≡ f.name = ground (arith, eq_iff (name_of fund) f.name) in
              ap (λ k. some (partition (fund_bytes k)))
                (partition_name-key fund f.partition_key _ (same ∙ v.name)))
            (λ _. v.stored);
    name = v.name;
    size = v.size;
    checksum = v.checksum;
    row_count = v.row_count;
  }

  -- The other tasks leave the staging prefix of the run alone.
  abbrev pub Quiet : Schedule → Type 0
  Quiet fs =
      All (λ f. (s : Service) → staged run.extract_id (f s).store ≡ staged run.extract_id s.store)
        fs

  Quiet-sleep :
      (fs : Schedule) (s : Service)
      → Quiet fs
      → (staged run.extract_id (sleep fs s).0.store ≡ staged run.extract_id s.store)
        × Quiet (sleep fs s).1
  unfolding sleep
  Quiet-sleep [] s q = (refl, tt)
  Quiet-sleep (f ∷ fs) s q = (q.0 s, q.1)

  Intact-same :
      (a b : ObjectStore) (f : FileInfo)
      → staged run.extract_id b ≡ staged run.extract_id a
      → Intact (in_staging a) f
      → Intact (in_staging b) f
  Intact-same a b f same v = subst (λ d. Intact (λ name. lookup name (files_of d)) f) (sym same) v

  -- What the extraction of a fund leaves: files that were intact still are, and so is its own.
  record Leaves (s : Service) (r : FundResult) : Type 0 where
    quiet : Quiet r.rest
    old : (f : FileInfo) → Intact (in_staging s.store) f → Intact (in_staging r.service.store) f
    new : {f : FileInfo} → r.file ≡ some f → Intact (in_staging r.service.store) f

  fund_from-Leaves :
      (left attempts : ℕ) (fund : String) (fs : Schedule) (s : Service)
      → Quiet fs
      → Leaves s (fund_from p run left attempts fund fs s)
  unfolding fund_from
  fund_from-Leaves zero attempts fund fs s q = record { quiet = q; old = λ f v. v; new = λ e. cc }
  fund_from-Leaves (suc left) attempts fund fs s q =
      if_rule (Leaves s) (attempt_fails p run fund s)
        (λ _.
          let (same, q') = Quiet-sleep fs s q in
          let v = fund_from-Leaves left (attempts + 1) fund (sleep fs s).1 (sleep fs s).0 q' in
          record {
            quiet = v.quiet;
            old = λ f w. v.old f (Intact-same s.store (sleep fs s).0.store f same w);
            new = v.new;
          })
        (λ _. record {
          quiet = q;
          old = write_fund-old fund s;
          new = λ {f} e.
              subst (Each (Intact (in_staging (write_fund p run fund s).1.store))) e
                (write_fund-new fund s);
        })

  All-Intact :
      (a b : ObjectStore) (l : List FileInfo)
      → ((f : FileInfo) → Intact (in_staging a) f → Intact (in_staging b) f)
      → All (Intact (in_staging a)) l
      → All (Intact (in_staging b)) l
  All-Intact a b [] g h = tt
  All-Intact a b (f ∷ l) g h = (g f h.0, All-Intact a b l g h.1)

module _ (p : Platform) (cfg : Settings) (run : Run) (total : ℕ) where
  -- The lists of a run after a fund: its own file, when it has one, is added to the files.
  All-add_result :
      (P : FileInfo → Type 0) (fund : String) (r : FundResult) (t : Tally)
      → ((f : FileInfo) → r.file ≡ some f → P f)
      → All P t.files
      → All P (add_result fund r t).files
  unfolding add_result
  All-add_result P fund r t new old = elim (Option-cases r.file) [
    | inl e ↦ rw e old
    | inr (f, e) ↦ rw e (All-append P t.files (f ∷ []) old (new f e, tt))
  ]

  abbrev Ends : LoopEnd × Service → Type 0
  Ends x =
      (t' : Tally)
      → x.0 ≡ LoopEnd.finished t'
      → All (Intact p run (in_staging p run x.1.store)) t'.files

  funds_loop-Ends :
      (funds : List String) (t : Tally) (fs : Schedule) (s : Service)
      → Quiet p run fs
      → All (Intact p run (in_staging p run s.store)) t.files
      → Ends (funds_loop p cfg run total funds t fs s)
  unfolding funds_loop save_progress
  funds_loop-Ends [] t fs s q h = λ t' e.
      let same : t ≡ t' = cc in
      subst (λ (u : Tally). All (Intact p run (in_staging p run s.store)) u.files) same h
  funds_loop-Ends (fund ∷ funds) t fs s q h =
      let r = fund_from p run cfg.worker_max_attempts_per_fund 0 fund fs s in
      let u = add_result fund r t in
      let intact = Intact p run (in_staging p run r.service.store) in
      let v = fund_from-Leaves p run cfg.worker_max_attempts_per_fund 0 fund fs s q in
      let kept : All intact u.files =
        All-add_result intact fund r t (λ f e. v.new e)
          (All-Intact p run s.store r.service.store t.files v.old h) in
      if_rule Ends (contains run.extract_id s.worker.cancellations) (λ _ t' e. cc)
        (λ _.
          if_rule Ends (is_none r.file && leb cfg.worker_max_attempts_per_extract u.attempts)
            (λ _ t' e.
              let same : u ≡ t' = cc in subst (λ (w : Tally). All intact w.files) same kept)
            (λ _.
              funds_loop-Ends funds u r.rest (save_progress run.extract_id fund total u r.service)
                v.quiet kept))

  -- While the other tasks leave the staging prefix of the run alone, every file that the loop over
  -- the funds has listed when it ends is stored under the prefix, with the rows of its fund; its
  -- entry tells the size, the checksum and the number of rows of what is stored.
  pub funds_loop-Intact :
      (funds : List String) (fs : Schedule) (s : Service) {t : Tally}
      → Quiet p run fs
      → (funds_loop p cfg run total funds no_tally fs s).0 ≡ LoopEnd.finished t
      → All
          (Intact p run (in_staging p run (funds_loop p cfg run total funds no_tally fs s).1.store))
          t.files
  funds_loop-Intact funds fs s {t} q e = funds_loop-Ends funds no_tally fs s q tt t e
