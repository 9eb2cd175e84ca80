-- ===== src/Worker/Funds.antt =====
-- extract_service/worker.py: the rows of a fund, the extraction of one fund with its retries, and
-- the loop over the fund scope with its cancellation check and its attempt budget.
use data_nexus.Prelude.{
  ℕ, zero, suc, ◌+◌, ◌*◌, ◌/◌, ◌%◌, max, String, Bool, true, false, ◌||◌, ◌&&◌, Option, none, some,
  List, [], ◌∷◌, ◌++◌, length, contains, string_eq, leb, if◌then◌else◌,
}
use data_nexus.Prelude.Dict.{lookup_or}
use data_nexus.Prelude.Text.{concat}
use data_nexus.Config.{Settings}
use data_nexus.Models.Enums.{OutputFormat}
use data_nexus.Models.Request.{CreateExtractRequest}
use data_nexus.Platform.{Platform, Row}
use data_nexus.Metrics.{inc}
use data_nexus.Storage.Rows.{FileInfo, StateJson}
use data_nexus.Storage.Extracts.{no_changes, update_extract}
use data_nexus.ObjectStore.Files.{partition_name, write_partition}
use data_nexus.Service.{Schedule, Service, now, on_metrics, on_storage}

-- `fmt.value`
unfoldable pub format_value : OutputFormat → String
format_value OutputFormat.parquet = "parquet"
format_value OutputFormat.ndjson = "ndjson"
format_value OutputFormat.csv = "csv"

row_at : String → CreateExtractRequest → ℕ → Row
row_at fund r i = record {
  fund_id = fund;
  period_start = r.period.start;
  period_end = r.period.end;
  as_of = r.as_of;
  position = i;
  amount_cents = i * 1337 % 1000000;
}

-- The comprehension over `range(row_count)`, from `i` on.
rows_from : ℕ → ℕ → String → CreateExtractRequest → List Row
rows_from zero i fund r = []
rows_from (suc n) i fund r = row_at fund r i ∷ rows_from n (i + 1) fund r

-- `EXTRACT_ROWS_MULTIPLIER` is left at 1, its default.
unfoldable pub row_count : Platform → String → String → ℕ
row_count p domain fund = 1000 + p.sha256_int (concat (domain ∷ ":" ∷ fund ∷ [])) % 2000

unfoldable pub synthesize_rows : Platform → String → String → CreateExtractRequest → List Row
unfolding rows_from row_at
synthesize_rows p domain fund r = rows_from (row_count p domain fund) 0 fund r

-- `await asyncio.sleep(…)`: the other tasks run.
unfoldable pub sleep : Schedule → Service → Service × Schedule
sleep [] s = (s, [])
sleep (f ∷ fs) s = (f s, fs)

-- The test of `_extract_fund` that stands for the source: it fails by the two simulation flags.
abbrev source_fails : String → String → Service → Bool
source_fails id fund s =
    s.worker.source_outage || contains fund (lookup_or [] id s.worker.partial_failure)

-- The arguments of `_extract_fund` that stay the same during a run.
pub record Run : Type 0 where
  pub extract_id : String
  pub domain : String
  pub request : CreateExtractRequest

pub record FundResult : Type 0 where
  pub file : Option FileInfo
  pub attempts : ℕ
  pub service : Service
  pub rest : Schedule

module _ (p : Platform) (run : Run) where
  unfoldable pub write_fund : String → Service → FileInfo × Service
  write_fund fund s =
      let (file, store) =
        write_partition p run.extract_id fund (synthesize_rows p run.domain fund run.request)
          run.request.output.format run.request.output.compression s.store in
      (
        file,
        on_metrics
            (inc "extract.files.bytes_written" file.size_bytes
              (("domain", run.domain) ∷ ("format", format_value run.request.output.format) ∷ []))
            (record s { store = store }),
      )

  -- What the `except` of `_extract_fund` catches: the source fails, or the file is not written.
  abbrev pub attempt_fails : String → Service → Bool
  attempt_fails fund s =
      let output = run.request.output in
      source_fails run.extract_id fund s
      || p.write_fails run.extract_id (partition_name fund output.format output.compression) (now s)

  -- The loop of `_extract_fund` with `left` rounds left, after `attempts` rounds.
  unfoldable pub fund_from : ℕ → ℕ → String → Schedule → Service → FundResult
  unfolding sleep
  fund_from zero attempts fund fs s = record {
    file = none;
    attempts = attempts;
    service = s;
    rest = fs;
  }
  fund_from (suc left) attempts fund fs s =
      let (slept, fs') = sleep fs s in
      let again = fund_from left (attempts + 1) fund fs' slept in
      let (file, written) = write_fund fund s in
      if attempt_fails fund s
      then again
      else record { file = some file; attempts = attempts + 1; service = written; rest = fs }

-- The local variables of the loop in `_process`.
pub record Tally : Type 0 where
  pub funds_completed : List String
  pub funds_failed : List String
  pub files : List FileInfo
  pub attempts : ℕ

abbrev pub no_tally : Tally
no_tally = record { funds_completed = []; funds_failed = []; files = []; attempts = 0 }

pub data LoopEnd : Type 0 where
  cancelled : LoopEnd
  finished : Tally → LoopEnd

unfoldable pub add_result : String → FundResult → Tally → Tally
add_result fund r t = elim r.file [
  | some file ↦ record {
    funds_completed = t.funds_completed ++ fund ∷ [];
    funds_failed = t.funds_failed;
    files = t.files ++ file ∷ [];
    attempts = t.attempts + r.attempts;
  }
  | none ↦ record {
    funds_completed = t.funds_completed;
    funds_failed = t.funds_failed ++ fund ∷ [];
    files = t.files;
    attempts = t.attempts + r.attempts;
  }
]

-- `int(100 * (completed + failed) / max(1, total))`
unfoldable pub percent : ℕ → ℕ → ℕ
percent handled total = 100 * handled / max 1 total

unfoldable pub save_progress : String → String → ℕ → Tally → Service → Service
unfolding percent
save_progress id fund total t s =
    on_storage
      (update_extract (now s) id (record no_changes {
        state = some (
            StateJson.progress (record {
              funds_completed = length t.funds_completed;
              funds_total = total;
              percent = percent (length t.funds_completed + length t.funds_failed) total;
              current_fund = some fund;
            }));
      }))
      s

abbrev pub is_none : Option FileInfo → Bool
is_none none = true
is_none (some f) = false

-- The `for` loop of `_process`. It stops at a cancellation, and after a failed fund once the
-- attempts of the extract are used up.
unfoldable pub funds_loop :
    Platform → Settings → Run → ℕ → List String → Tally → Schedule → Service → LoopEnd × Service
funds_loop p cfg run total [] t fs s = (finished t, s)
funds_loop p cfg run total (fund ∷ funds) t fs s =
    let r = fund_from p run cfg.worker_max_attempts_per_fund 0 fund fs s in
    let t' = add_result fund r t in
    let stop = is_none r.file && leb cfg.worker_max_attempts_per_extract t'.attempts in
    let rest =
      funds_loop p cfg run total funds t' r.rest
        (save_progress run.extract_id fund total t' r.service) in
    let one = if stop then (finished t', r.service) else rest in
    if contains run.extract_id s.worker.cancellations then (cancelled, s) else one
