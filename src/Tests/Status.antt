-- ===== src/Tests/Status.antt =====
-- The status of an extract with one file.
use data_nexus.Prelude.{ℕ, ◌≡◌, refl, some, [], ◌∷◌}
use data_nexus.Config.{default_settings}
use data_nexus.Models.Enums.{Compression, OutputFormat}
use data_nexus.Storage.Rows.{ExtractRow, FileInfo}
use data_nexus.Storage.Extracts.{get_extract}
use data_nexus.Worker.Funds.{Tally}
use data_nexus.Worker.Process.{finalize}
use data_nexus.Api.Reported.{Stored, result_of, status-finalize}
use data_nexus.ObjectStore.Files.{Manifest, find_published}
use data_nexus.Worker.Finalize.{has_expiry}
use data_nexus.Api.Status.{status_response}
use data_nexus.Tests.Data.{busy, platform, running_row}

abbrev file : FileInfo
file = record {
  partition_key = "f1";
  name = "f1.parquet";
  size_bytes = 10;
  row_count = 3;
  checksum = "sha256:00";
  format = OutputFormat.parquet;
  compression = Compression.none;
}

abbrev one_file : Tally
one_file = record {
  funds_completed = "f1" ∷ [];
  funds_failed = "f2" ∷ [];
  files = file ∷ [];
  attempts = 4;
}

status-finalize_example :
    let s' = (finalize platform default_settings "ext" "run" 0 one_file busy).1 in
    (m : Manifest) × Stored "ext" "gl" m s'.store
    × (m.files ≡ file ∷ [])
    × ((r : ExtractRow) × (get_extract "ext" s'.storage ≡ some r)
        × ((x : ℕ) × (r.expires_at ≡ some x)
            × ((later : ℕ)
                → (status_response later r).result ≡ some (result_of platform "ext" x m))))
unfolding get_extract find_published has_expiry
status-finalize_example =
    status-finalize platform default_settings "ext" "run" 0 one_file busy {row = running_row}
      {f = file} {fs = []} refl refl refl refl
