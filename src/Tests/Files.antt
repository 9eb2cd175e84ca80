-- ===== src/Tests/Files.antt =====
-- Download tokens, a listing and a download.
use data_nexus.Prelude.{String, ◌≡◌, refl, none, some, [], ◌∷◌, map, length, inl, arith}
use data_nexus.Prelude.Numbers.{ℤ, decimal, int_of, split3}
use data_nexus.Prelude.Strip.{strip}
use data_nexus.Prelude.Text.{all_codes, concat}
use data_nexus.Config.{default_settings}
use data_nexus.Exec.{ok}
use data_nexus.Models.Enums.{Compression, ExtractStatus, OutputFormat}
use data_nexus.Storage.Rows.{ExtractRow, FileInfo, Outcome, StateJson}
use data_nexus.Storage.Apps.{count_rl_events, entitled_funds}
use data_nexus.Storage.Extracts.{get_extract}
use data_nexus.ObjectStore.Files.{
  compress, extension, file_path, find_published, partition, partition_name, serialise,
}
use data_nexus.Prelude.Dict.{lookup}
use data_nexus.ObjectStore.Signing.{HexDigests, verify-sign, verify_confined}
use data_nexus.ObjectStore.Tokens.{Verdict, sign, verify}
use data_nexus.Auth.Principals.{Principal}
use data_nexus.Service.{Service}
use data_nexus.Worker.Funds.{row_count, synthesize_rows}
use data_nexus.Worker.Process.{run_of}
use data_nexus.Worker.Written.{Intact, fund_bytes}
use data_nexus.Api.Cancel.{owned}
use data_nexus.Api.Files.{
  Origin, download_file, download_url, entry_of, files_in, list_files, manifest_link,
}
use data_nexus.Api.Downloads.{Answered, download_file-Answered, download_exact}
use data_nexus.Api.Status.{outcome_in}
use data_nexus.Api.FilesListed.{list_files_lists}
use data_nexus.Tests.Data.{platform, running_row, service, tables}

token_parts : split3 "00.2003600.my.app" ≡ some ("00", "2003600", "my.app")
unfolding split3
token_parts = refl

spaced : int_of platform.unicode_digit " +1_0 " ≡ some (ℤ.pos 10)
unfolding int_of strip
spaced = refl

refused_number : int_of platform.unicode_digit "1__0" ≡ none
unfolding int_of strip
refused_number = refl

printed : decimal 2003600 ≡ "2003600"
unfolding decimal
printed = refl

a_token :
    (sign platform default_settings 2000000 "ext" "gl" "f1.parquet" "app" none).0 ≡ "00.2003600.app"
unfolding sign concat decimal
a_token = refl

late_token :
    verify platform default_settings 2003601 "ext" "gl" "f1.parquet" "00.2003600.app"
    ≡ Verdict.invalid "token expired"
unfolding verify split3 int_of strip
late_token = refl

hex : HexDigests platform
unfolding all_codes
hex key message = refl

verify-sign_example :
    verify platform default_settings 2003600 "ext" "gl" "f1.parquet"
      (sign platform default_settings 2000000 "ext" "gl" "f1.parquet" "app" none).0
    ≡ Verdict.valid "app"
unfolding sign
verify-sign_example =
    verify-sign platform default_settings hex 2000000 2003600 "ext" "gl" "f1.parquet" "app" none
      (omega arith) (omega arith)

verify_confined_example :
    ◌≡◌ {A = String} "ext" "ext"
    × ◌≡◌ {A = String} "gl" "gl"
    × ◌≡◌ {A = String} "f1.parquet" "f1.parquet"
    × ◌≡◌ {A = String} "app" "app"
unfolding sign all_codes verify split3 int_of strip decimal concat
verify_confined_example =
    verify_confined platform default_settings hex 2000000 2003600 "ext" "ext" "gl" "gl" "f1.parquet"
      "f1.parquet" "app" none (refl, (refl, (refl, (refl, tt)))) (omega arith) (λ e. refl) refl

-- A completed extract with the file of one fund, and the service that has both.
abbrev file : FileInfo
file = record {
  partition_key = "f1";
  name = "f1.parquet";
  size_bytes = 1;
  row_count = 1000;
  checksum = "sha256:00";
  format = OutputFormat.parquet;
  compression = Compression.none;
}

abbrev outcome : Outcome
outcome = record {
  files = file ∷ [];
  manifest_checksum = "sha256:00";
  total_bytes = 1;
  total_rows = 1000;
  schema_version = "gl/v1";
  duration_seconds = 0;
}

abbrev done_row : ExtractRow
done_row = record running_row {
  status = ExtractStatus.completed;
  state = StateJson.finished outcome;
}

abbrev finished : Service
finished = record service {
  storage = record tables { extracts = done_row ∷ [] };
  store = record {
    staging = [];
    published =
        record {
          domain = "gl";
          year_month = "2026/01";
          extract_id = "ext";
          files = ("f1.parquet", partition (1 ∷ [])) ∷ [];
        }
        ∷ [];
  };
}

abbrev at : Origin
at = record { base_url = "http://host/"; prefix = "/api/v1" }

abbrev who : Principal
who = record { app_id = "app"; cert_fingerprint = none; token = "tok" }

list_files_lists_example :
    (list_files platform default_settings at who "ext" finished).0
    ≡ ok (record {
      extract_id = "ext";
      files = map (entry_of platform default_settings at "app" "ext" done_row 2000000) (file ∷ []);
      manifest = manifest_link platform default_settings at "app" "ext" done_row 2000000;
    })
unfolding get_extract owned entitled_funds files_in outcome_in count_rl_events
list_files_lists_example =
    list_files_lists platform default_settings at who "ext" finished {row = done_row} refl
      (inl refl) (omega arith) (omega arith)

download_file-Answered_example :
    Answered platform default_settings "ext" "f1.parquet" "00.2003600.app" finished
      (download_file platform default_settings "ext" "f1.parquet" "00.2003600.app" finished)
download_file-Answered_example =
    download_file-Answered platform default_settings "ext" "f1.parquet" "00.2003600.app" finished

intact :
    Intact platform (run_of running_row) (λ name. file_path "ext" "gl" name finished.store) file
unfolding file_path partition_name find_published lookup compress serialise concat extension
    synthesize_rows row_count
intact = record { stored = refl; name = refl; size = refl; checksum = refl; row_count = refl }

download_exact_example :
    let entry = entry_of platform default_settings at "app" "ext" done_row 2000000 file in
    (token : String) × (entry.download_url ≡ download_url at "ext" "f1.parquet" token)
    × ((download_file platform default_settings "ext" "f1.parquet" token finished).0
        ≡ ok (partition (fund_bytes platform (run_of running_row) "f1")))
    × (entry.size_bytes ≡ length (fund_bytes platform (run_of running_row) "f1"))
    × (entry.checksum
        ≡ concat
            ("sha256:" ∷ platform.sha256_hex (fund_bytes platform (run_of running_row) "f1") ∷ []))
unfolding get_extract entry_of sign
download_exact_example =
    download_exact platform default_settings hex at "app" (run_of running_row) done_row done_row
      file finished finished refl refl intact (omega arith) (omega arith)
