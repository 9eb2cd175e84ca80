-- ===== src/ObjectStore/Files.antt =====
-- extract_service/object_store.py: the staging and published prefixes, the atomic publish, and the
-- retention delete. The file system is the list of the prefixes with their files.
use data_nexus.Prelude.{
  ℕ, String, Bool, ◌&&◌, not, Option, none, some, List, [], ◌∷◌, ◌++◌, map, length, filter, find,
  is_empty, ◌==◌, string_eq, if◌then◌else◌,
}
use data_nexus.Prelude.Dict.{Dict, lookup, insert}
use data_nexus.Prelude.Text.{concat}
use data_nexus.Models.Enums.{Compression, OutputFormat}
use data_nexus.Models.Request.{Period}
use data_nexus.Platform.{Bytes, Platform, Row}
use data_nexus.Storage.Rows.{FileInfo}

-- What a file holds: the bytes of a partition, the manifest, or the empty marker.
pub record Manifest : Type 0 where
  pub extract_id : String
  pub run_id : String
  pub domain : String
  pub period : Period
  pub as_of : Option ℕ
  pub schema_version : String
  pub created_at : ℕ
  pub expires_at : ℕ
  pub files : List FileInfo
  pub file_count : ℕ
  pub total_bytes : ℕ
  pub total_rows : ℕ
  pub sources : List String

pub data Content : Type 0 where
  partition : Bytes → Content
  manifest : Manifest → Content
  marker : Content

-- A published prefix `extracts/{domain}/{yyyy}/{mm}/{extract_id}`.
pub record Published : Type 0 where
  pub domain : String
  pub year_month : String
  pub extract_id : String
  pub files : Dict Content

pub record ObjectStore : Type 0 where
  pub staging : List (String × Dict Content)
  pub published : List Published

base_extension : OutputFormat → String
base_extension OutputFormat.parquet = "parquet"
base_extension OutputFormat.ndjson = "ndjson"
base_extension OutputFormat.csv = "csv"

compression_suffix : Compression → String
compression_suffix Compression.gzip = ".gz"
compression_suffix Compression.zstd = ".zst"
compression_suffix Compression.none = ""

-- `_extension`
unfoldable pub extension : OutputFormat → Compression → String
unfolding base_extension compression_suffix
extension fmt c = concat (base_extension fmt ∷ compression_suffix c ∷ [])

abbrev join_lines : List Bytes → Bytes
join_lines [] = []
join_lines (l ∷ []) = l
join_lines (l ∷ m ∷ ls) = l ++ (10 ∷ join_lines (m ∷ ls))

module _ (platform : Platform) where
  -- `_compress`
  unfoldable pub compress : Bytes → Compression → Bytes
  compress bytes Compression.gzip = platform.gzip_compress bytes
  compress bytes Compression.none = bytes
  compress bytes Compression.zstd = elim platform.zstd_compress [
    | none ↦ platform.gzip_compress bytes
    | some zstd ↦ zstd bytes
  ]

  -- `_serialise`
  unfoldable pub serialise : List Row → OutputFormat → Bytes
  serialise rows OutputFormat.ndjson = join_lines (map platform.json_row rows) ++ 10 ∷ []
  serialise rows OutputFormat.csv =
      if is_empty rows
      then []
      else join_lines (platform.csv_header ∷ map platform.csv_line rows) ++ 10 ∷ []
  serialise rows OutputFormat.parquet = platform.json_surrogate rows

abbrev pub staged : String → ObjectStore → Option (Dict Content)
staged id s = lookup id s.staging

abbrev pub files_of : Option (Dict Content) → Dict Content
files_of none = []
files_of (some d) = d

-- Writes a file under the staging prefix, which `mkdir(exist_ok=True)` creates.
unfoldable pub stage : String → String → Content → ObjectStore → ObjectStore
stage id name c s = record s {
  staging = insert id (insert name c (files_of (staged id s))) s.staging;
}

unfoldable pub partition_name : String → OutputFormat → Compression → String
partition_name key fmt c = concat (key ∷ "." ∷ extension fmt c ∷ [])

-- `write_partition` where nothing raises: the caller asks `write_fails` first. The write goes to a temporary name, and `os.replace` puts it in place at
-- once, so no state in between is kept.
unfoldable pub write_partition :
    Platform
    → String
    → String
    → List Row
    → OutputFormat
    → Compression
    → ObjectStore
    → FileInfo × ObjectStore
unfolding stage
write_partition p id key rows fmt c s =
    let compressed = compress p (serialise p rows fmt) c in
    let name = partition_name key fmt c in
    (
      record {
        partition_key = key;
        name = name;
        size_bytes = length compressed;
        row_count = length rows;
        checksum = concat ("sha256:" ∷ p.sha256_hex compressed ∷ []);
        format = fmt;
        compression = c;
      },
      stage id name (partition compressed) s,
    )

unfoldable pub write_manifest : String → Manifest → ObjectStore → ObjectStore
unfolding stage
write_manifest id m s = stage id "manifest.json" (manifest m) s

abbrev pub at_path : String → String → String → Published → Bool
at_path domain ym id p = p.domain == domain && p.year_month == ym && p.extract_id == id

unfoldable pub without : String → List (String × Dict Content) → List (String × Dict Content)
without id [] = []
without id ((j, d) ∷ l) = let rest = without id l in if j == id then rest else (j, d) ∷ rest

-- The steps of `promote` when the staging prefix is there: remove an old destination, rename, and
-- write the marker.
unfoldable pub move : String → String → String → Dict Content → ObjectStore → ObjectStore
unfolding without
move id domain ym files s = record {
  staging = without id s.staging;
  published =
      filter (λ p. not (at_path domain ym id p)) s.published
      ++ record {
        domain = domain;
        year_month = ym;
        extract_id = id;
        files = insert "_SUCCESS" marker files;
      }
        ∷ [];
}

unfoldable pub promote_from :
    Option (Dict Content) → String → String → String → ObjectStore → Option ObjectStore
unfolding move
promote_from none ym id domain s = none
promote_from (some files) ym id domain s = some (move id domain ym files s)

-- `promote`; `none` is the `FileNotFoundError`.
unfoldable pub promote : Platform → ℕ → String → String → ObjectStore → Option ObjectStore
unfolding promote_from
promote p now id domain s = promote_from (staged id s) (p.year_month now) id domain s

unfoldable pub cleanup_staging : String → ObjectStore → ObjectStore
unfolding without
cleanup_staging id s = record s { staging = without id s.staging }

abbrev pub is_published : String → String → Published → Bool
is_published id domain p = p.domain == domain && p.extract_id == id

-- `_find_published`: the first directory of the domain that has the extract.
unfoldable pub find_published : String → String → ObjectStore → Option Published
find_published id domain s = find (is_published id domain) s.published

-- Drops the first element that passes.
unfoldable pub remove_first {ℓ} : {A : Type ℓ} → (A → Bool) → List A → List A
remove_first p [] = []
remove_first p (x ∷ xs) = if p x then xs else x ∷ remove_first p xs

-- `delete_published` removes the directory that `_find_published` returns.
unfoldable pub delete_published : String → String → ObjectStore → ObjectStore
unfolding remove_first
delete_published id domain s = record s {
  published = remove_first (is_published id domain) s.published;
}

unfoldable pub file_in : Option Published → String → Option Content
file_in none name = none
file_in (some p) name = lookup name p.files

-- `file_path`
unfoldable pub file_path : String → String → String → ObjectStore → Option Content
unfolding file_in
file_path id domain name s = file_in (find_published id domain s) name
