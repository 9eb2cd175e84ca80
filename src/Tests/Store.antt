-- ===== src/Tests/Store.antt =====
-- Publication of a staged file.
use data_nexus.Prelude.{String, false, ◌≡◌, refl, none, some, [], ◌∷◌, ◌==◌, string_eq}
use data_nexus.Prelude.Dict.{lookup}
use data_nexus.ObjectStore.Files.{
  Manifest, ObjectStore, file_path, files_of, find_published, partition, promote, staged,
  write_manifest,
}
use data_nexus.ObjectStore.Publishing.{file_path-promote, with_manifest}
use data_nexus.Tests.Data.{platform}

abbrev store : ObjectStore
store = record {
  staging = ("ext", ("f1.parquet", partition (1 ∷ [])) ∷ []) ∷ ("other", []) ∷ [];
  published = [];
}

abbrev small_manifest : Manifest
small_manifest = record {
  extract_id = "ext";
  run_id = "run";
  domain = "gl";
  period = record { start = 0; end = 30 };
  as_of = none;
  schema_version = "gl/v2";
  created_at = 0;
  expires_at = 604800;
  files = [];
  file_count = 0;
  total_bytes = 0;
  total_rows = 0;
  sources = [];
}

file_path-promote_example :
    (s' : ObjectStore) × (promote platform 0 "ext" "gl" (write_manifest "ext" small_manifest store)
      ≡ some s')
    × ((name : String)
        → file_path "ext" "gl" name s'
          ≡ lookup name (with_manifest small_manifest (files_of (staged "ext" store))))
    × (staged "ext" s' ≡ none)
    × ((j : String) → ("ext" == j) ≡ false → staged j s' ≡ staged j store)
unfolding find_published
file_path-promote_example = file_path-promote platform 0 "ext" "gl" small_manifest store refl
