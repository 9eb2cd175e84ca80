-- ===== src/Platform.antt =====
-- What the service takes from outside its source: formatting of instants, hashes, compression
-- libraries and serialisers.
use data_nexus.Models.Request.{CreateExtractRequest}
use data_nexus.Models.Events.{Event}
use data_nexus.Prelude.{ℕ, String, Bool, Option, List}

abbrev pub Bytes : Type 0
Bytes = List ℕ

-- A row of `Worker._synthesize_rows`; the amount is in cents, and the identifier and the
-- description are made of the fund and the sequence number.
pub record Row : Type 0 where
  pub fund_id : String
  pub period_start : ℕ
  pub period_end : ℕ
  pub as_of : Option ℕ
  pub position : ℕ
  pub amount_cents : ℕ

pub record Platform : Type 0 where
  -- `utcnow().strftime('%Y%m%d_%H%M%S')`
  pub strftime : ℕ → String
  -- `{year:04d}/{month:02d}` of an instant
  pub year_month : ℕ → String
  -- `hashlib.sha256(data).hexdigest()`, of bytes and of an encoded text
  pub sha256_hex : Bytes → String
  pub sha256_text : String → String
  -- `int(hashlib.sha256(text).hexdigest(), 16)`
  pub sha256_int : String → ℕ
  -- `hmac.new(key, message, hashlib.sha256).hexdigest()`, of encoded texts
  pub hmac_sha256_hex : String → String → String
  -- the value of a decimal digit outside ASCII, which `int` accepts too
  pub unicode_digit : ℕ → Option ℕ
  -- `json.dumps(…, sort_keys=True)` of a request without its idempotency key
  pub request_json : CreateExtractRequest → String
  -- `json.dumps` of an event, without spaces
  pub event_json : Event → String
  -- whether writing a partition of this extract and this name raises, at an instant: the disk is
  -- full, or the name is not one of a file in the staging directory
  pub write_fails : String → String → ℕ → Bool
  -- `gzip.compress`, and the `zstandard` compressor, where it is installed
  pub gzip_compress : Bytes → Bytes
  pub zstd_compress : Option (Bytes → Bytes)
  -- `json.dumps` of a row, of the parquet surrogate, and the CSV header and line of a row
  pub json_row : Row → Bytes
  pub json_surrogate : List Row → Bytes
  pub csv_header : Bytes
  pub csv_line : Row → Bytes
