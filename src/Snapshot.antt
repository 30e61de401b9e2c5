-- ===== src/Snapshot.antt =====
-- crates/json/src/lib.rs, format.rs, closing_whitespace.rs: snapshots, their formats, and the fields
-- whose texts other packages read and write. A digest is its twenty bytes, and a character of a
-- closing whitespace is its code point, which is its byte for JSON whitespace.
pub mod Exact
pub mod Recovery
pub mod Validation
pub mod Inference
pub mod Samples
use archivindex_wbm.Common.{
  ℕ, Bool, true, false, ◌||◌, ◌≡◌, List, Option, none, some, Bytes, length, ◌==◌,
}

pub data Format : Type 0 where
  utf8 : Format
  other : Bytes → Format

pub record FormatInfo (Metadata : Type 0) : Type 0 where
  pub name : Format
  pub closing_whitespace : Option (List ℕ)
  pub metadata : Metadata

pub record Snapshot (Timestamp Metadata : Type 0) : Type 0 where
  pub digest : Bytes
  pub expected_digest : Option Bytes
  pub timestamp : Option Timestamp
  pub url : Option Bytes
  pub format : FormatInfo Metadata
  pub content : Bytes

-- `Format::is_utf8`.
abbrev pub is_utf8 : Format → Bool
is_utf8 utf8 = true
is_utf8 (other name) = false

-- `is_json_whitespace`.
unfoldable pub is_json_whitespace : ℕ → Bool
is_json_whitespace c = c == b'\r' || c == b'\n' || c == b' ' || c == b'\t'

-- The texts of digests, timestamps and `format` objects. Digests are read and written by the
-- package `archivindex_digest`, timestamps by `archivindex_cdx`, and objects by `serde_json`.
pub record Fields : Type 1 where
  pub Timestamp : Type 0
  pub Metadata : Type 0
  pub parse_digest : Bytes → Option Bytes
  pub show_digest : Bytes → Bytes
  pub parse_timestamp : Bytes → Option Timestamp
  pub show_timestamp : Timestamp → Bytes
  pub no_metadata : Metadata
  pub is_empty : Metadata → Bool
  pub read_format : Bytes → Option (FormatInfo Metadata)
  pub write_format : FormatInfo Metadata → Option Bytes

-- `Codec`: a format's decoder and encoder, which may fail only to decode.
pub record Codec (Metadata : Type 0) : Type 0 where
  pub decode : Bytes → Option Bytes
  pub encode : Bytes → Metadata → Bytes

-- `Context`. The inference of a URL runs a query of the package `cel` on the content that
-- `serde_json` reads: it is the function that the query stands for.
pub record Context (Metadata : Type 0) : Type 0 where
  pub default_closing_whitespace : List ℕ
  pub formats : List (Format × Codec Metadata)
  pub infer_url : Bytes → Option Bytes

module _ {Timestamp Metadata : Type 0} where
  -- `Context::closing_whitespace`: the snapshot's own, or the context's default.
  unfoldable pub closing_whitespace : Context Metadata → Snapshot Timestamp Metadata → List ℕ
  closing_whitespace c s = elim s.format.closing_whitespace [
    | none ↦ c.default_closing_whitespace
    | some own ↦ own
  ]

  -- `Snapshot::has_explicit_closing_whitespace`.
  unfoldable pub has_explicit_closing_whitespace : Snapshot Timestamp Metadata → Bool
  has_explicit_closing_whitespace s = elim s.format.closing_whitespace [
    | none ↦ false
    | some own ↦ true
  ]
