-- ===== src/Process/Check.antt =====
-- crates/json-processing/src/process/check.rs: the check of a file of snapshots. The package
-- `archivindex_lines` reads the lines: what its calls return in turn is a list.
pub mod Stages
pub mod Verdict
mod Tests
use archivindex_wbm.Common.{
  ℕ, ◌+◌, Bool, true, false, ◌&&◌, List, [], ◌∷◌, ◌++◌, Option, none, some, Result, ok, err, Bytes,
  bytes_eq, if◌then◌else◌,
}
use archivindex_wbm.Snapshot.Exact.{parse}
use archivindex_wbm.Snapshot.Recovery.Encoding.{
  mismatch, unsupported_format, invalid_whitespace, Sha1, verify, ValidationError,
}
use archivindex_wbm.Snapshot.Validation.{Location, digest_lt, is_nil}
use archivindex_wbm.Snapshot.{Snapshot, Context, Fields}

pub record Summary : Type 0 where
  pub line_count : ℕ
  pub valid_digest_count : ℕ
  pub schema_errors : List ℕ
  pub digest_mismatches : List Bytes
  pub unsupported_formats : List Bytes
  pub missing_timestamp_count : ℕ
  pub url_without_timestamp : List Bytes
  pub redundant_expected_digest : List Bytes
  pub redundant_url : List Bytes
  pub out_of_order : List Bytes
  pub duplicates : List Bytes

-- `Summary::default()`.
abbrev pub no_checks : Summary
no_checks = record {
  line_count = 0;
  valid_digest_count = 0;
  schema_errors = [];
  digest_mismatches = [];
  unsupported_formats = [];
  missing_timestamp_count = 0;
  url_without_timestamp = [];
  redundant_expected_digest = [];
  redundant_url = [];
  out_of_order = [];
  duplicates = [];
}

-- `Summary::is_successful`.
pub is_successful : Summary → Bool
is_successful s =
    is_nil s.schema_errors
    && is_nil s.digest_mismatches
    && is_nil s.unsupported_formats
    && is_nil s.url_without_timestamp
    && is_nil s.redundant_expected_digest
    && is_nil s.redundant_url
    && is_nil s.out_of_order
    && is_nil s.duplicates

-- The arms on what `verify` gives.
pub check_digest : ℕ → Bytes → Result (Unit {0}) ValidationError → Summary → Summary
check_digest line digest (ok _) s = record s { valid_digest_count = s.valid_digest_count + 1 }
check_digest line digest (err (mismatch actual)) s = record s {
  digest_mismatches = s.digest_mismatches ++ digest ∷ [];
}
check_digest line digest (err (unsupported_format name)) s = record s {
  unsupported_formats = s.unsupported_formats ++ digest ∷ [];
}
check_digest line digest (err (invalid_whitespace c)) s = record s {
  schema_errors = s.schema_errors ++ line ∷ [];
}

-- The comparison with the digest of the snapshot before.
pub check_order : Option Bytes → Bytes → Summary → Summary
check_order none digest s = s
check_order (some last) digest s =
    if bytes_eq digest last
    then record s { duplicates = s.duplicates ++ digest ∷ [] }
    else if digest_lt digest last
    then record s { out_of_order = s.out_of_order ++ digest ∷ [] }
    else s

-- `==` on texts that there may be.
pub same_option : Option Bytes → Bytes → Bool
same_option none text = false
same_option (some other) text = bytes_eq other text

module _ (fields : Fields) (sha1 : Sha1) where
  open fields use {Timestamp, Metadata, parse_digest}
  open sha1 use {Hasher, start}

  -- The test of a timestamp, on what there is of one and of a URL.
  pub check_timestamp : Bytes → Option Timestamp → Option Bytes → Summary → Summary
  check_timestamp digest (some timestamp) url s = s
  check_timestamp digest none none s = record s {
    missing_timestamp_count = s.missing_timestamp_count + 1;
  }
  check_timestamp digest none (some url) s = record s {
    missing_timestamp_count = s.missing_timestamp_count + 1;
    url_without_timestamp = s.url_without_timestamp ++ digest ∷ [];
  }

  -- `expected.parse::<Sha1Digest>().ok() == Some(snapshot.digest)`, if there is one.
  pub is_redundant_digest : Option Bytes → Bytes → Bool
  is_redundant_digest none digest = false
  is_redundant_digest (some expected) digest = same_option (parse_digest expected) digest

  -- `context.infer_url(&snapshot.content).as_deref() == Some(url.as_ref())`, if there is one.
  pub is_redundant_url : Option Bytes → Option Bytes → Bool
  is_redundant_url none inferred = false
  is_redundant_url (some url) inferred = same_option inferred url

  pub check_expected : Option Bytes → Bytes → Summary → Summary
  check_expected expected digest s =
      if is_redundant_digest expected digest
      then record s { redundant_expected_digest = s.redundant_expected_digest ++ digest ∷ [] }
      else s

  pub check_url : Option Bytes → Option Bytes → Bytes → Summary → Summary
  check_url url inferred digest s =
      if is_redundant_url url inferred
      then record s { redundant_url = s.redundant_url ++ digest ∷ [] }
      else s

  -- The variables of the loop.
  pub record Checking : Type 0 where
    pub summary : Summary
    pub hasher : Hasher
    pub last_digest : Option Bytes

  -- A line that is a snapshot, with what `verify` gives.
  pub check_snapshot :
      Context Metadata
      → ℕ
      → Snapshot Timestamp Metadata
      → Result (Unit {0}) ValidationError × Hasher
      → Checking
      → Checking
  check_snapshot c line s (outcome, hasher) p =
      let verified = check_digest line s.digest outcome p.summary in
      let stamped = check_timestamp s.digest s.timestamp s.url verified in
      let expected = check_expected s.expected_digest s.digest stamped in
      let inferred = check_url s.url (c.infer_url s.content) s.digest expected in
      record {
        summary = check_order p.last_digest s.digest inferred;
        hasher = hasher;
        last_digest = some s.digest;
      }

  -- The body of the loop, behind the count of the line.
  pub check_line : Context Metadata → Location → Checking → Checking
  check_line c (line, content) p = elim (parse fields content) [
    | ok s ↦ check_snapshot c line s (verify fields sha1 c s p.hasher) p
    | err e ↦
        let s = p.summary in
        record p { summary = record s { schema_errors = s.schema_errors ++ line ∷ [] } }
  ]

  -- `summary.line_count += 1`.
  pub count_line : Checking → Checking
  count_line p =
      let s = p.summary in record p { summary = record s { line_count = s.line_count + 1 } }

  pub check_from :
      {E : Type 0} → Context Metadata → List (Result Location E) → Checking → Result Summary E
  check_from c [] p = ok p.summary
  check_from c (err e ∷ ls) p = err e
  check_from c (ok l ∷ ls) p = check_from c ls (check_line c l (count_line p))

  -- `check_source`.
  pub check_source : {E : Type 0} → Context Metadata → List (Result Location E) → Result Summary E
  check_source c ls =
      check_from c ls (record { summary = no_checks; hasher = start; last_digest = none })
