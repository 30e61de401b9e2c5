-- ===== src/Process/Skip.antt =====
-- crates/json-processing/src/process/skip.rs: files that are skipped, and what is made of the others.
-- The reading of a file is a parameter.
use archivindex_wbm.Common.{
  ℕ, ◌+◌, ◌-◌, List, [], ◌∷◌, ◌++◌, Option, none, some, Result, ok, err, Bytes, bytes_eq, length,
  ltb, if◌then◌else◌,
}
use archivindex_wbm.Snapshot.Recovery.Encoding.{
  Sha1, SnapshotError, undecodable, internal_line_break, unsupported, unprocessed_snapshot,
}
use archivindex_wbm.Snapshot.{Snapshot, FormatInfo, Context, Fields}

pub data SkipReason : Type 0 where
  read_error : SkipReason
  digest_mismatch : SkipReason
  non_utf8 : SkipReason
  non_single_line : SkipReason
  unsupported_format : SkipReason
  no_partition : SkipReason

-- `SkipReason::from`.
unfoldable pub reason_of : SnapshotError → SkipReason
reason_of (undecodable format) = non_utf8
reason_of internal_line_break = non_single_line
reason_of (unsupported format) = unsupported_format

pub record Skipped : Type 0 where
  pub read_error : List Bytes
  pub digest_mismatch : List Bytes
  pub non_utf8 : List Bytes
  pub non_single_line : List Bytes
  pub unsupported_format : List Bytes
  pub no_partition : List Bytes

-- `Skipped::default()`.
abbrev pub none_skipped : Skipped
none_skipped = record {
  read_error = [];
  digest_mismatch = [];
  non_utf8 = [];
  non_single_line = [];
  unsupported_format = [];
  no_partition = [];
}

-- `Skipped::push`.
unfoldable pub push : Skipped → SkipReason → Bytes → Skipped
push s read_error path = record s { read_error = s.read_error ++ path ∷ [] }
push s digest_mismatch path = record s { digest_mismatch = s.digest_mismatch ++ path ∷ [] }
push s non_utf8 path = record s { non_utf8 = s.non_utf8 ++ path ∷ [] }
push s non_single_line path = record s { non_single_line = s.non_single_line ++ path ∷ [] }
push s unsupported_format path = record s { unsupported_format = s.unsupported_format ++ path ∷ [] }
push s no_partition path = record s { no_partition = s.no_partition ++ path ∷ [] }

-- `Skipped::count`.
unfoldable pub count : Skipped → ℕ
count s =
    length s.read_error
    + length s.digest_mismatch
    + length s.non_utf8
    + length s.non_single_line
    + length s.unsupported_format
    + length s.no_partition

abbrev pub u64_end : ℕ
u64_end = 18446744073709551616

-- `Skipped::count_u64`.
unfoldable pub count_u64 : Skipped → ℕ
count_u64 s = if ltb (count s) u64_end then count s else u64_end - 1

module _ (fields : Fields) (sha1 : Sha1) where
  open fields use {Timestamp, Metadata}
  open sha1 use {start, update, finalize}

  -- `read_verified`, on what reading the file gives.
  unfoldable pub read_verified : {E : Type 0} → Result Bytes E → Bytes → Result Bytes SkipReason
  read_verified (err e) digest = err read_error
  read_verified (ok bytes) digest =
      if bytes_eq (finalize (update start bytes)) digest then ok bytes else err digest_mismatch

  -- What `build_snapshot` makes of the outcome.
  unfoldable pub built :
      FormatInfo Metadata
      → Result (Snapshot Timestamp Metadata) SnapshotError
      → Result (Snapshot Timestamp Metadata) SkipReason
  built format (err e) = err (reason_of e)
  built format (ok s) = ok (record s { format = record s.format { metadata = format.metadata } })

  -- `build_snapshot`: a panic is `none`.
  unfoldable pub build_snapshot :
      Context Metadata
      → FormatInfo Metadata
      → Bytes
      → Option (Result (Snapshot Timestamp Metadata) SkipReason)
  build_snapshot c format bytes = elim (unprocessed_snapshot fields sha1 c format.name bytes) [
    | none ↦ none
    | some made ↦ some (built format made)
  ]
