-- ===== src/Process/Pack/Tallies.antt =====
-- crates/json-processing/src/process/pack.rs, skip.rs: what the counts of `pack_into` say, and by what
-- digest a snapshot that is prepared goes.
use archivindex_wbm.Common.{
  ℕ, ◌+◌, true, ◌≡◌, List, Option, none, some, Result, ok, err, Bytes, length, leb, sum, map,
}
use archivindex_wbm.Io.{Output, SnapshotWriter}
use archivindex_wbm.Process.Pack.{Summary, DataFile, Packing}
use archivindex_wbm.Process.Skip.{count, count_u64}
use archivindex_wbm.Snapshot.Recovery.Encoding.{Sha1}
use archivindex_wbm.Snapshot.{FormatInfo, Snapshot, Fields}

-- The files that a summary accounts for.
abbrev pub total : Summary → ℕ
total s = s.written_count + count s.skipped

-- No more snapshots with a declared digest than snapshots.
abbrev pub IsBounded : Summary → Type 0
IsBounded s = leb s.expected_digest_count s.written_count ≡ true

-- How many files there are in the chunks.
abbrev pub files_in : List (List DataFile) → ℕ
files_in chunks = sum (map length chunks)

-- A failure, or a summary that accounts for `n` files.
pub data IsTally (n : ℕ) {E : Type 0} : Result Summary E → Type 0 where
  failed : (e : E) → IsTally n (err e)
  tallied :
      (s : Summary)
      → total s ≡ n
      → IsBounded s
      → s.skipped_count ≡ count_u64 s.skipped
      → IsTally n (ok s)

module _ (fields : Fields) (sha1 : Sha1) {E : Type 0} (output : Output E)
    (broken : output.Writer → E × output.Writer) (read : Bytes → Result Bytes E)
    (expected_digests : Bytes → Option Bytes)
    (detect_format : Bytes → Option (FormatInfo fields.Metadata)) where
  open fields use {Timestamp, Metadata}

  -- The loop went on, and accounts for `n` files; or it broke.
  data IsStep (n : ℕ)
      : Packing fields sha1 output broken read expected_digests detect_format → Type 0 where
    going :
        (s : Summary) (w : SnapshotWriter fields sha1 output broken)
        → total s ≡ n
        → IsBounded s
        → IsStep n (s, none, w)
    broke :
        (s : Summary) (e : E) (w : SnapshotWriter fields sha1 output broken)
        → IsStep n (s, some e, w)
