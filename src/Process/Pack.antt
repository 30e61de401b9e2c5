-- ===== src/Process/Pack.antt =====
-- crates/json-processing/src/process/pack.rs: `pack_into`. The files with their digests, split in
-- chunks, their reading, the detector of formats and the log of declared digests are parameters.
pub mod Tallies
pub mod Names
mod Tests
use archivindex_wbm.Common.{
  ℕ, suc, Bool, true, false, List, [], ◌∷◌, Option, none, some, Result, ok, err, Bytes,
  if◌then◌else◌,
}
use archivindex_wbm.Io.{Output, SnapshotWriter, write_snapshot}
use archivindex_wbm.Process.Skip.{
  SkipReason, Skipped, none_skipped, push, count_u64, read_verified, build_snapshot,
}
use archivindex_wbm.Process.{prefer_loop_error}
use archivindex_wbm.Snapshot.Recovery.Encoding.{Sha1}
use archivindex_wbm.Snapshot.{utf8, FormatInfo, Snapshot, Context, Fields}

pub record Summary : Type 0 where
  pub written_count : ℕ
  pub expected_digest_count : ℕ
  pub skipped_count : ℕ
  pub skipped : Skipped

-- `Summary::default()`.
abbrev pub nothing_packed : Summary
nothing_packed = record {
  written_count = 0;
  expected_digest_count = 0;
  skipped_count = 0;
  skipped = none_skipped;
}

-- The digest that a file is named by, and its path.
abbrev pub DataFile : Type 0
DataFile = Bytes × Bytes

module _ (fields : Fields) (sha1 : Sha1) {E : Type 0} (output : Output E)
    (broken : output.Writer → E × output.Writer) where
  open fields use {Timestamp, Metadata, no_metadata}
  open output use {finish}

  abbrev pub Prepared : Type 0
  Prepared = Result (Snapshot Timestamp Metadata × Bool) SkipReason

  -- `detect_format(&bytes).unwrap_or_default()`.
  unfoldable pub or_default : Option (FormatInfo Metadata) → FormatInfo Metadata
  or_default none = record { name = utf8; closing_whitespace = none; metadata = no_metadata }
  or_default (some format) = format

  -- The declared digest of the snapshot set, if there is one.
  unfoldable pub with_expected : Option Bytes → Snapshot Timestamp Metadata → Prepared
  with_expected none s = ok (s, false)
  with_expected (some expected) s = ok (record s { expected_digest = some expected }, true)

  -- `?` on what `build_snapshot` gives.
  unfoldable pub declare :
      Option Bytes → Option (Result (Snapshot Timestamp Metadata) SkipReason) → Option Prepared
  declare expected none = none
  declare expected (some (err reason)) = some (err reason)
  declare expected (some (ok s)) = some (with_expected expected s)

  module _ (read : Bytes → Result Bytes E) (expected_digests : Bytes → Option Bytes)
      (detect_format : Bytes → Option (FormatInfo Metadata)) where
    -- `prepare`.
    unfoldable pub prepare : Context Metadata → DataFile → Option Prepared
    prepare c (digest, path) = elim (read_verified fields sha1 (read path) digest) [
      | err reason ↦ some (err reason)
      | ok bytes ↦
          declare (expected_digests digest)
            (build_snapshot fields sha1 c (or_default (detect_format bytes)) bytes)
    ]

    -- The files of a chunk prepared, with their paths.
    unfoldable pub prepare_all : Context Metadata → List DataFile → Option (List (Bytes × Prepared))
    prepare_all c [] = some []
    prepare_all c (file ∷ files) = elim (prepare c file) [
      | none ↦ none
      | some outcome ↦ elim (prepare_all c files) [
        | none ↦ none
        | some outcomes ↦ some ((file.1, outcome) ∷ outcomes)
      ]
    ]

    abbrev pub Packing : Type 0
    Packing = Summary × Option E × SnapshotWriter fields sha1 output broken

    -- `if has_expected_digest`.
    unfoldable pub count_expected : Summary → Bool → Summary
    count_expected s has =
        if has then record s { expected_digest_count = suc s.expected_digest_count } else s

    -- The prepared snapshots of a chunk written, up to the first failure.
    unfoldable pub write_chunk :
        Summary → SnapshotWriter fields sha1 output broken → List (Bytes × Prepared) → Packing
    write_chunk s w [] = (s, none, w)
    write_chunk s w ((path, err reason) ∷ outcomes) =
        write_chunk (record s { skipped = push s.skipped reason path }) w outcomes
    write_chunk s w ((path, ok (snapshot, has)) ∷ outcomes) =
        let s' = count_expected s has in
        let (wrote, w') = write_snapshot fields sha1 output broken w snapshot in
        elim wrote [
          | err e ↦ (s', some e, w')
          | ok new ↦ write_chunk (record s' { written_count = suc s'.written_count }) w' outcomes
        ]

    -- The loop over the chunks.
    unfoldable pub pack_chunks :
        Context Metadata
        → Summary
        → SnapshotWriter fields sha1 output broken
        → List (List DataFile)
        → Option Packing
    pack_chunks c s w [] = some (s, none, w)
    pack_chunks c s w (chunk ∷ chunks) = elim (prepare_all c chunk) [
      | none ↦ none
      | some outcomes ↦
          let (s', failure, w') = write_chunk s w outcomes in
          elim failure [ some e ↦ some (s', some e, w') | none ↦ pack_chunks c s' w' chunks ]
    ]

    -- The count of the skipped files, the end of the output, and the error that counts.
    unfoldable pub finish_packing : Packing → Result Summary E
    finish_packing (s, failure, w) =
        prefer_loop_error (record s { skipped_count = count_u64 s.skipped }) failure
          (finish w.underlying).0

    -- `pack_into`, behind the scan of the directories.
    unfoldable pub pack_into :
        SnapshotWriter fields sha1 output broken → List (List DataFile) → Option (Result Summary E)
    pack_into w chunks = elim (pack_chunks w.context nothing_packed w chunks) [
      | none ↦ none
      | some packing ↦ some (finish_packing packing)
    ]
