-- ===== src/Io/ReadBack.antt =====
-- crates/json-processing/src/io: what a `SnapshotWriter` writes, a `SnapshotReader` reads.
use archivindex_wbm.Common.{
  ℕ, suc, Bool, true, false, ◌≡◌, List, [], ◌∷◌, ◌++◌, ◌≢◌, Option, none, some, Result, ok, err,
  Bytes, All, if◌then◌else◌,
}
use archivindex_wbm.Io.{Output, is_last, SnapshotWriter, write_snapshot}
use archivindex_wbm.Snapshot.Exact.Display.RoundTrip.{IsStorable}
use archivindex_wbm.Snapshot.Exact.Display.Written.{FieldLaws}
use archivindex_wbm.Snapshot.Exact.Display.{display}
use archivindex_wbm.Snapshot.Exact.Display.Unbroken.{IsUnbroken, IsOneLine}
use archivindex_wbm.Snapshot.Recovery.Encoding.{Sha1, is_text}
use archivindex_wbm.Snapshot.{Snapshot, Context, Fields}

-- An output that does not fail, with the bytes that were written.
pub record IsAppending {E : Type 0} (output : Output E) : Type 1 where
  pub bytes : output.Writer → Bytes
  pub write_all_lem :
      (w : output.Writer) (s : Bytes)
      → (u : output.Writer) × (output.write_all w s ≡ (none, u)) × (bytes u ≡ bytes w ++ s)

-- The reader of lines of the package `archivindex_lines`, which rejects blank lines and strips the end
-- of a line: a line of text without line breaks, which is not empty, is read up to its line feed.
pub record Lines (R : Type 0) : Type 1 where
  pub read : Bytes → List (Result Bytes R)
  pub read-nil : read [] ≡ []
  pub read-line :
      (line rest : Bytes)
      → IsUnbroken line
      → line ≢ []
      → is_text [] line ≡ true
      → read (line ++ (b'\n' ∷ rest)) ≡ ok line ∷ read rest

module _ (fields : Fields) (laws : FieldLaws fields) (sha1 : Sha1) {E : Type 0} (output : Output E)
    (broken : output.Writer → E × output.Writer) (appending : IsAppending output) where
  open fields use {Timestamp, Metadata}

  -- The snapshots whose digest is not the one of the snapshot before.
  abbrev pub kept :
      Option Bytes → List (Snapshot Timestamp Metadata) → List (Snapshot Timestamp Metadata)
  kept before [] = []
  kept before (s ∷ ss) =
      let rest = kept (some s.digest) ss in if is_last before s.digest then rest else s ∷ rest

  -- Snapshots that are storable, whose content and fields have no line breaks, and which are shown
  -- under `c` as text.
  abbrev pub AreStorable : Context Metadata → List (Snapshot Timestamp Metadata) → Type 0
  AreStorable c = All (λ s.
      IsStorable fields laws s
      × IsOneLine fields laws c s
      × ((text : Bytes) × (display fields c s ≡ some text) × (is_text [] text ≡ true)))

  -- A line is counted if it is a new one.
  abbrev count_new :
      Bool
      → Result ℕ E × SnapshotWriter fields sha1 output broken
      → Result ℕ E × SnapshotWriter fields sha1 output broken
  count_new new (err e, w) = (err e, w)
  count_new true (ok n, w) = (ok (suc n), w)
  count_new false (ok n, w) = (ok n, w)

  -- What is written behind a snapshot, unless it failed.
  abbrev and_then :
      Result Bool E × SnapshotWriter fields sha1 output broken
      → (SnapshotWriter fields sha1 output broken
          → Result ℕ E × SnapshotWriter fields sha1 output broken)
      → Result ℕ E × SnapshotWriter fields sha1 output broken
  and_then (err e, w) rest = (err e, w)
  and_then (ok new, w) rest = count_new new (rest w)

  -- Snapshots written in turn, up to the first failure: how many lines there are of them.
  abbrev pub write_all :
      SnapshotWriter fields sha1 output broken
      → List (Snapshot Timestamp Metadata)
      → Result ℕ E × SnapshotWriter fields sha1 output broken
  write_all w [] = (ok 0, w)
  write_all w (s ∷ ss) =
      and_then (write_snapshot fields sha1 output broken w s) (λ w'. write_all w' ss)
