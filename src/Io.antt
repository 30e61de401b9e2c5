-- ===== src/Io.antt =====
-- crates/json-processing/src/io/write.rs and read.rs: `SnapshotWriter` and `SnapshotReader`. The output
-- below the writer, and the lines that `archivindex_lines` reads, are parameters. A text that cannot be
-- formatted leaves the output as `broken` says.
pub mod ReadBack
pub mod Samples
mod Tests
use archivindex_wbm.Common.{
  Bool, true, false, List, [], ◌∷◌, ◌++◌, Option, none, some, Result, ok, err, Bytes, bytes_eq,
  if◌then◌else◌,
}
use archivindex_wbm.Snapshot.Exact.Display.{display}
use archivindex_wbm.Snapshot.Exact.{Error, parse}
use archivindex_wbm.Snapshot.Recovery.Encoding.{Sha1, SnapshotError, unprocessed_snapshot}
use archivindex_wbm.Snapshot.{Snapshot, Context, Fields, utf8}

-- `write::Error`.
pub data WriteError (E : Type 0) : Type 0 where
  io : E → WriteError E
  snapshot : SnapshotError → WriteError E

-- `read::Error`.
pub data ReadError (E : Type 0) : Type 0 where
  read : E → ReadError E
  invalid_line : Bytes → ReadError E

-- `Write::write_all`, which may fail, and `Finish::finish`.
pub record Output (E : Type 0) : Type 1 where
  pub Writer : Type 0
  pub write_all : Writer → Bytes → Option E × Writer
  pub finish : Writer → Option E × Writer

-- `Some(digest) == self.last_written`.
unfoldable pub is_last : Option Bytes → Bytes → Bool
is_last none digest = false
is_last (some last) digest = bytes_eq digest last

module _ (fields : Fields) (sha1 : Sha1) {E : Type 0} (output : Output E)
    (broken : output.Writer → E × output.Writer) where
  open fields use {Timestamp, Metadata}
  open output use {Writer, write_all}

  pub record SnapshotWriter : Type 0 where
    pub last_written : Option Bytes
    pub underlying : Writer
    pub context : Context Metadata

  -- `SnapshotWriter::new`.
  abbrev pub open_writer : Writer → Context Metadata → SnapshotWriter
  open_writer underlying context = record {
    last_written = none;
    underlying = underlying;
    context = context;
  }

  -- `writeln!(self.underlying, "{}", ..)`, on the text that there may be: its bytes, whatever they
  -- are, and a line feed.
  unfoldable pub write_text : Writer → Option Bytes → Option E × Writer
  write_text w none = let (e, w') = broken w in (some e, w')
  write_text w (some text) = write_all w (text ++ b'\n' ∷ [])

  -- What is left to do behind `writeln!`.
  unfoldable pub written :
      SnapshotWriter → Bytes → Option E × Writer → Result Bool E × SnapshotWriter
  written w digest (none, underlying) =
      (ok true, record w { last_written = some digest; underlying = underlying })
  written w digest (some e, underlying) = (err e, record w { underlying = underlying })

  -- `SnapshotWriter::write_snapshot`.
  unfoldable pub write_snapshot :
      SnapshotWriter → Snapshot Timestamp Metadata → Result Bool E × SnapshotWriter
  write_snapshot w s =
      if is_last w.last_written s.digest
      then (ok false, w)
      else written w s.digest (write_text w.underlying (display fields w.context s))

  -- `?` on the error of the output.
  unfoldable pub into_write :
      Result Bool E × SnapshotWriter → Result Bool (WriteError E) × SnapshotWriter
  into_write (ok b, w) = (ok b, w)
  into_write (err e, w) = (err (io e), w)

  -- `SnapshotWriter::write`, on the snapshot that the bytes make.
  unfoldable pub write_made :
      SnapshotWriter
      → Result (Snapshot Timestamp Metadata) SnapshotError
      → Result Bool (WriteError E) × SnapshotWriter
  write_made w (err e) = (err (snapshot e), w)
  write_made w (ok s) =
      into_write (written w s.digest (write_text w.underlying (display fields w.context s)))

  -- `SnapshotWriter::write`: a panic is `none`.
  unfoldable pub write :
      SnapshotWriter → Bytes → Bytes → Option (Result Bool (WriteError E) × SnapshotWriter)
  write w digest bytes =
      if is_last w.last_written digest
      then some (ok false, w)
      else elim (unprocessed_snapshot fields sha1 w.context utf8 bytes) [
        | none ↦ none
        | some made ↦ some (write_made w made)
      ]

module _ (fields : Fields) where
  open fields use {Timestamp, Metadata}

  -- `SnapshotReader::next`, on what reading a line gives.
  unfoldable pub next_snapshot :
      {E : Type 0} → Result Bytes E → Result (Snapshot Timestamp Metadata) (ReadError E)
  next_snapshot (err e) = err (read e)
  next_snapshot (ok line) = elim (parse fields line) [
    | err e ↦ err (invalid_line line)
    | ok s ↦ ok s
  ]

  -- What a `SnapshotReader` yields in turn.
  unfoldable pub snapshots :
      {E : Type 0}
      → List (Result Bytes E)
      → List (Result (Snapshot Timestamp Metadata) (ReadError E))
  snapshots [] = []
  snapshots (line ∷ lines) = next_snapshot line ∷ snapshots lines
