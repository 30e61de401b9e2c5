-- ===== src/Merge.antt =====
-- crates/json-processing/src/stream/merge.rs: the merge of new snapshot files into two sorted streams,
-- with an await as a call and the items that a stream yields in turn as a list. What was sent before an
-- error is not part of the result.
pub mod Loop
use archivindex_wbm.Common.Results.{◌>>=◌}
use archivindex_wbm.Common.{
  ℕ, ◌+◌, ◌-◌, Bool, true, false, not, List, [], ◌∷◌, ◌++◌, Option, none, some, Result, ok, err,
  Bytes, bytes_eq, ◌==◌, if◌then◌else◌,
}
use archivindex_wbm.Snapshot.Validation.{digest_lt, is_after}
use archivindex_wbm.Snapshot.{Snapshot}

pub data Source : Type 0 where
  first_input : Source
  second_input : Source
  new_input : Source

-- `Error`, with a failure to read a snapshot, less the failures of files and threads.
pub data MergeError (E : Type 0) : Type 0 where
  stream_error : E → MergeError E
  order : Source → ℕ → Bytes → MergeError E
  writer_channel_closed : MergeError E

pub data NewSnapshotTarget : Type 0 where
  to_first : NewSnapshotTarget
  to_second : NewSnapshotTarget
  to_none : NewSnapshotTarget

module _ (Timestamp Metadata E : Type 0) where
  abbrev pub Item : Type 0
  Item = Result (Snapshot Timestamp Metadata) E

  pub record PeekedStream : Type 0 where
    pub inner : List Item
    pub peeked : Option Item
    pub source : Source
    pub previous : Option Bytes
    pub line_number : ℕ

  -- `WriteCommand`, less `Abort`, which no loop sends.
  pub data WriteCommand : Type 0 where
    existing : Snapshot Timestamp Metadata → WriteCommand
    new : Bytes → Bytes → WriteCommand

  -- A sink: the commands that the writer received, and how many more it takes before it stops.
  pub record Sink : Type 0 where
    pub sent : List WriteCommand
    pub room : ℕ

module _ {Timestamp Metadata E : Type 0} where
  -- `PeekedStream::new`.
  abbrev pub open_stream :
      List (Item Timestamp Metadata E) → Source → PeekedStream Timestamp Metadata E
  open_stream inner source = record {
    inner = inner;
    peeked = none;
    source = source;
    previous = none;
    line_number = 0;
  }

  -- `self.peeked.take()`, or else `self.inner.next()`.
  pub take_next :
      Option (Item Timestamp Metadata E)
      → List (Item Timestamp Metadata E)
      → Option (Item Timestamp Metadata E) × List (Item Timestamp Metadata E)
  take_next (some x) xs = (some x, xs)
  take_next none [] = (none, [])
  take_next none (x ∷ xs) = (some x, xs)

  -- `PeekedStream::peek_digest`, on the item that is there.
  pub peek_item :
      PeekedStream Timestamp Metadata E
      → Option (Item Timestamp Metadata E) × List (Item Timestamp Metadata E)
      → Result (Option Bytes × PeekedStream Timestamp Metadata E) (MergeError E)
  peek_item t (none, rest) = ok (none, record t { inner = rest; peeked = none })
  peek_item t (some (err e), rest) = err (stream_error e)
  peek_item t (some (ok s), rest) =
      ok (some s.digest, record t { inner = rest; peeked = some (ok s) })

  pub peek_digest :
      PeekedStream Timestamp Metadata E
      → Result (Option Bytes × PeekedStream Timestamp Metadata E) (MergeError E)
  peek_digest t = peek_item t (take_next t.peeked t.inner)

  -- `PeekedStream::next`, on the item that is there. In the order of digests, `digest <= previous`
  -- is that `digest` is not after `previous`.
  pub next_item :
      PeekedStream Timestamp Metadata E
      → Option (Item Timestamp Metadata E) × List (Item Timestamp Metadata E)
      → Result
          (Option (Snapshot Timestamp Metadata) × PeekedStream Timestamp Metadata E)
          (MergeError E)
  next_item t (none, rest) = ok (none, record t { inner = rest; peeked = none })
  next_item t (some (err e), rest) = err (stream_error e)
  next_item t (some (ok s), rest) =
      if is_after t.previous s.digest
      then ok (
        some s,
        record t {
          inner = rest;
          peeked = none;
          previous = some s.digest;
          line_number = t.line_number + 1;
        },
      )
      else err (order t.source (t.line_number + 1) s.digest)

  pub next :
      PeekedStream Timestamp Metadata E
      → Result
          (Option (Snapshot Timestamp Metadata) × PeekedStream Timestamp Metadata E)
          (MergeError E)
  next t = next_item t (take_next t.peeked t.inner)

  -- `self.tx.send(command)`.
  pub send :
      Sink Timestamp Metadata E
      → WriteCommand Timestamp Metadata E
      → Result (Sink Timestamp Metadata E) (MergeError E)
  send sink command =
      if sink.room == 0
      then err writer_channel_closed
      else ok (record { sent = sink.sent ++ command ∷ []; room = sink.room - 1 })

  -- `AsyncSnapshotSink::write_existing`.
  pub write_existing :
      Sink Timestamp Metadata E
      → Snapshot Timestamp Metadata
      → Result (Sink Timestamp Metadata E) (MergeError E)
  write_existing sink s = send sink (existing s)

  -- `AsyncSnapshotSink::write_new`.
  pub write_new :
      Sink Timestamp Metadata E → Bytes → Bytes → Result (Sink Timestamp Metadata E) (MergeError E)
  write_new sink digest content = send sink (new digest content)
