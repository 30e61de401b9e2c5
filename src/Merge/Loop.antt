-- ===== src/Merge/Loop.antt =====
-- crates/json-processing/src/stream/merge.rs: `drain_before`, `passthrough_if_match`, `drain_rest` and
-- `run_merge_loop`. The loops over a stream are recursion on the items that it still yields.
pub mod Passthrough
mod Tests
use archivindex_wbm.Common.Results
use archivindex_wbm.Common.Results.{◌>>=◌}
use archivindex_wbm.Common.{
  ℕ, ◌+◌, Bool, true, false, not, ◌&&◌, ◌||◌, List, [], ◌∷◌, ◌++◌, Option, none, some, Result, ok,
  err, Bytes, bytes_eq, reverse, leb, ◌==◌, if◌then◌else◌,
}
use archivindex_wbm.Merge.{
  Source, new_input, MergeError, stream_error, order, NewSnapshotTarget, to_first, to_second,
  to_none, Item, PeekedStream, Sink, take_next, peek_digest, next_item, next, write_existing,
  write_new,
}
use archivindex_wbm.Snapshot.Recovery.Encoding.{Sha1, has_line_break}
use archivindex_wbm.Snapshot.Validation.{digest_lt, is_after}
use archivindex_wbm.Snapshot.{Snapshot}

-- The characters of Unicode's `White_Space`, in UTF-8.
pub is_space1 : ℕ → Bool
is_space1 c = c == 0x20 || (leb 9 c && leb c 13)

pub is_space2 : ℕ → ℕ → Bool
is_space2 c d = c == 0xc2 && (d == 0x85 || d == 0xa0)

pub is_space3 : ℕ → ℕ → ℕ → Bool
is_space3 c d e =
    (c == 0xe1 && (d == 0x9a && e == 0x80))
    || (c == 0xe2
        && (d == 0x80 && ((leb 0x80 e && leb e 0x8a) || e == 0xa8 || e == 0xa9 || e == 0xaf)))
    || (c == 0xe2 && (d == 0x81 && e == 0x9f))
    || (c == 0xe3 && (d == 0x80 && e == 0x80))

-- `str::trim_end`, on the bytes backwards.
pub trim_reversed : Bytes → Bytes
trim_reversed [] = []
trim_reversed (e ∷ []) = if is_space1 e then [] else e ∷ []
trim_reversed (e ∷ d ∷ []) =
    let rest = trim_reversed (d ∷ []) in
    if is_space1 e then rest else if is_space2 d e then [] else e ∷ d ∷ []
trim_reversed (e ∷ d ∷ c ∷ s) =
    let rest1 = trim_reversed (d ∷ c ∷ s) in
    let rest2 = trim_reversed (c ∷ s) in
    let rest3 = trim_reversed s in
    if is_space1 e
    then rest1
    else if is_space2 d e
    then rest2
    else if is_space3 c d e
    then rest3
    else e ∷ d ∷ c ∷ s

pub trim_end : Bytes → Bytes
trim_end s = reverse (trim_reversed (reverse s))

-- `peek_digest()? == Some(digest)`.
pub is_match : Option Bytes → Bytes → Bool
is_match none digest = false
is_match (some peeked) digest = bytes_eq peeked digest

-- A stream with its sink and the count of what was passed through.
pub record Lane (Timestamp Metadata E : Type 0) : Type 0 where
  pub stream : PeekedStream Timestamp Metadata E
  pub sink : Sink Timestamp Metadata E
  pub count : ℕ

module _ {Timestamp Metadata E : Type 0} where
  -- Behind `next`: `sink.write_existing(snapshot)` and `*count += 1`.
  pub pass :
      Lane Timestamp Metadata E
      → Snapshot Timestamp Metadata
      → PeekedStream Timestamp Metadata E
      → Result (Lane Timestamp Metadata E) (MergeError E)
  pass l s t = write_existing l.sink s >>= λ sink.
      ok (record { stream = t; sink = sink; count = l.count + 1 })

  pub drain_before_on :
      Bytes
      → List (Item Timestamp Metadata E)
      → Lane Timestamp Metadata E
      → Result (Lane Timestamp Metadata E) (MergeError E)
  drain_before_on target [] l =
      let t = l.stream in ok (record l { stream = record t { inner = []; peeked = none } })
  drain_before_on target (err e ∷ xs) l = err (stream_error e)
  drain_before_on target (ok s ∷ xs) l =
      let t = l.stream in
      if digest_lt s.digest target
      then (next_item t (some (ok s), xs) >>= λ n.
          pass l s n.1 >>= λ l'. drain_before_on target xs l')
      else ok (record l { stream = record t { inner = xs; peeked = some (ok s) } })

  -- The items that a stream still yields.
  pub items : PeekedStream Timestamp Metadata E → List (Item Timestamp Metadata E)
  items t = elim t.peeked [ none ↦ t.inner | some x ↦ x ∷ t.inner ]

  pub drain_before :
      Bytes → Lane Timestamp Metadata E → Result (Lane Timestamp Metadata E) (MergeError E)
  drain_before target l = drain_before_on target (items l.stream) l

  -- `passthrough_if_match`. Behind a peeked digest `next` gives a snapshot, so `expect` is not met.
  pub passthrough_if_match :
      Bytes → Lane Timestamp Metadata E → Result (Bool × Lane Timestamp Metadata E) (MergeError E)
  passthrough_if_match digest l = peek_digest l.stream >>= λ p.
      if is_match p.0 digest
      then (next p.1 >>= λ n. elim n.0 [
        | none ↦ ok (false, record l { stream = n.1 })
        | some s ↦ pass l s n.1 >>= λ l'. ok (true, l')
      ])
      else ok (false, record l { stream = p.1 })

  pub drain_rest_on :
      List (Item Timestamp Metadata E)
      → Lane Timestamp Metadata E
      → Result (Lane Timestamp Metadata E) (MergeError E)
  drain_rest_on [] l =
      let t = l.stream in ok (record l { stream = record t { inner = []; peeked = none } })
  drain_rest_on (x ∷ xs) l = next_item l.stream (some x, xs) >>= λ n. elim n.0 [
    | none ↦ ok (record l { stream = n.1 })
    | some s ↦ pass l s n.1 >>= λ l'. drain_rest_on xs l'
  ]

  pub drain_rest : Lane Timestamp Metadata E → Result (Lane Timestamp Metadata E) (MergeError E)
  drain_rest l = drain_rest_on (items l.stream) l

-- `stats`, with the two lanes: the numbers of new snapshots and of skipped ones are here.
pub record Merging (Timestamp Metadata E : Type 0) : Type 0 where
  pub first : Lane Timestamp Metadata E
  pub second : Lane Timestamp Metadata E
  pub first_new : ℕ
  pub second_new : ℕ
  pub skipped : ℕ

-- The files by their paths, and the caller's classifier.
module _ {Timestamp Metadata E File : Type 0} (sha1 : Sha1) (read_to_string : File → Option Bytes)
    (classify : Bytes → NewSnapshotTarget) where
  open sha1 use {start, update, finalize}

  pub write_target :
      NewSnapshotTarget
      → Bytes
      → Bytes
      → Merging Timestamp Metadata E
      → Result (Merging Timestamp Metadata E) (MergeError E)
  write_target to_first digest content m =
      let l = m.first in
      write_new l.sink digest content >>= λ sink.
      ok (record m { first = record l { sink = sink }; first_new = m.first_new + 1 })
  write_target to_second digest content m =
      let l = m.second in
      write_new l.sink digest content >>= λ sink.
      ok (record m { second = record l { sink = sink }; second_new = m.second_new + 1 })
  write_target to_none digest content m = ok (record m { skipped = m.skipped + 1 })

  -- The arms on the content of the file.
  pub merge_content :
      Option Bytes
      → Bytes
      → Merging Timestamp Metadata E
      → Result (Merging Timestamp Metadata E) (MergeError E)
  merge_content none digest m = ok (record m { skipped = m.skipped + 1 })
  merge_content (some content) digest m =
      if not (bytes_eq (finalize (update start content)) digest)
      then ok (record m { skipped = m.skipped + 1 })
      else if has_line_break (trim_end content)
      then ok (record m { skipped = m.skipped + 1 })
      else write_target (classify content) digest content m

  -- The body of the loop, behind the check of the order.
  pub merge_entry :
      Bytes
      → File
      → Merging Timestamp Metadata E
      → Result (Merging Timestamp Metadata E) (MergeError E)
  merge_entry digest path m = do
    first ← drain_before digest m.first
    second ← drain_before digest m.second
    (in_first, first') ← passthrough_if_match digest first
    (in_second, second') ←
        (if in_first then ok (false, second) else passthrough_if_match digest second)
    let m' = record m { first = first'; second = second' }
    if in_first || in_second then ok m' else merge_content (read_to_string path) digest m'

  pub merge_entries :
      List (Bytes × File)
      → Option Bytes
      → ℕ
      → Merging Timestamp Metadata E
      → Result (Merging Timestamp Metadata E) (MergeError E)
  merge_entries [] previous index m = ok m
  merge_entries (e ∷ es) previous index m =
      if is_after previous e.0
      then (merge_entry e.0 e.1 m >>= λ m'. merge_entries es (some e.0) (index + 1) m')
      else err (order new_input (index + 1) e.0)

  -- `run_merge_loop`, with the streams and the sinks behind it.
  pub run_merge_loop :
      List (Bytes × File)
      → Merging Timestamp Metadata E
      → Result (Merging Timestamp Metadata E) (MergeError E)
  run_merge_loop entries m = do
    m' ← merge_entries entries none 0 m
    first ← drain_rest m'.first
    second ← drain_rest m'.second
    ok (record m' { first = first; second = second })
