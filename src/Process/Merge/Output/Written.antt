-- ===== src/Process/Merge/Output/Written.antt =====
-- crates/json-processing/src/process/merge.rs: what `merge_into` writes, and its summary.
use archivindex_wbm.Common.{
  ◌+◌, List, [], ◌∷◌, ◌++◌, ◌≡◌, refl, ap, Option, none, some, Result, ok, err, Bytes, length, map,
  arith, append_assoc, append-nil,
}
use archivindex_wbm.Process.Merge.Iterator.{Entry}
use archivindex_wbm.Process.Merge.Output.Values.{values, values-IsSorted}
use archivindex_wbm.Process.Merge.Output.{
  Finish, is_both, push_collision, sum_up, into_io, merge_loop, finish_merge, merge_into,
}
use archivindex_wbm.Process.Merge.Union.{IsSorted}
use archivindex_wbm.Process.Merge.Verdict.Lines.{IsVerdict}
use archivindex_wbm.Process.Merge.Verdict.Outcome.{yielded, merge-IsVerdict}
use archivindex_wbm.Process.Merge.Verdict.{firsts, seconds}
use archivindex_wbm.Process.Merge.{
  only_first, only_second, matched, collided, Summary, no_summary, value, source, Collision,
  collision, add, Error, Line, first_side, second_side, open_file,
}
use archivindex_wbm.Process.{prefer_loop_error}

-- The digests of entries of both inputs, and the collisions.
abbrev pub pairs : List Entry → List Bytes
pairs [] = []
pairs ((digest, only_first v) ∷ entries) = pairs entries
pairs ((digest, only_second v) ∷ entries) = pairs entries
pairs ((digest, matched v) ∷ entries) = digest ∷ pairs entries
pairs ((digest, collided c) ∷ entries) = digest ∷ pairs entries

abbrev pub collisions : List Entry → List Collision
collisions [] = []
collisions ((digest, only_first v) ∷ entries) = collisions entries
collisions ((digest, only_second v) ∷ entries) = collisions entries
collisions ((digest, matched v) ∷ entries) = collisions entries
collisions ((digest, collided c) ∷ entries) = c ∷ collisions entries

-- A summary `t` that adds the entries to `s`.
pub record IsSum (s : Summary) (entries : List Entry) (t : Summary) : Type 0 where
  pub counts_first :
      t.counts.first + t.counts.both ≡ s.counts.first + s.counts.both + length (firsts entries)
  pub counts_second :
      t.counts.second + t.counts.both ≡ s.counts.second + s.counts.both + length (seconds entries)
  pub counts_both : t.counts.both ≡ s.counts.both + length (pairs entries)
  pub both : t.both ≡ s.both ++ pairs entries
  pub collisions : t.collisions ≡ s.collisions ++ collisions entries

sum_up-IsSum :
    (s : Summary) (entry : Entry) (entries : List Entry) (t : Summary)
    → IsSum (sum_up s entry) entries t
    → IsSum s (entry ∷ entries) t
unfolding sum_up add source is_both push_collision collision
sum_up-IsSum s (digest, only_first v) entries t h = record {
  counts_first = omega (arith, h.counts_first);
  counts_second = omega (arith, h.counts_second);
  counts_both = omega (arith, h.counts_both);
  both = h.both;
  collisions = h.collisions;
}
sum_up-IsSum s (digest, only_second v) entries t h = record {
  counts_first = omega (arith, h.counts_first);
  counts_second = omega (arith, h.counts_second);
  counts_both = omega (arith, h.counts_both);
  both = h.both;
  collisions = h.collisions;
}
sum_up-IsSum s (digest, matched v) entries t h = record {
  counts_first = omega (arith, h.counts_first);
  counts_second = omega (arith, h.counts_second);
  counts_both = omega (arith, h.counts_both);
  both = rw append_assoc at h.both;
  collisions = h.collisions;
}
sum_up-IsSum s (digest, collided c) entries t h = record {
  counts_first = omega (arith, h.counts_first);
  counts_second = omega (arith, h.counts_second);
  counts_both = omega (arith, h.counts_both);
  both = rw append_assoc at h.both;
  collisions = rw append_assoc at h.collisions;
}

-- The result of a merge that ends without an error, or with one.
abbrev pub outcome : {E : Type 0} → Summary → Option (Error E) → Result Summary (Error E)
outcome s none = ok s
outcome s (some e) = err e

module _ {E : Type 0} (output : Finish E) where
  open output use {Writer, write_line, finish}

  -- A writer that does not fail, and holds the lines that were written.
  pub record IsWriting : Type 0 where
    pub text : Writer → List Bytes
    pub write_line_lem :
        (w : Writer) (line : Bytes)
        → (w' : Writer) × (write_line w line ≡ (none, w')) × (text w' ≡ text w ++ line ∷ [])
    pub finish_lem : (w : Writer) → (w' : Writer) × (finish w ≡ (none, w')) × (text w' ≡ text w)

  module _ (writing : IsWriting) where
    merge_loop-IsSum :
        (s : Summary) (w : Writer) (entries : List Entry) (end : Option (Error E))
        → (t : Summary) × (w' : Writer) × (merge_loop output s w (yielded entries end)
            ≡ (t, end, w'))
          × (writing.text w' ≡ writing.text w ++ values entries)
          × IsSum s entries t
    unfolding merge_loop
    merge_loop-IsSum s w [] none = (
      s,
      w,
      refl,
      rw append-nil,
      record {
        counts_first = omega arith;
        counts_second = omega arith;
        counts_both = omega arith;
        both = rw append-nil;
        collisions = rw append-nil;
      },
    )
    merge_loop-IsSum s w [] (some e) = (
      s,
      w,
      refl,
      rw append-nil,
      record {
        counts_first = omega arith;
        counts_second = omega arith;
        counts_both = omega arith;
        both = rw append-nil;
        collisions = rw append-nil;
      },
    )
    merge_loop-IsSum s w (entry ∷ entries) end =
        let (w1, written, text1) = writing.write_line_lem w (value entry.1) in
        let (t, w', rest, text', sums) = merge_loop-IsSum (sum_up s entry) w1 entries end in
        let is_written : (write_line w (value entry.1)).0 ≡ none = ap (λ p. p.0) written in
        let next_writer : (write_line w (value entry.1)).1 ≡ w1 = ap (λ p. p.1) written in
        (
          t,
          w',
          rw (merge_loop, is_written, next_writer) rest,
          rw (text', text1, append_assoc),
          sum_up-IsSum s entry entries t sums,
        )

    pub merge_into-IsVerdict :
        (parse_digest : Bytes → Option Bytes) (xs ys : List (Line E)) (w : Writer)
        → (entries : List Entry) × (end : Option (Error E)) × (t : Summary) × (w' : Writer)
          × (merge_into output parse_digest xs ys w ≡ some (outcome t end, w'))
          × (writing.text w' ≡ writing.text w ++ values entries)
          × IsSum no_summary entries t
          × IsVerdict parse_digest
              (open_file first_side xs)
              (open_file second_side ys)
              none
              entries
              end
    unfolding merge_into finish_merge prefer_loop_error into_io
    merge_into-IsVerdict parse_digest xs ys w =
        let (entries, end, merges, v) = merge-IsVerdict parse_digest xs ys in
        let (t, w1, loops, text1, sums) = merge_loop-IsSum no_summary w entries end in
        let (w', finishes, text') = writing.finish_lem w1 in
        let is_finished : (finish w1).0 ≡ none = ap (λ p. p.0) finishes in
        let next_writer : (finish w1).1 ≡ w' = ap (λ p. p.1) finishes in
        (
          entries,
          end,
          t,
          w',
          rw (merge_into, merges, loops, finish_merge, is_finished, next_writer)
              (ap (λ r. some (r, w')) (ended t end)),
          rw (text', text1),
          sums,
          v,
        )
      where
        ended :
            (t : Summary) (end : Option (Error E))
            → prefer_loop_error t end (into_io none) ≡ outcome t end
        ended t none = refl
        ended t (some e) = refl

    -- With a writer that does not fail, and an output that holds nothing, the lines that are written
    -- are in strictly ascending order of their digests whatever the inputs are.
    pub merge_into-IsSorted :
        (parse_digest : Bytes → Option Bytes) (xs ys : List (Line E)) (w : Writer)
        → writing.text w ≡ []
        → (r : Result Summary (Error E)) × (w' : Writer) × (merge_into output parse_digest xs ys w
            ≡ some (r, w'))
          × IsSorted parse_digest {E = E} none (map ok (writing.text w'))
    merge_into-IsSorted parse_digest xs ys w empty =
        let (entries, end, t, w', merges, text', sums, v) =
          merge_into-IsVerdict parse_digest xs ys w in
        (
          outcome t end,
          w',
          merges,
          rw (text', empty) (values-IsSorted E parse_digest entries 0 0 none v.union),
        )
