-- ===== src/Merge/Loop/Passthrough/Merged.antt =====
-- crates/json-processing/src/stream/merge.rs: `run_merge_loop` loses, adds and reorders no snapshot of
-- its streams.
use archivindex_wbm.Common.Results.{>>=-ok}
use archivindex_wbm.Common.{
  ℕ, ◌+◌, List, [], ◌∷◌, ◌≡◌, ◌∙◌, Option, none, some, ok, Bytes, bytes_eq, map, append-nil,
  Bool-cases, inl, inr,
}
use archivindex_wbm.Merge.Loop.{
  items, drain_before, passthrough_if_match, drain_rest, Merging, merge_content, merge_entry,
  merge_entries, run_merge_loop, trim_end,
}
use archivindex_wbm.Merge.{NewSnapshotTarget}
use archivindex_wbm.Snapshot.Recovery.Encoding.{Sha1, has_line_break}
use archivindex_wbm.Snapshot.Validation.{is_after}
use archivindex_wbm.Snapshot.{Snapshot}
use archivindex_wbm.Merge.Loop.Passthrough.{ok-eq, Passes, Passes-trans}
use archivindex_wbm.Merge.Loop.Passthrough.Entries.{
  drain_before-Passed, drain_rest-Passed, passthrough_if_match-Passed, PassedBoth, PassedBoth-trans,
  Passed-refl, write_target-PassedBoth,
}

module _ {Timestamp Metadata E File : Type 0} (sha1 : Sha1) (read_to_string : File → Option Bytes)
    (classify : Bytes → NewSnapshotTarget) where
  open sha1 use {start, update, finalize}

  merge_content-PassedBoth :
      (read : Option Bytes) (digest : Bytes) (m m' : Merging Timestamp Metadata E)
      → merge_content sha1 read_to_string classify read digest m ≡ ok m'
      → PassedBoth m m'
  unfolding merge_content PassedBoth
  merge_content-PassedBoth none digest m m' h =
      rw (← ok-eq h) (Passed-refl m.first, Passed-refl m.second)
  merge_content-PassedBoth (some content) digest m m' h =
      elim (Bool-cases (bytes_eq (finalize (update start content)) digest)) [
        | inr differs ↦ rw (← ok-eq (rw differs at h)) (Passed-refl m.first, Passed-refl m.second)
        | inl same ↦ elim (Bool-cases (has_line_break (trim_end content))) [
          | inl has ↦ rw (← ok-eq (rw (same, has) at h)) (Passed-refl m.first, Passed-refl m.second)
          | inr clean ↦
              write_target-PassedBoth sha1 read_to_string classify (classify content) digest content
                m m' (rw (same, clean) at h)
        ]
      ]

  merge_entry-PassedBoth :
      (digest : Bytes) (path : File) (m m' : Merging Timestamp Metadata E)
      → merge_entry sha1 read_to_string classify digest path m ≡ ok m'
      → PassedBoth m m'
  unfolding merge_entry PassedBoth
  merge_entry-PassedBoth digest path m m' h =
      let (f, h1, df) = >>=-ok _ (drain_before digest m.first) h in
      let (s, h2, ds) = >>=-ok _ (drain_before digest m.second) h1 in
      let (pf, h3, hf) = >>=-ok _ (passthrough_if_match digest f) h2 in
      let first =
        Passes-trans m.first f pf.1 (drain_before-Passed digest m.first f df)
          (passthrough_if_match-Passed digest f pf.1 pf.0 hf) in
      let drained = drain_before-Passed digest m.second s ds in
      elim (Bool-cases pf.0) [
        | inl hit ↦ let e = ok-eq (rw hit at h3) in rw (← e) (first, drained)
        | inr miss ↦
            let (ps, h4, hs) = >>=-ok _ (passthrough_if_match digest s) (rw miss at h3) in
            let second =
              Passes-trans m.second s ps.1 drained
                (passthrough_if_match-Passed digest s ps.1 ps.0 hs) in
            elim (Bool-cases ps.0) [
              | inl hit ↦ let e = ok-eq (rw hit at h4) in rw (← e) (first, second)
              | inr missed ↦
                  let mid = record m { first = pf.1; second = ps.1 } in
                  PassedBoth-trans m mid m' (first, second)
                    (merge_content-PassedBoth (read_to_string path) digest mid m' (rw missed at h4))
            ]
      ]

  merge_entries-PassedBoth :
      (entries : List (Bytes × File)) (previous : Option Bytes) (index : ℕ)
      (m m' : Merging Timestamp Metadata E)
      → merge_entries sha1 read_to_string classify entries previous index m ≡ ok m'
      → PassedBoth m m'
  unfolding merge_entries PassedBoth
  merge_entries-PassedBoth [] previous index m m' h =
      rw (← ok-eq h) (Passed-refl m.first, Passed-refl m.second)
  merge_entries-PassedBoth (e ∷ es) previous index m m' h =
      elim (Bool-cases (is_after previous e.0)) [
        | inr early ↦ let refused = rw early at h in cc
        | inl after ↦
            let (n, h1, merged) =
              >>=-ok _ (merge_entry sha1 read_to_string classify e.0 e.1 m) (rw after at h) in
            PassedBoth-trans m n m' (merge_entry-PassedBoth e.0 e.1 m n merged)
              (merge_entries-PassedBoth es (some e.0) (index + 1) n m' h1)
      ]

  -- A merge that ends without an error has passed every item of both streams through: the items were
  -- snapshots in strictly ascending order, the sinks received them in that order beside the new
  -- snapshots, and the counts are their numbers.
  pub run_merge_loop-Passes :
      (entries : List (Bytes × File)) (m m' : Merging Timestamp Metadata E)
      → run_merge_loop sha1 read_to_string classify entries m ≡ ok m'
      → ((ss : List (Snapshot Timestamp Metadata)) × Passes ss m.first m'.first
          × (items m.first.stream ≡ map ok ss))
        × ((ss : List (Snapshot Timestamp Metadata)) × Passes ss m.second m'.second
            × (items m.second.stream ≡ map ok ss))
  unfolding run_merge_loop PassedBoth
  run_merge_loop-Passes entries m m' h =
      let (n, h1, merged) =
        >>=-ok _ (merge_entries sha1 read_to_string classify entries none 0 m) h in
      let (f, h2, df) = >>=-ok _ (drain_rest n.first) h1 in
      let (s, h3, ds) = >>=-ok _ (drain_rest n.second) h2 in
      let (rest_f, end_f) = drain_rest-Passed n.first f df in
      let (rest_s, end_s) = drain_rest-Passed n.second s ds in
      let both = merge_entries-PassedBoth entries none 0 m n merged in
      let (fs, passed_f) = Passes-trans m.first n.first f both.0 rest_f in
      let (ss, passed_s) = Passes-trans m.second n.second s both.1 rest_s in
      rw (← ok-eq h3) (
        (fs, passed_f, passed_f.yielded ∙ rw end_f (append-nil (map ok fs))),
        (ss, passed_s, passed_s.yielded ∙ rw end_s (append-nil (map ok ss))),
      )
