-- ===== src/Process/Merge/Union.antt =====
-- crates/json-processing/src/process/merge.rs: the merge of two sorted inputs is their union.
use archivindex_wbm.Common.{
  ℕ, true, false, List, [], ◌∷◌, ◌++◌, ◌≡◌, refl, sym, ap, ◌∙◌, Option, none, some, ok, err, Bytes,
  map, inl, inr, append-nil,
}
use archivindex_wbm.Process.Merge.Iterator.{Entry, merge}
use archivindex_wbm.Process.Merge.Verdict.Lines.{IsVerdict}
use archivindex_wbm.Process.Merge.Verdict.Outcome.{yielded, merge-IsVerdict}
use archivindex_wbm.Process.Merge.Verdict.{firsts, seconds, IsUnion, last_of, IsFault}
use archivindex_wbm.Process.Merge.{
  Error, io, read_io, order, invalid_line, first_side, second_side, Side, Line, open_file,
  extract_digest,
}
use archivindex_wbm.Snapshot.Validation.{is_after}

yielded-none : {E : Type 0} (entries : List Entry) → yielded {E = E} entries none ≡ map ok entries
yielded-none [] = refl
yielded-none (entry ∷ entries) = ap (◌∷◌ (ok entry)) (yielded-none entries)

module _ (parse_digest : Bytes → Option Bytes) {E : Type 0} where
  -- Lines in strictly ascending order of their digests, behind `last`.
  abbrev pub IsSorted : Option Bytes → List (Line E) → Type 0
  IsSorted last [] = Unit
  IsSorted last (err e ∷ xs) = ⊥
  IsSorted last (ok line ∷ xs) =
      (digest : Bytes) × (extract_digest parse_digest line ≡ some digest)
      × (is_after last digest ≡ true)
      × IsSorted (some digest) xs

  IsSorted-rest :
      (last : Option Bytes) (lines : List Bytes) (rest : List (Line E))
      → IsSorted last (map ok lines ++ rest)
      → IsSorted (last_of parse_digest last lines) rest
  IsSorted-rest last [] rest h = h
  IsSorted-rest last (line ∷ lines) rest (digest, found, after, h) =
      rw found (IsSorted-rest (some digest) lines rest h)

  no_fault :
      (side : Side) (n : ℕ) (last : Option Bytes) (items : List (Line E)) (e : Error E)
      → IsSorted last items
      → IsFault parse_digest side n last items e
      → ⊥
  no_fault side n last items (io e) h fault = fault
  no_fault side n last items (read_io at k d e) h (_, _, _, (more, is)) = rw is at h
  no_fault side n last items (order at k d) h (_, _, (line, more, is, found, early)) =
      let (digest, found', after, _) = rw is at h in
      let same : digest ≡ d = cc in
      let after' : is_after last d ≡ true = rw same at after in
      let absurd : true ≡ false = sym after' ∙ early in cc
  no_fault side n last items (invalid_line at k line) h (_, _, missing, (more, is)) =
      let (digest, found, _, _) = rw is at h in cc

  concluded :
      (xs ys : List (Line E)) (entries : List Entry) (end : Option (Error E))
      → IsSorted none xs
      → IsSorted none ys
      → merge parse_digest xs ys ≡ some (yielded entries end)
      → IsVerdict parse_digest (open_file first_side xs) (open_file second_side ys) none entries end
      → (end ≡ none)
        × (merge parse_digest xs ys ≡ some (map ok entries))
        × (xs ≡ map ok (firsts entries))
        × (ys ≡ map ok (seconds entries))
  concluded xs ys entries none sorted_xs sorted_ys is v =
      let (no_rest, no_more) = v.ended in
      (
        refl,
        rw yielded-none at is,
        rw (no_rest, append-nil) at v.from_first,
        rw (no_more, append-nil) at v.from_second,
      )
  concluded xs ys entries (some e) sorted_xs sorted_ys is v = absurd (elim v.ended [
    | inl fault ↦
        no_fault _ _ _ v.rest e
          (IsSorted-rest none (firsts entries) v.rest (rw v.from_first at sorted_xs)) fault
    | inr fault ↦
        no_fault _ _ _ v.more e
          (IsSorted-rest none (seconds entries) v.more (rw v.from_second at sorted_ys)) fault
  ])

  -- Two inputs in strictly ascending order are merged without an error: the entries have strictly
  -- ascending digests, each entry's lines have its digest, an entry of both inputs is a match just
  -- when the lines are equal, and all lines of both inputs are carried in order.
  pub merge-IsUnion :
      (xs ys : List (Line E))
      → IsSorted none xs
      → IsSorted none ys
      → (entries : List Entry) × (merge parse_digest xs ys ≡ some (map ok entries))
        × IsUnion parse_digest 0 0 none entries
        × (xs ≡ map ok (firsts entries))
        × (ys ≡ map ok (seconds entries))
  merge-IsUnion xs ys sorted_xs sorted_ys =
      let (entries, end, is, v) = merge-IsVerdict parse_digest xs ys in
      let (_, yields_all, all_xs, all_ys) = concluded xs ys entries end sorted_xs sorted_ys is v in
      (entries, yields_all, v.union, all_xs, all_ys)
