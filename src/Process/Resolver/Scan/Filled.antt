-- ===== src/Process/Resolver/Scan/Filled.antt =====
-- crates/json-processing/src/process/resolver.rs: a set of candidates that a resolver holds is not
-- empty, so no lookup panics.
use archivindex_wbm.Common.{
  false, ◌≡◌, ◌≢◌, refl, List, [], ◌∷◌, Result, ok, err, Bytes, All, Option-cases, ◌⊎◌, inl, inr,
  cons-ne-nil,
}
use archivindex_wbm.Digest.Orders.{byte_order, cdx_order}
use archivindex_wbm.Digest.{CdxDigest}
use archivindex_wbm.Process.Resolver.Candidates.Earliest.{IsGroup}
use archivindex_wbm.Process.Resolver.Candidates.Ranked.{of_ranked, add_valid-insert}
use archivindex_wbm.Process.Resolver.Candidates.{Group, add_valid, add_invalid}
use archivindex_wbm.Process.Resolver.Scan.{
  Resolver, CdxItem, Done, apply_valid, apply_actual, apply_invalid, file_matches, apply_file,
  resolve_files,
}
use archivindex_wbm.Process.Resolver.{
  ResolvedMetadata, ResolvedMetadataSet, no_candidates, metadata_order,
}
use archivindex_wbm.Process.Sorted.Maps.{AllValues, upsert-AllValues}
use archivindex_wbm.Process.Sorted.Sets.{
  compared, less, greater, equal, IsAscending, insert-IsAscending, insert-nil, insert-less,
  insert-greater, insert-equal,
}
use archivindex_wbm.Process.Sorted.{Order, insert, upsert, get}

insert-nonempty :
    (keys : Order) (x : keys.Key) (l : List keys.Key)
    → (y : keys.Key) × (ys : List keys.Key) × (insert keys x l ≡ y ∷ ys)
insert-nonempty keys x [] = (x, [], insert-nil keys x)
insert-nonempty keys x (y ∷ ys) = elim (compared keys x y) [
  | less xy _ ↦ (x, y ∷ ys, insert-less keys x y ys xy)
  | greater xy yx ↦ (y, insert keys x ys, insert-greater keys x y ys xy yx)
  | equal e ↦ (y, ys, insert-equal keys x y ys e)
]

module _ (times : Order) where
  -- A set whose candidates are ranked, and whose groups are not empty.
  abbrev IsCandidates : ResolvedMetadataSet times → Type 0
  IsCandidates s =
      (l : List (ResolvedMetadata times)) × (groups : List (Group times)) × (s
        ≡ of_ranked times l groups)
      × IsAscending (metadata_order times) l
      × All (IsGroup times) groups

  -- A set with a candidate.
  abbrev pub IsFilled : ResolvedMetadataSet times → Type 0
  IsFilled s =
      (l : List (ResolvedMetadata times)) × (groups : List (Group times)) × (s
        ≡ of_ranked times l groups)
      × IsAscending (metadata_order times) l
      × All (IsGroup times) groups
      × ((l ≢ []) ⊎ (groups ≢ []))

  IsFilled-IsCandidates : (s : ResolvedMetadataSet times) → IsFilled s → IsCandidates s
  IsFilled-IsCandidates s (l, groups, e, a, g, _) = (l, groups, e, a, g)

  add_valid-IsFilled :
      (s : ResolvedMetadataSet times) (m : ResolvedMetadata times)
      → IsCandidates s
      → IsFilled (add_valid times s m)
  add_valid-IsFilled s m (l, groups, is, ascending, are_groups) =
      let (y, ys, nonempty) = insert-nonempty (metadata_order times) m l in
      (
        insert (metadata_order times) m l,
        groups,
        rw is (add_valid-insert times groups m l ascending),
        insert-IsAscending (metadata_order times) m l ascending,
        are_groups,
        inl (rw nonempty (cons-ne-nil _ _)),
      )

  insert-IsGroup :
      (expected : CdxDigest) (m : ResolvedMetadata times) (l : List (ResolvedMetadata times))
      → IsAscending (metadata_order times) l
      → IsGroup times (expected, insert (metadata_order times) m l)
  insert-IsGroup expected m l ascending =
      let (y, ys, is) = insert-nonempty (metadata_order times) m l in
      (y, ys, is, rw is at (insert-IsAscending (metadata_order times) m l ascending))

  upsert-groups :
      (expected : CdxDigest) (m : ResolvedMetadata times) (groups : List (Group times))
      → All (IsGroup times) groups
      → All (IsGroup times) (upsert cdx_order [] (insert (metadata_order times) m) expected groups)
        × (upsert cdx_order [] (insert (metadata_order times) m) expected groups ≢ [])
  unfolding upsert
  upsert-groups expected m [] _ = ((insert-IsGroup expected m [] tt, tt), cons-ne-nil _ _)
  upsert-groups expected m ((k, v) ∷ groups) ((x, xs, is, ascending), are_groups) =
      let (rest, _) = upsert-groups expected m groups are_groups in
      let ascending_v : IsAscending (metadata_order times) v = rw is ascending in
      elim (compared cdx_order expected k) [
        | less before _ ↦
            rw (upsert, before)
              (
                (insert-IsGroup expected m [] tt, ((x, xs, is, ascending), are_groups)),
                cons-ne-nil _ _,
              )
        | greater not_before behind ↦
            rw (upsert, not_before, behind) (((x, xs, is, ascending), rest), cons-ne-nil _ _)
        | equal e ↦
            let not_before : cdx_order.lt expected k ≡ false = rw e (cdx_order.irreflexive k) in
            let not_behind : cdx_order.lt k expected ≡ false = rw e (cdx_order.irreflexive k) in
            rw (upsert, not_before, not_behind)
              ((insert-IsGroup k m v ascending_v, are_groups), cons-ne-nil _ _)
      ]

  add_invalid-of_ranked :
      (expected : CdxDigest) (m : ResolvedMetadata times) (l : List (ResolvedMetadata times))
      (groups : List (Group times))
      → add_invalid times (of_ranked times l groups) expected m
        ≡ of_ranked times l (upsert cdx_order [] (insert (metadata_order times) m) expected groups)
  unfolding add_invalid
  add_invalid-of_ranked expected m [] groups = refl
  add_invalid-of_ranked expected m (p ∷ ps) groups = refl

  add_invalid-IsFilled :
      (s : ResolvedMetadataSet times) (expected : CdxDigest) (m : ResolvedMetadata times)
      → IsCandidates s
      → IsFilled (add_invalid times s expected m)
  add_invalid-IsFilled s expected m (l, groups, is, ascending, are_groups) =
      let (are_groups', nonempty) = upsert-groups expected m groups are_groups in
      (
        l,
        upsert cdx_order [] (insert (metadata_order times) m) expected groups,
        rw is (add_invalid-of_ranked expected m l groups),
        ascending,
        are_groups',
        inr nonempty,
      )

  no_candidates-IsCandidates : IsCandidates (no_candidates times)
  no_candidates-IsCandidates = ([], [], refl, tt, tt)

  abbrev pub AreFilled : Done times → Type 0
  AreFilled = AllValues byte_order IsFilled

  apply_valid-AreFilled :
      (ms : List (Bytes × ResolvedMetadata times)) (done : Done times)
      → AreFilled done
      → AreFilled (apply_valid times done ms)
  unfolding apply_valid
  apply_valid-AreFilled [] done h = h
  apply_valid-AreFilled ((digest, m) ∷ ms) done h =
      apply_valid-AreFilled ms
        (upsert byte_order (no_candidates times) (λ s. add_valid times s m) digest done)
        (upsert-AllValues byte_order IsFilled (no_candidates times) (λ s. add_valid times s m)
          digest done (add_valid-IsFilled (no_candidates times) m no_candidates-IsCandidates)
          (λ s filled. add_valid-IsFilled s m (IsFilled-IsCandidates s filled)) h)

  apply_actual-AreFilled :
      (expected : CdxDigest) (m : ResolvedMetadata times) (actuals : List Bytes) (done : Done times)
      → AreFilled done
      → AreFilled (apply_actual times done expected m actuals)
  unfolding apply_actual
  apply_actual-AreFilled expected m [] done h = h
  apply_actual-AreFilled expected m (actual ∷ actuals) done h =
      apply_actual-AreFilled expected m actuals
        (upsert byte_order (no_candidates times) (λ s. add_invalid times s expected m) actual done)
        (upsert-AllValues byte_order IsFilled (no_candidates times)
          (λ s. add_invalid times s expected m) actual done
          (add_invalid-IsFilled (no_candidates times) expected m no_candidates-IsCandidates)
          (λ s filled. add_invalid-IsFilled s expected m (IsFilled-IsCandidates s filled)) h)

  apply_invalid-AreFilled :
      (known : List (CdxDigest × List Bytes)) (ms : List (CdxDigest × ResolvedMetadata times))
      (done : Done times)
      → AreFilled done
      → AreFilled (apply_invalid times known done ms)
  unfolding apply_invalid
  apply_invalid-AreFilled known [] done h = h
  apply_invalid-AreFilled known ((expected, m) ∷ ms) done h =
      elim (Option-cases (get cdx_order expected known)) [
        | inl unknown ↦ rw (apply_invalid, unknown) (apply_invalid-AreFilled known ms done h)
        | inr (actuals, is) ↦
            rw (apply_invalid, is)
              (apply_invalid-AreFilled known ms (apply_actual times done expected m actuals)
                (apply_actual-AreFilled expected m actuals done h))
      ]

  pub resolve_files-AreFilled :
      {E : Type 0} (files : List (Result (List (CdxItem times)) E)) (r : Resolver times)
      → AreFilled r.done
      → AreFilled (resolve_files times r files).1.done
  unfolding resolve_files apply_file
  resolve_files-AreFilled [] r h = h
  resolve_files-AreFilled (err e ∷ files) r h = h
  resolve_files-AreFilled (ok items ∷ files) r h =
      let matches = file_matches times r items in
      resolve_files-AreFilled files (apply_file times r items) (
        apply_invalid-AreFilled r.known_invalid_digests matches.invalid
          (apply_valid times r.done matches.valid) (apply_valid-AreFilled matches.valid r.done h))
