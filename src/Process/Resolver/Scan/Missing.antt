-- ===== src/Process/Resolver/Scan/Missing.antt =====
-- crates/json-processing/src/process/resolver.rs: which digests a scan leaves unresolved.
use archivindex_wbm.Common.{
  Bool, true, false, not, ◌||◌, ◌&&◌, ◌≡◌, refl, ap, ◌∙◌, List, [], ◌∷◌, Result, ok, Bytes, length,
  map, arith, Bool-cases, inl, inr,
}
use archivindex_wbm.Digest.Orders.{byte_order}
use archivindex_wbm.Process.Resolver.Scan.{
  Resolver, CdxItem, Done, apply_file, resolve_files, counted, resolve, missing_of, missing,
}
use archivindex_wbm.Process.Sorted.Maps.{same_sound}
use archivindex_wbm.Process.Sorted.{Order, same, contains}
use archivindex_wbm.Process.Resolver.Scan.Hits.{any, ||_assoc, has, is_hit, apply_file-has}

&&_false : (a b : Bool) → (b && false) ≡ ((a || b) && false)
&&_false a b = ground arith

module _ (times : Order) where
  -- Files that are read one after the other, without a failure.
  resolve_files-has :
      {E : Type 0} (files : List (List (CdxItem times))) (r : Resolver times) (digest : Bytes)
      → (r' : Resolver times) × (resolve_files times {E = E} r (map ok files) ≡ (ok tt, r'))
        × (r'.todo_digests ≡ r.todo_digests)
        × (r'.known_invalid_digests ≡ r.known_invalid_digests)
        × (has times digest r'.done
            ≡ (has times digest r.done || any (λ items. any (is_hit times r digest) items) files))
  unfolding resolve_files apply_file
  resolve_files-has {E} [] r digest = (r, refl, refl, refl, ground arith)
  resolve_files-has {E} (items ∷ files) r digest =
      let next = apply_file times r items in
      let (r', is, todo, known, resolved) = resolve_files-has {E = E} files next digest in
      (
        r',
        is,
        todo,
        known,
        resolved
            ∙ ap (λ b. b || any (λ items. any (is_hit times r digest) items) files)
                (apply_file-has times r items digest)
            ∙ ||_assoc (has times digest r.done) (any (is_hit times r digest) items) _,
      )

  missing_of-contains :
      (done : Done times) (todo : List Bytes) (digest : Bytes)
      → contains byte_order digest (missing_of times done todo)
        ≡ (contains byte_order digest todo && not (has times digest done))
  unfolding missing_of contains
  missing_of-contains done [] digest = refl
  missing_of-contains done (x ∷ todo) digest =
      let rest = missing_of-contains done todo digest in
      elim (Bool-cases (has times x done)) [
        | inl is_done ↦ elim (Bool-cases (same byte_order digest x)) [
          | inl is ↦
              let here : has times digest done ≡ true =
                rw (same_sound byte_order digest x is) is_done in
              rw (missing_of, is_done, rest, here)
                (&&_false (same byte_order digest x) (contains byte_order digest todo))
          | inr other ↦ rw (missing_of, is_done, rest, other)
        ]
        | inr not_done ↦ elim (Bool-cases (same byte_order digest x)) [
          | inl is ↦
              let here : has times digest done ≡ false =
                rw (same_sound byte_order digest x is) not_done in
              rw (missing_of, not_done, contains, is, here)
          | inr other ↦ rw (missing_of, not_done, contains, other, rest)
        ]
      ]

  -- A scan of files that are all read gives how many they are, and what is missing behind it are the
  -- targets that were not resolved before and that no item of the files is a match of.
  pub resolve-missing :
      {E : Type 0} (files : List (List (CdxItem times))) (r : Resolver times)
      → (digest : Bytes)
      → (r' : Resolver times) × (resolve times {E = E} r (map ok files)
          ≡ (ok (length (map {B = Result (List (CdxItem times)) E} ok files)), r'))
        × (contains byte_order digest (missing times r') ≡ (
            contains byte_order digest r.todo_digests
            && not (
                has times digest r.done || any (λ items. any (is_hit times r digest) items) files)))
  unfolding resolve counted missing
  resolve-missing {E} files r digest =
      let (r', is, todo, _, resolved) = resolve_files-has {E = E} files r digest in
      (r', rw is, missing_of-contains r'.done r'.todo_digests digest ∙ rw (todo, resolved))
