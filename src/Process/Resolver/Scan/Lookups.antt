-- ===== src/Process/Resolver/Scan/Lookups.antt =====
-- crates/json-processing/src/process/resolver.rs: lookups in a resolver that its operations made.
use archivindex_wbm.Common.{
  ℕ, ◌≡◌, refl, List, [], ◌∷◌, none, some, Result, ok, err, Bytes, length, Option-cases, ◌⊎◌, inl,
  inr, Bool-cases,
}
use archivindex_wbm.Digest.Orders.{byte_order}
use archivindex_wbm.Digest.{CdxDigest}
use archivindex_wbm.Process.Resolver.Candidates.Ranked.{of_ranked}
use archivindex_wbm.Process.Resolver.Candidates.Resolved.{IsResolution, to_resolution-IsResolution}
use archivindex_wbm.Process.Resolver.Candidates.{Group, to_resolution}
use archivindex_wbm.Process.Resolver.Scan.Filled.{IsFilled, AreFilled, resolve_files-AreFilled}
use archivindex_wbm.Process.Resolver.Scan.{
  Resolver, no_digests, CdxItem, Done, load_digests, read_invalid_digests, resolve_files, counted,
  resolve, lookup, found,
}
use archivindex_wbm.Process.Resolver.{
  ResolvedMetadata, ResolvedMetadataSet, Resolution, ResolutionWarnings, metadata_order,
}
use archivindex_wbm.Process.Sorted.Maps.{get-AllValues}
use archivindex_wbm.Process.Sorted.Sets.{IsAscending}
use archivindex_wbm.Process.Sorted.{Order, contains, get}

module _ (times : Order) where
  -- The resolvers that the operations make, in whatever order they are called.
  pub data Reached : Resolver times → Type 1 where
    fresh : Reached (no_digests times)
    loaded :
        {r : Resolver times} (digests : List Bytes)
        → Reached r
        → Reached (load_digests times r digests).1
    known :
        {r : Resolver times} (entries : List (Bytes × CdxDigest))
        → Reached r
        → Reached (read_invalid_digests times r entries).1
    resolved :
        {E : Type 0} {r : Resolver times} (files : List (Result (List (CdxItem times)) E))
        → Reached r
        → Reached (resolve times r files).1

  load_digests-done :
      (digests : List Bytes) (r : Resolver times) → (load_digests times r digests).1.done ≡ r.done
  unfolding load_digests
  load_digests-done [] r = refl
  load_digests-done (digest ∷ digests) r = load_digests-done digests _

  read_invalid_digests-done :
      (entries : List (Bytes × CdxDigest)) (r : Resolver times)
      → (read_invalid_digests times r entries).1.done ≡ r.done
  unfolding read_invalid_digests
  read_invalid_digests-done [] r = refl
  read_invalid_digests-done ((actual, expected) ∷ entries) r =
      elim (Bool-cases (contains byte_order actual r.todo_digests)) [
        | inl target ↦ rw (read_invalid_digests, target) (read_invalid_digests-done entries _)
        | inr other ↦ rw (read_invalid_digests, other) (read_invalid_digests-done entries r)
      ]

  counted-resolver :
      {E : Type 0} (n : ℕ) (outcome : Result (Unit {0}) E × Resolver times)
      → (counted times n outcome).1 ≡ outcome.1
  unfolding counted
  counted-resolver n (ok _, r) = refl
  counted-resolver n (err e, r) = refl

  Reached-AreFilled : {r : Resolver times} → Reached r → AreFilled times r.done
  unfolding resolve
  Reached-AreFilled fresh = tt
  Reached-AreFilled (loaded {r = r} digests h) =
      rw (load_digests-done digests r) (Reached-AreFilled h)
  Reached-AreFilled (known {r = r} entries h) =
      rw (read_invalid_digests-done entries r) (Reached-AreFilled h)
  Reached-AreFilled (resolved {r = r} files h) =
      rw (counted-resolver (length files) (resolve_files times r files))
        (resolve_files-AreFilled times files r (Reached-AreFilled h))

  -- What the set of candidates of a digest is resolved to: its ranked candidates and its groups are
  -- those that the resolution is chosen from, and the others are the warnings.
  abbrev pub IsLookup :
      Bytes → ResolvedMetadataSet times → Resolution times → ResolutionWarnings times → Type 0
  IsLookup digest s r w =
      (l : List (ResolvedMetadata times)) × (groups : List (Group times)) × (s
        ≡ of_ranked times l groups)
      × IsAscending (metadata_order times) l
      × IsResolution times digest l groups r w

  -- The resolutions of all digests that have candidates, in their order.
  abbrev pub AreFound : Done times → List (Resolution times × ResolutionWarnings times) → Type 0
  AreFound [] [] = Unit {0}
  AreFound ((digest, s) ∷ done) ((r, w) ∷ all) = IsLookup digest s r w × AreFound done all
  AreFound _ _ = ⊥

  resolved-IsLookup :
      (digest : Bytes) (s : _)
      → IsFilled times s
      → (r : Resolution times) × (w : ResolutionWarnings times) × (to_resolution times s digest
          ≡ some (r, w))
        × IsLookup digest s r w
  resolved-IsLookup digest s (l, groups, is, ascending, are_groups, nonempty) =
      let (r, w, run, resolution) =
        to_resolution-IsResolution times digest l groups are_groups nonempty in
      (r, w, rw is run, (l, groups, is, ascending, resolution))

  found-AreFound :
      (done : Done times)
      → AreFilled times done
      → (all : List (Resolution times × ResolutionWarnings times)) × (found times done ≡ some all)
        × AreFound done all
  unfolding found
  found-AreFound [] h = ([], refl, tt)
  found-AreFound ((digest, s) ∷ done) (filled, h) =
      let (r, w, run, is_lookup) = resolved-IsLookup digest s filled in
      let (all, is, are) = found-AreFound done h in
      ((r, w) ∷ all, rw (found, run, is), (is_lookup, are))

  -- However the operations of a resolver were called, no lookup panics. All digests with candidates are
  -- listed in order, each with the resolution of its own set; and a digest has no resolution just when
  -- the resolver has no set for it, and else the one of the set that the resolver has for it: from the
  -- first of the ranked candidates, with the others as warnings, or, without any, from the earliest of
  -- those that a declared digest led to.
  pub Reached-lookup :
      {r : Resolver times} (digest : Bytes)
      → Reached r
      → ((all : List (Resolution times × ResolutionWarnings times)) × (found times r.done
            ≡ some all)
          × AreFound r.done all)
        × (((get byte_order digest r.done ≡ none) × (lookup times r digest ≡ some none))
            ⊎ ((s : ResolvedMetadataSet times) × (found : Resolution times)
                × (w : ResolutionWarnings times) × (get byte_order digest r.done ≡ some s)
                × (lookup times r digest ≡ some (some (found, w)))
                × IsLookup digest s found w))
  unfolding lookup
  Reached-lookup {r} digest h =
      let filled = Reached-AreFilled h in
      (
        found-AreFound r.done filled,
        elim (Option-cases (get byte_order digest r.done)) [
          | inl missing ↦ inl (missing, rw (lookup, missing))
          | inr (s, is) ↦
              let filled_s = get-AllValues byte_order (IsFilled times) digest r.done filled is in
              let (resolution, w, run, is_lookup) = resolved-IsLookup digest s filled_s in
              inr (s, resolution, w, is, rw (lookup, is, run), is_lookup)
        ],
      )
