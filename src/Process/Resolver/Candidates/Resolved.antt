-- ===== src/Process/Resolver/Candidates/Resolved.antt =====
-- crates/json-processing/src/process/resolver.rs: what a set of candidates that is not empty is
-- resolved to.
use archivindex_wbm.Common.{
  true, false, ◌≡◌, ◌≢◌, refl, sym, ap, ◌∙◌, List, [], ◌∷◌, ◌++◌, none, some, Bytes, All, drop, inl,
  inr, ◌⊎◌,
}
use archivindex_wbm.Digest.{CdxDigest}
use archivindex_wbm.Process.Resolver.Candidates.Ranked.{of_ranked}
use archivindex_wbm.Process.Resolver.Candidates.Earliest.{
  IsGroup, IsEarliest, least_from-IsLeast, none_before_groups,
}
use archivindex_wbm.Process.Resolver.Candidates.{
  Group, first, first_lt, least_from, least, without, add_remaining, resolve_invalid, to_resolution,
}
use archivindex_wbm.Process.Resolver.{ResolvedMetadata, Resolution, ResolutionWarnings}
use archivindex_wbm.Process.Sorted.{Order}

module _ (times : Order) where
  -- What the resolution of `digest` says, with candidates of the digest itself or without any.
  abbrev pub IsResolution :
      Bytes
      → List (ResolvedMetadata times)
      → List (Group times)
      → Resolution times
      → ResolutionWarnings times
      → Type 0
  IsResolution digest (p ∷ ps) groups r w =
      (r ≡ record { digest = digest; timestamp = p.timestamp; url = p.url; expected_digest = none })
      × (w ≡ record {
        digest = digest;
        has_valid = true;
        extra_valid_digest_items = ps;
        extra_invalid_digest_items = groups;
      })
  IsResolution digest [] groups r w =
      (expected : CdxDigest) × (best : ResolvedMetadata times) × (more : List
        (ResolvedMetadata times))
      × (before after : List (Group times)) × (groups ≡ before ++ (expected, best ∷ more) ∷ after)
      × (r ≡ record {
        digest = digest;
        timestamp = best.timestamp;
        url = best.url;
        expected_digest = some expected;
      })
      × IsEarliest times best groups
      × (w.has_valid ≡ false)

  resolve_invalid-IsResolution :
      (digest : Bytes) (groups : List (Group times))
      → All (IsGroup times) groups
      → groups ≢ []
      → (r : Resolution times) × (w : ResolutionWarnings times) × (resolve_invalid times
            (of_ranked times [] groups)
            digest
          ≡ some (r, w))
        × IsResolution digest [] groups r w
  unfolding resolve_invalid least first
  resolve_invalid-IsResolution digest [] are_groups nonempty = absurd (nonempty refl)
  resolve_invalid-IsResolution digest (g ∷ groups) (is_group, are_groups) nonempty =
      let best_group = least_from times g groups in
      let picked = least_from-IsLeast times g groups is_group are_groups in
      let (best, more, is_best, _) = picked.group in
      let (before, after, split) =
        among_groups g groups best_group best more is_best picked.among in
      let is_first : first times best_group.1 ≡ some best = rw is_best in
      let best_later : first_lt times (first times g.1) (some best) ≡ false =
        rw is_first at picked.best_later in
      let all_later : All (λ h. first_lt times (first times h.1) (some best) ≡ false) groups =
        rw is_first at picked.all_later in
      (
        record {
          digest = digest;
          timestamp = best.timestamp;
          url = best.url;
          expected_digest = some best_group.0;
        },
        record {
          digest = digest;
          has_valid = false;
          extra_valid_digest_items = [];
          extra_invalid_digest_items =
              add_remaining times best_group.0 (drop 1 best_group.1)
                (without times best_group.0 (g ∷ groups));
        },
        rw is_first,
        (
          best_group.0,
          best,
          more,
          before,
          after,
          split,
          refl,
          none_before_groups times best (g ∷ groups) (is_group, are_groups) (best_later, all_later),
          refl,
        ),
      )
    where
      among_groups :
          (g : Group times) (groups : List (Group times)) (r : Group times)
          (best : ResolvedMetadata times) (more : List (ResolvedMetadata times))
          → r.1 ≡ best ∷ more
          → (r ≡ g) ⊎ ((before after : List (Group times)) × (groups ≡ before ++ r ∷ after))
          → (before after : List (Group times)) × (g ∷ groups
              ≡ before ++ (r.0, best ∷ more) ∷ after)
      among_groups g groups r best more is (inl e) =
          ([], groups, ap (λ h. h ∷ groups) (sym e ∙ ap (λ l. (r.0, l)) is))
      among_groups g groups r best more is (inr (before, after, e)) =
          (g ∷ before, after, ap (◌∷◌ g) (e ∙ ap (λ l. before ++ (r.0, l) ∷ after) is))

  -- A set of ranked candidates and of groups of others, which are not both empty, is resolved without a
  -- panic: from the first of the ranked ones, with the others as warnings, or else from a candidate of
  -- the groups that none of them is before, with the digest that its group stands under.
  pub to_resolution-IsResolution :
      (digest : Bytes) (l : List (ResolvedMetadata times)) (groups : List (Group times))
      → All (IsGroup times) groups
      → (l ≢ []) ⊎ (groups ≢ [])
      → (r : Resolution times) × (w : ResolutionWarnings times) × (to_resolution times
            (of_ranked times l groups)
            digest
          ≡ some (r, w))
        × IsResolution digest l groups r w
  unfolding to_resolution
  to_resolution-IsResolution digest (p ∷ ps) groups are_groups _ = (_, _, refl, (refl, refl))
  to_resolution-IsResolution digest [] groups are_groups (inl nonempty) = absurd (nonempty refl)
  to_resolution-IsResolution digest [] groups are_groups (inr nonempty) =
      resolve_invalid-IsResolution digest groups are_groups nonempty
