-- ===== src/Process/Resolver/Candidates.antt =====
-- crates/json-processing/src/process/resolver.rs: `ResolvedMetadataSet`, and the resolution that it
-- gives. A panic is `none`.
pub mod Ranked
pub mod Earliest
pub mod Resolved
use archivindex_wbm.Common.Options.{◌>>=◌}
use archivindex_wbm.Common.{
  Bool, true, false, not, List, [], ◌∷◌, Option, none, some, Bytes, drop, if◌then◌else◌,
}
use archivindex_wbm.Digest.Orders.{cdx_order}
use archivindex_wbm.Digest.{CdxDigest}
use archivindex_wbm.Process.Resolver.{
  ResolvedMetadata, Resolution, ResolutionWarnings, ResolvedMetadataSet, no_candidates, metadata_lt,
  metadata_order,
}
use archivindex_wbm.Process.Sorted.{Order, insert, same, upsert}
use archivindex_wbm.Snapshot.Validation.{is_nil}

module _ (times : Order) where
  -- `primary.cmp(&metadata)`, on what it gives.
  unfoldable pub rank :
      ResolvedMetadataSet times
      → ResolvedMetadata times
      → ResolvedMetadata times
      → ResolvedMetadataSet times
  rank s primary metadata =
      if metadata_lt times primary metadata
      then record s {
        primary = some primary;
        other = insert (metadata_order times) metadata s.other;
      }
      else if metadata_lt times metadata primary
      then record s {
        primary = some metadata;
        other = insert (metadata_order times) primary s.other;
      }
      else record s { primary = some primary }

  -- `ResolvedMetadataSet::add_valid`.
  unfoldable pub add_valid :
      ResolvedMetadataSet times → ResolvedMetadata times → ResolvedMetadataSet times
  add_valid s metadata = elim s.primary [
    | none ↦ record s { primary = some metadata }
    | some primary ↦ rank s primary metadata
  ]

  -- `ResolvedMetadataSet::add_invalid`.
  unfoldable pub add_invalid :
      ResolvedMetadataSet times → CdxDigest → ResolvedMetadata times → ResolvedMetadataSet times
  add_invalid s expected metadata = record s {
    by_invalid_digest =
        upsert cdx_order [] (insert (metadata_order times) metadata) expected s.by_invalid_digest;
  }

  abbrev pub Group : Type 0
  Group = CdxDigest × List (ResolvedMetadata times)

  -- `set.iter().next()`, and the order of what it gives: nothing is less than something.
  unfoldable pub first : List (ResolvedMetadata times) → Option (ResolvedMetadata times)
  first [] = none
  first (x ∷ xs) = some x

  unfoldable pub first_lt : Option (ResolvedMetadata times) → Option (ResolvedMetadata times) → Bool
  first_lt none none = false
  first_lt none (some b) = true
  first_lt (some a) none = false
  first_lt (some a) (some b) = metadata_lt times a b

  -- `min_by_key(|(_, set)| set.iter().next())`: the first of the least.
  unfoldable pub least_from : Group → List Group → Group
  least_from best [] = best
  least_from best (g ∷ groups) =
      let kept = least_from best groups in
      let replaced = least_from g groups in
      if first_lt (first g.1) (first best.1) then replaced else kept

  unfoldable pub least : List Group → Option Group
  least [] = none
  least (g ∷ groups) = some (least_from g groups)

  -- `.filter(|(digest, _)| *digest != best_digest)`.
  unfoldable pub without : CdxDigest → List Group → List Group
  without digest [] = []
  without digest (g ∷ groups) =
      let rest = without digest groups in if same cdx_order g.0 digest then rest else g ∷ rest

  -- The further candidates under the declared digest that was picked.
  unfoldable pub add_remaining : CdxDigest → List (ResolvedMetadata times) → List Group → List Group
  add_remaining digest remaining extra =
      if is_nil remaining then extra else upsert cdx_order [] (λ _. remaining) digest extra

  -- The resolution from the earliest candidate that a declared digest led to.
  unfoldable pub resolve_invalid :
      ResolvedMetadataSet times → Bytes → Option (Resolution times × ResolutionWarnings times)
  resolve_invalid s digest = do
    (best_digest, best_set) ← least s.by_invalid_digest
    best ← first best_set
    some (
      record {
        digest = digest;
        timestamp = best.timestamp;
        url = best.url;
        expected_digest = some best_digest;
      },
      record {
        digest = digest;
        has_valid = false;
        extra_valid_digest_items = [];
        extra_invalid_digest_items =
            add_remaining best_digest (drop 1 best_set) (without best_digest s.by_invalid_digest);
      },
    )

  -- `ResolvedMetadataSet::to_resolution`.
  unfoldable pub to_resolution :
      ResolvedMetadataSet times → Bytes → Option (Resolution times × ResolutionWarnings times)
  to_resolution s digest = elim s.primary [
    | none ↦ resolve_invalid s digest
    | some primary ↦ some (
      record {
        digest = digest;
        timestamp = primary.timestamp;
        url = primary.url;
        expected_digest = none;
      },
      record {
        digest = digest;
        has_valid = true;
        extra_valid_digest_items = s.other;
        extra_invalid_digest_items = s.by_invalid_digest;
      },
    )
  ]
