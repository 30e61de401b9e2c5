-- ===== src/Process/Resolver/Scan.antt =====
-- crates/json-processing/src/process/resolver.rs: `Resolver`. What the log of invalid digests and the
-- CDX files hold is a parameter. The files of a chunk are matched side by side against what no match
-- changes, and applied in their order, which is the order in which they stand in the list.
pub mod Hits
pub mod Missing
pub mod Filled
pub mod Lookups
mod Tests
use archivindex_wbm.Common.Options.{◌>>=◌}
use archivindex_wbm.Common.{
  ℕ, ◌+◌, Bool, true, false, not, List, [], ◌∷◌, ◌++◌, Option, none, some, Result, ok, err, Bytes,
  length, if◌then◌else◌,
}
use archivindex_wbm.Digest.Orders.{byte_order, cdx_order}
use archivindex_wbm.Digest.{CdxDigest, valid}
use archivindex_wbm.Process.Resolver.Candidates.{add_valid, add_invalid, to_resolution}
use archivindex_wbm.Process.Resolver.{
  ResolvedMetadata, Resolution, ResolutionWarnings, ResolvedMetadataSet, no_candidates,
}
use archivindex_wbm.Process.Sorted.{Order, insert, contains, upsert, get, contains_key}

module _ (times : Order) where
  pub record Resolver : Type 0 where
    pub todo_digests : List Bytes
    pub known_invalid_digests : List (CdxDigest × List Bytes)
    pub done : List (Bytes × ResolvedMetadataSet times)

  -- `Resolver::default()`.
  abbrev pub no_digests : Resolver
  no_digests = record { todo_digests = []; known_invalid_digests = []; done = [] }

  -- What the scan reads of a CDX item.
  pub record CdxItem : Type 0 where
    pub digest : CdxDigest
    pub timestamp : times.Key
    pub original : Bytes

  -- `CdxFileMatches`.
  pub record CdxFileMatches : Type 0 where
    pub valid : List (Bytes × ResolvedMetadata times)
    pub invalid : List (CdxDigest × ResolvedMetadata times)

  -- `Resolver::load_digests`: how many are new ones, too.
  unfoldable pub load_digests : Resolver → List Bytes → ℕ × Resolver
  load_digests r [] = (0, r)
  load_digests r (digest ∷ digests) =
      let (count, r') =
        load_digests (record r { todo_digests = insert byte_order digest r.todo_digests })
          digests in
      (if contains byte_order digest r.todo_digests then count else count + 1, r')

  -- `entry.insert(actual)` gives whether the pair is a new one.
  unfoldable pub is_known : Resolver → Bytes → CdxDigest → Bool
  is_known r actual expected = elim (get cdx_order expected r.known_invalid_digests) [
    | none ↦ false
    | some actuals ↦ contains byte_order actual actuals
  ]

  -- `Resolver::read_invalid_digests`, on the actual and the expected digests of the log.
  unfoldable pub read_invalid_digests : Resolver → List (Bytes × CdxDigest) → ℕ × Resolver
  read_invalid_digests r [] = (0, r)
  read_invalid_digests r ((actual, expected) ∷ entries) =
      let skipped = read_invalid_digests r entries in
      let (count, r') =
        read_invalid_digests
          (record r {
            known_invalid_digests =
                upsert cdx_order [] (insert byte_order actual) expected r.known_invalid_digests;
          })
          entries in
      if contains byte_order actual r.todo_digests
      then (if is_known r actual expected then count else count + 1, r')
      else skipped

  -- The metadata of an item.
  abbrev pub metadata_of : CdxItem → ResolvedMetadata times
  metadata_of item = record { timestamp = item.timestamp; url = item.original }

  -- An item whose own digest is a target, and one whose digest is known to be invalid.
  unfoldable pub valid_match : Resolver → CdxItem → List (Bytes × ResolvedMetadata times)
  valid_match r item = elim (valid item.digest) [
    | none ↦ []
    | some digest ↦
        if contains byte_order digest r.todo_digests then (digest, metadata_of item) ∷ [] else []
  ]

  unfoldable pub invalid_match : Resolver → CdxItem → List (CdxDigest × ResolvedMetadata times)
  invalid_match r item =
      if contains_key cdx_order item.digest r.known_invalid_digests
      then (item.digest, metadata_of item) ∷ []
      else []

  -- The matches of a file.
  unfoldable pub file_matches : Resolver → List CdxItem → CdxFileMatches
  file_matches r [] = record { valid = []; invalid = [] }
  file_matches r (item ∷ items) =
      let rest = file_matches r items in
      record {
        valid = valid_match r item ++ rest.valid;
        invalid = invalid_match r item ++ rest.invalid;
      }

  abbrev pub Done : Type 0
  Done = List (Bytes × ResolvedMetadataSet times)

  -- `for (digest, metadata) in file_matches.valid`.
  unfoldable pub apply_valid : Done → List (Bytes × ResolvedMetadata times) → Done
  apply_valid done [] = done
  apply_valid done ((digest, metadata) ∷ matches) =
      apply_valid
        (upsert byte_order (no_candidates times) (λ s. add_valid times s metadata) digest done)
        matches

  -- `for actual_digest in actual_digests`.
  unfoldable pub apply_actual : Done → CdxDigest → ResolvedMetadata times → List Bytes → Done
  apply_actual done expected metadata [] = done
  apply_actual done expected metadata (actual ∷ actuals) =
      apply_actual
        (upsert byte_order (no_candidates times) (λ s. add_invalid times s expected metadata) actual
          done)
        expected metadata actuals

  -- `for (expected_digest, metadata) in file_matches.invalid`.
  unfoldable pub apply_invalid :
      List (CdxDigest × List Bytes) → Done → List (CdxDigest × ResolvedMetadata times) → Done
  apply_invalid known done [] = done
  apply_invalid known done ((expected, metadata) ∷ matches) =
      apply_invalid known
        (elim (get cdx_order expected known) [
          | none ↦ done
          | some actuals ↦ apply_actual done expected metadata actuals
        ])
        matches

  -- The matches of a file applied.
  unfoldable pub apply_file : Resolver → List CdxItem → Resolver
  apply_file r items =
      let matches = file_matches r items in
      record r {
        done =
            apply_invalid r.known_invalid_digests (apply_valid r.done matches.valid)
              matches.invalid;
      }

  -- `Resolver::resolve`, on what reading the files gives: the first failure ends it.
  unfoldable pub resolve_files :
      {E : Type 0} → Resolver → List (Result (List CdxItem) E) → Result (Unit {0}) E × Resolver
  resolve_files r [] = (ok tt, r)
  resolve_files r (err e ∷ files) = (err e, r)
  resolve_files r (ok items ∷ files) = resolve_files (apply_file r items) files

  -- The files that were read are counted.
  unfoldable pub counted : {E : Type 0} → ℕ → Result (Unit {0}) E × Resolver → Result ℕ E × Resolver
  counted n (ok _, r) = (ok n, r)
  counted n (err e, r) = (err e, r)

  unfoldable pub resolve :
      {E : Type 0} → Resolver → List (Result (List CdxItem) E) → Result ℕ E × Resolver
  resolve r files = counted (length files) (resolve_files r files)

  -- `Resolver::lookup`: a panic is `none`.
  unfoldable pub lookup :
      Resolver → Bytes → Option (Option (Resolution times × ResolutionWarnings times))
  lookup r digest = elim (get byte_order digest r.done) [
    | none ↦ some none
    | some s ↦ to_resolution times s digest >>= λ resolved. some (some resolved)
  ]

  -- `Resolver::found`: a panic is `none`.
  unfoldable pub found : Done → Option (List (Resolution times × ResolutionWarnings times))
  found [] = some []
  found ((digest, s) ∷ done) =
      let rest = found done in
      to_resolution times s digest >>= λ resolved. rest >>= λ more. some (resolved ∷ more)

  -- `Resolver::missing`.
  unfoldable pub missing_of : Done → List Bytes → List Bytes
  missing_of done [] = []
  missing_of done (digest ∷ digests) =
      let rest = missing_of done digests in
      if not (contains_key byte_order digest done) then digest ∷ rest else rest

  unfoldable pub missing : Resolver → List Bytes
  missing r = missing_of r.done r.todo_digests
