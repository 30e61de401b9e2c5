-- ===== src/Process/Resolver.antt =====
-- crates/json-processing/src/process/resolver.rs: the candidates for a digest, and the resolution
-- that is made of them. A panic is `none`.
pub mod Candidates
pub mod Scan
use archivindex_wbm.Common.{
  Bool, true, false, ◌&&◌, ◌≡◌, refl, sym, ap₂, ◌∙◌, List, [], ◌∷◌, Option, none, Bytes, arith,
  if◌then◌else◌,
}
use archivindex_wbm.Digest.Orders.{digest_lt-irreflexive, digest_lt_trans}
use archivindex_wbm.Digest.{CdxDigest}
use archivindex_wbm.Process.Merge.Verdict.Step.{digest_lt-tri}
use archivindex_wbm.Process.Sorted.Sets.{Compared, less, greater, equal, compared}
use archivindex_wbm.Process.Sorted.{Order}
use archivindex_wbm.Snapshot.Validation.{digest_lt, is_nil}

-- The order of timestamps, which is the one of `archivindex_cdx`, is a parameter.
module _ (times : Order) where
  pub record ResolvedMetadata : Type 0 where
    pub timestamp : times.Key
    pub url : Bytes

  pub record Resolution : Type 0 where
    pub digest : Bytes
    pub timestamp : times.Key
    pub url : Bytes
    pub expected_digest : Option CdxDigest

  pub record ResolutionWarnings : Type 0 where
    pub digest : Bytes
    pub has_valid : Bool
    pub extra_valid_digest_items : List ResolvedMetadata
    pub extra_invalid_digest_items : List (CdxDigest × List ResolvedMetadata)

  pub record ResolvedMetadataSet : Type 0 where
    pub primary : Option ResolvedMetadata
    pub other : List ResolvedMetadata
    pub by_invalid_digest : List (CdxDigest × List ResolvedMetadata)

  -- The derived order of `ResolvedMetadata`.
  unfoldable pub metadata_lt : ResolvedMetadata → ResolvedMetadata → Bool
  metadata_lt a b =
      if times.lt a.timestamp b.timestamp
      then true
      else if times.lt b.timestamp a.timestamp
      then false
      else digest_lt a.url b.url

  -- `ResolvedMetadataSet::default()`.
  abbrev pub no_candidates : ResolvedMetadataSet
  no_candidates = record { primary = none; other = []; by_invalid_digest = [] }

  -- `ResolutionWarnings::is_empty`.
  unfoldable pub is_empty : ResolutionWarnings → Bool
  is_empty w = is_nil w.extra_valid_digest_items && is_nil w.extra_invalid_digest_items

  pub metadata_lt-irreflexive : (a : ResolvedMetadata) → metadata_lt a a ≡ false
  unfolding metadata_lt
  metadata_lt-irreflexive a =
      rw (metadata_lt, times.irreflexive a.timestamp) (digest_lt-irreflexive a.url)

  metadata_lt-less :
      (a b : ResolvedMetadata) → times.lt a.timestamp b.timestamp ≡ true → metadata_lt a b ≡ true
  unfolding metadata_lt
  metadata_lt-less a b ab = rw (metadata_lt, ab)

  metadata_lt-greater :
      (a b : ResolvedMetadata)
      → times.lt a.timestamp b.timestamp ≡ false
      → times.lt b.timestamp a.timestamp ≡ true
      → metadata_lt a b ≡ false
  unfolding metadata_lt
  metadata_lt-greater a b ab ba = rw (metadata_lt, ab, ba)

  metadata_lt-equal :
      (a b : ResolvedMetadata) → a.timestamp ≡ b.timestamp → metadata_lt a b ≡ digest_lt a.url b.url
  unfolding metadata_lt
  metadata_lt-equal a b e =
      let ab : times.lt a.timestamp b.timestamp ≡ false = rw e (times.irreflexive b.timestamp) in
      let ba : times.lt b.timestamp a.timestamp ≡ false = rw e (times.irreflexive b.timestamp) in
      rw (metadata_lt, ab, ba)

  pub metadata_lt_trans :
      (a b c : ResolvedMetadata)
      → metadata_lt a b ≡ true
      → metadata_lt b c ≡ true
      → metadata_lt a c ≡ true
  metadata_lt_trans a b c h k =
      by_times (compared times a.timestamp b.timestamp) (compared times b.timestamp c.timestamp)
    where
      by_times :
          Compared times a.timestamp b.timestamp
          → Compared times b.timestamp c.timestamp
          → metadata_lt a c ≡ true
      by_times (greater ab ba) _ =
          let clash : true ≡ false = sym h ∙ metadata_lt-greater a b ab ba in cc
      by_times (less ab _) (less bc _) =
          metadata_lt-less a c (times.transitive a.timestamp b.timestamp c.timestamp ab bc)
      by_times (less ab _) (equal e) = metadata_lt-less a c (rw e at ab)
      by_times (less ab _) (greater bc cb) =
          let clash : true ≡ false = sym k ∙ metadata_lt-greater b c bc cb in cc
      by_times (equal e) (less bc _) = metadata_lt-less a c (rw e bc)
      by_times (equal e) (greater bc cb) =
          let clash : true ≡ false = sym k ∙ metadata_lt-greater b c bc cb in cc
      by_times (equal e) (equal d) =
          metadata_lt-equal a c (e ∙ d)
          ∙ digest_lt_trans a.url b.url c.url (sym (metadata_lt-equal a b e) ∙ h)
              (sym (metadata_lt-equal b c d) ∙ k)

  pub metadata_lt_total :
      (a b : ResolvedMetadata) → metadata_lt a b ≡ false → metadata_lt b a ≡ false → a ≡ b
  metadata_lt_total a b h k = elim (compared times a.timestamp b.timestamp) [
    | less ab _ ↦ let clash : true ≡ false = sym (metadata_lt-less a b ab) ∙ h in cc
    | greater _ ba ↦ let clash : true ≡ false = sym (metadata_lt-less b a ba) ∙ k in cc
    | equal e ↦
        let urls : a.url ≡ b.url =
          digest_lt-tri a.url b.url (sym (metadata_lt-equal a b e) ∙ h)
            (sym (metadata_lt-equal b a (sym e)) ∙ k) in
        ap₂ (λ t u. let m : ResolvedMetadata = record { timestamp = t; url = u } in m) e urls
  ]

  abbrev pub metadata_order : Order
  metadata_order = record {
    Key = ResolvedMetadata;
    lt = metadata_lt;
    irreflexive = metadata_lt-irreflexive;
    transitive = metadata_lt_trans;
    total = metadata_lt_total;
  }
