-- ===== src/Digest/Orders.antt =====
-- crates/wbm/src/digest.rs: the derived orders of digests are strict and total.
use archivindex_wbm.Common.{true, false, ◌≡◌, refl, ap, [], ◌∷◌, Bytes, arith}
use archivindex_wbm.Digest.{CdxDigest, valid_digest, invalid_digest, cdx_lt}
use archivindex_wbm.Process.Merge.Verdict.Step.{digest_lt-tri}
use archivindex_wbm.Process.Sorted.{Order}
use archivindex_wbm.Snapshot.Validation.{digest_lt}

pub digest_lt-irreflexive : (a : Bytes) → digest_lt a a ≡ false
unfolding digest_lt
digest_lt-irreflexive [] = refl
digest_lt-irreflexive (x ∷ a) = ground (arith, digest_lt-irreflexive a)

pub digest_lt_trans :
    (a b c : Bytes) → digest_lt a b ≡ true → digest_lt b c ≡ true → digest_lt a c ≡ true
unfolding digest_lt
digest_lt_trans a [] c h k = cc
digest_lt_trans a (y ∷ b) [] h k = cc
digest_lt_trans [] (y ∷ b) (z ∷ c) h k = refl
digest_lt_trans (x ∷ a) (y ∷ b) (z ∷ c) h k = ground (arith, digest_lt_trans a b c)

-- The order of SHA-1 digests and of texts, byte by byte.
abbrev pub byte_order : Order
byte_order = record {
  Key = Bytes;
  lt = digest_lt;
  irreflexive = digest_lt-irreflexive;
  transitive = digest_lt_trans;
  total = digest_lt-tri;
}

pub cdx_lt-irreflexive : (a : CdxDigest) → cdx_lt a a ≡ false
unfolding cdx_lt
cdx_lt-irreflexive (valid_digest a) = digest_lt-irreflexive a
cdx_lt-irreflexive (invalid_digest a) = digest_lt-irreflexive a

pub cdx_lt_trans : (a b c : CdxDigest) → cdx_lt a b ≡ true → cdx_lt b c ≡ true → cdx_lt a c ≡ true
unfolding cdx_lt
cdx_lt_trans (valid_digest a) (valid_digest b) (valid_digest c) h k = digest_lt_trans a b c h k
cdx_lt_trans (valid_digest a) b (invalid_digest c) h k = refl
cdx_lt_trans (valid_digest a) (invalid_digest b) (valid_digest c) h k = cc
cdx_lt_trans (invalid_digest a) (valid_digest b) c h k = cc
cdx_lt_trans (invalid_digest a) (invalid_digest b) (valid_digest c) h k = cc
cdx_lt_trans (invalid_digest a) (invalid_digest b) (invalid_digest c) h k =
    digest_lt_trans a b c h k

pub cdx_lt_total : (a b : CdxDigest) → cdx_lt a b ≡ false → cdx_lt b a ≡ false → a ≡ b
unfolding cdx_lt
cdx_lt_total (valid_digest a) (valid_digest b) h k = ap valid_digest (digest_lt-tri a b h k)
cdx_lt_total (valid_digest a) (invalid_digest b) h k = cc
cdx_lt_total (invalid_digest a) (valid_digest b) h k = cc
cdx_lt_total (invalid_digest a) (invalid_digest b) h k = ap invalid_digest (digest_lt-tri a b h k)

abbrev pub cdx_order : Order
cdx_order = record {
  Key = CdxDigest;
  lt = cdx_lt;
  irreflexive = cdx_lt-irreflexive;
  transitive = cdx_lt_trans;
  total = cdx_lt_total;
}
