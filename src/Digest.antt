-- ===== src/Digest.antt =====
-- crates/wbm/src/digest.rs: the digests of CDX records. A SHA-1 digest is a list of twenty bytes.
pub mod Orders
use archivindex_wbm.Common.{Bool, true, false, Option, none, some, Bytes}
use archivindex_wbm.Snapshot.Validation.{digest_lt}

-- `Digest`.
pub data CdxDigest : Type 0 where
  valid_digest : Bytes → CdxDigest
  invalid_digest : Bytes → CdxDigest

-- `Digest::valid`.
unfoldable pub valid : CdxDigest → Option Bytes
valid (valid_digest digest) = some digest
valid (invalid_digest text) = none

-- The derived order.
unfoldable pub cdx_lt : CdxDigest → CdxDigest → Bool
cdx_lt (valid_digest a) (valid_digest b) = digest_lt a b
cdx_lt (valid_digest a) (invalid_digest b) = true
cdx_lt (invalid_digest a) (valid_digest b) = false
cdx_lt (invalid_digest a) (invalid_digest b) = digest_lt a b
