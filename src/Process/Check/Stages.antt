-- ===== src/Process/Check/Stages.antt =====
-- crates/json-processing/src/process/check.rs: what each test of a line says of the success of the
-- check.
use archivindex_wbm.Common.{
  ◌⊎◌, ℕ, Bool, true, false, not, ◌&&◌, ◌≡◌, sym, ◌∙◌, Option, none, some, Result, ok, err, Bytes,
  bytes_eq, bytes_eq_refl, bytes_eq_sound, arith, Bool-cases, inl, inr,
}
use archivindex_wbm.Digest.Orders.{byte_order}
use archivindex_wbm.Process.Check.{
  Summary, is_successful, check_digest, check_order, check_timestamp, check_expected, check_url,
  is_redundant_digest, is_redundant_url,
}
use archivindex_wbm.Process.Sorted.Sets.{compared, less, greater, equal}
use archivindex_wbm.Snapshot.Recovery.Encoding.{
  mismatch, unsupported_format, invalid_whitespace, Sha1, ValidationError,
}
use archivindex_wbm.Snapshot.Validation.Order.{is_nil-push}
use archivindex_wbm.Snapshot.Validation.{digest_lt, is_after}
use archivindex_wbm.Snapshot.{Fields}

abbrev pub is_verified : Result (Unit {0}) ValidationError → Bool
is_verified (ok _) = true
is_verified (err e) = false

pub check_digest-is_successful :
    (line : ℕ) (digest : Bytes) (r : Result (Unit {0}) ValidationError) (s : Summary)
    → is_successful (check_digest line digest r s) ≡ (is_successful s && is_verified r)
unfolding is_successful check_digest
check_digest-is_successful line digest (ok _) s = ground arith
check_digest-is_successful line digest (err (mismatch a)) s =
    ground (arith, is_nil-push s.digest_mismatches digest)
check_digest-is_successful line digest (err (unsupported_format a)) s =
    ground (arith, is_nil-push s.unsupported_formats digest)
check_digest-is_successful line digest (err (invalid_whitespace a)) s =
    ground (arith, is_nil-push s.schema_errors line)

pub check_order-is_successful :
    (last : Option Bytes) (digest : Bytes) (s : Summary)
    → is_successful (check_order last digest s) ≡ (is_successful s && is_after last digest)
unfolding is_successful check_order is_after
check_order-is_successful none digest s = ground arith
check_order-is_successful (some last) digest s = elim (compared byte_order last digest) [
  | less before behind ↦
      let differ : bytes_eq digest last ≡ false =
        differs (Bool-cases (bytes_eq digest last)) before in
      rw (check_order, differ, behind, before) (ground arith)
  | equal e ↦
      let same : bytes_eq digest last ≡ true = rw e (bytes_eq_refl digest) in
      let early : digest_lt last digest ≡ false = rw e (byte_order.irreflexive digest) in
      rw (check_order, same, early) (ground (arith, is_nil-push s.duplicates digest))
  | greater not_before early ↦ elim (Bool-cases (bytes_eq digest last)) [
    | inl same ↦
        rw (check_order, same, not_before) (ground (arith, is_nil-push s.duplicates digest))
    | inr differ ↦
        rw (check_order, differ, early, not_before)
          (ground (arith, is_nil-push s.out_of_order digest))
  ]
]
  where
    differs :
        (bytes_eq digest last ≡ true) ⊎ (bytes_eq digest last ≡ false)
        → digest_lt last digest ≡ true
        → bytes_eq digest last ≡ false
    differs (inr differ) before = differ
    differs (inl same) before =
        let e : digest ≡ last = bytes_eq_sound digest last same in
        let early : digest_lt last digest ≡ false = rw (← e) (byte_order.irreflexive digest) in
        let clash : true ≡ false = sym before ∙ early in cc

module _ (fields : Fields) (sha1 : Sha1) where
  -- A URL never stands without a timestamp.
  abbrev pub is_stamped : Option fields.Timestamp → Option Bytes → Bool
  is_stamped (some timestamp) url = true
  is_stamped none none = true
  is_stamped none (some url) = false

  pub check_timestamp-is_successful :
      (digest : Bytes) (t : Option fields.Timestamp) (url : Option Bytes) (s : Summary)
      → is_successful (check_timestamp fields sha1 digest t url s)
        ≡ (is_successful s && is_stamped t url)
  unfolding is_successful check_timestamp
  check_timestamp-is_successful digest (some t) url s = ground arith
  check_timestamp-is_successful digest none none s = ground arith
  check_timestamp-is_successful digest none (some url) s =
      ground (arith, is_nil-push s.url_without_timestamp digest)

  pub check_expected-is_successful :
      (expected : Option Bytes) (digest : Bytes) (s : Summary)
      → is_successful (check_expected fields sha1 expected digest s)
        ≡ (is_successful s && not (is_redundant_digest fields sha1 expected digest))
  unfolding is_successful check_expected
  check_expected-is_successful expected digest s =
      elim (Bool-cases (is_redundant_digest fields sha1 expected digest)) [
        | inl redundant ↦
            rw (check_expected, redundant)
              (ground (arith, is_nil-push s.redundant_expected_digest digest))
        | inr fresh ↦ rw (check_expected, fresh) (ground arith)
      ]

  pub check_url-is_successful :
      (url inferred : Option Bytes) (digest : Bytes) (s : Summary)
      → is_successful (check_url fields sha1 url inferred digest s)
        ≡ (is_successful s && not (is_redundant_url fields sha1 url inferred))
  unfolding is_successful check_url
  check_url-is_successful url inferred digest s =
      elim (Bool-cases (is_redundant_url fields sha1 url inferred)) [
        | inl redundant ↦
            rw (check_url, redundant) (ground (arith, is_nil-push s.redundant_url digest))
        | inr fresh ↦ rw (check_url, fresh) (ground arith)
      ]
