-- ===== src/Process/Pack/Names.antt =====
-- crates/json-processing/src/process/pack.rs, skip.rs: the snapshot that `prepare` makes of a file.
use archivindex_wbm.Common.{
  Bool, true, false, ◌≡◌, ap, ◌∙◌, Option, none, some, Result, ok, err, Bytes, bytes_eq,
  bytes_eq_sound, Bool-cases, Result-cases, inl, inr,
}
use archivindex_wbm.Io.{Output}
use archivindex_wbm.Process.Pack.{or_default, with_expected, declare, prepare}
use archivindex_wbm.Process.Skip.{built, read_verified, build_snapshot}
use archivindex_wbm.Snapshot.Recovery.Encoding.Inverse.{
  IsRead, refused, broken, is_read, made, unprocessed_snapshot-IsRead,
}
use archivindex_wbm.Snapshot.Recovery.Encoding.{Sha1, SnapshotError}
use archivindex_wbm.Snapshot.Recovery.Whitespace.{IsWhitespace}
use archivindex_wbm.Snapshot.{Format, FormatInfo, Snapshot, Context, Fields}

-- Whether there is a value.
abbrev pub is_there : {A : Type 0} → Option A → Bool
is_there none = false
is_there (some x) = true

module _ (fields : Fields) (sha1 : Sha1) {E : Type 0} (output : Output E)
    (broken_output : output.Writer → E × output.Writer) where
  open fields use {Timestamp, Metadata}
  open sha1 use {start, update, finalize}

  -- The file at `path` was read as bytes with the digest that it is named by, which is the digest of
  -- the snapshot, with the digest that the log declares for it.
  abbrev pub IsNamed :
      (Bytes → Result Bytes E)
      → (Bytes → Option Bytes)
      → Bytes
      → Bytes
      → Snapshot Timestamp Metadata
      → Bool
      → Type 0
  IsNamed read expected_digests digest path s has =
      (bytes : Bytes) × (read path ≡ ok bytes)
      × (finalize (update start bytes) ≡ digest)
      × (s.digest ≡ digest)
      × (s.expected_digest ≡ expected_digests digest)
      × (has ≡ is_there (expected_digests digest))

  read_verified_sound :
      (r : Result Bytes E) (digest bytes : Bytes)
      → read_verified fields sha1 r digest ≡ ok bytes
      → (r ≡ ok bytes) × (finalize (update start bytes) ≡ digest)
  unfolding read_verified
  read_verified_sound (err e) digest bytes h = cc
  read_verified_sound (ok own) digest bytes h =
      elim (Bool-cases (bytes_eq (finalize (update start own)) digest)) [
        | inr differs ↦ let nothing = rw differs at h in cc
        | inl same ↦
            let h' = rw same at h in
            let own_is : own ≡ bytes = cc in
            let e = bytes_eq_sound (finalize (update start own)) digest same in
            (ap ok own_is, rw (← own_is) e)
      ]

  declare_sound :
      (c : Context Metadata) (name : Format) (bytes : Bytes) (expected : Option Bytes)
      (format : FormatInfo Metadata) (r : Result (Snapshot Timestamp Metadata) SnapshotError)
      (s : Snapshot Timestamp Metadata) (has : Bool)
      → IsRead fields sha1 c name bytes r
      → declare fields sha1 output broken_output expected (some (built fields sha1 format r))
        ≡ some (ok (s, has))
      → (s.digest ≡ finalize (update start bytes))
        × (s.expected_digest ≡ expected)
        × (has ≡ is_there expected)
  unfolding declare built with_expected made
  declare_sound c name bytes expected format r s has (refused e failed) h = cc
  declare_sound c name bytes expected format r s has (broken content w d t hw b) h = cc
  declare_sound c name bytes none format r s has (is_read content w d t hw clean) h = (cc, cc, cc)
  declare_sound c name bytes (some e) format r s has (is_read content w d t hw clean) h =
      (cc, cc, cc)

  -- Under a default of JSON whitespace, a snapshot that is made of a file goes by the digest that the
  -- file is named by, which is the digest of the bytes read; it carries the digest that the log
  -- declares for this one, if any, and is counted just then.
  pub prepare-IsNamed :
      (read : Bytes → Result Bytes E) (expected_digests : Bytes → Option Bytes)
      (detect_format : Bytes → Option (FormatInfo Metadata)) (c : Context Metadata)
      (digest path : Bytes) (s : Snapshot Timestamp Metadata) (has : Bool)
      → IsWhitespace c.default_closing_whitespace
      → prepare fields sha1 output broken_output read expected_digests detect_format c
          (digest, path)
        ≡ some (ok (s, has))
      → IsNamed read expected_digests digest path s has
  unfolding prepare build_snapshot
  prepare-IsNamed read expected_digests detect_format c digest path s has hd h =
      elim (Result-cases (read_verified fields sha1 (read path) digest)) [
        | inr (reason, failed) ↦ let nothing = rw (prepare, failed) at h in cc
        | inl (bytes, verified) ↦
            let (is_bytes, e) = read_verified_sound (read path) digest bytes verified in
            let format = or_default fields sha1 output broken_output (detect_format bytes) in
            let (r, is_r, how) = unprocessed_snapshot-IsRead fields sha1 c format.name bytes hd in
            let h' = rw (prepare, verified, build_snapshot, is_r) at h in
            let (named, declared, counted) =
              declare_sound c format.name bytes (expected_digests digest) format r s has how h' in
            (bytes, is_bytes, e, named ∙ e, declared, counted)
      ]
