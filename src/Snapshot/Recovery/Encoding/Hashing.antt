-- ===== src/Snapshot/Recovery/Encoding/Hashing.antt =====
-- crates/json/src/context.rs: `verify`, whose hasher is fed through a buffer, compares the digest of the
-- bytes that `encode` gives.
use archivindex_wbm.Common.{
  ℕ, List, [], ◌∷◌, ◌++◌, ◌≡◌, refl, none, some, Result, ok, err, Result-cases, Bytes, length,
  bytes_eq, ◌==◌, if◌then◌else◌, Bool-cases, inl, inr, ◌⊎◌, append_assoc, append-nil,
}
use archivindex_wbm.Snapshot.Recovery.Whitespace.{IsWhitespace}
use archivindex_wbm.Snapshot.Recovery.Encoding.{
  ValidationError, mismatch, invalid_whitespace, Outcome, Sha1, char_whitespace_to_bytes,
  invalid_closing_whitespace, encode, encode_other, buffer_len, update_whitespace, feed, verify,
}
use archivindex_wbm.Snapshot.{
  Format, utf8, other, Snapshot, Context, Fields, is_json_whitespace, closing_whitespace,
}

Format-cases : (f : Format) → (f ≡ utf8) ⊎ ((name : Bytes) × (f ≡ other name))
Format-cases utf8 = inl refl
Format-cases (other name) = inr (name, refl)

-- Both scans of the whitespace find the same first character that is not JSON whitespace.
pub IsWhitespace-cases :
    (cs : List ℕ)
    → (IsWhitespace cs
        × (invalid_closing_whitespace cs ≡ none)
        × (char_whitespace_to_bytes cs ≡ ok cs))
      ⊎ ((c : ℕ) × (invalid_closing_whitespace cs ≡ some c)
          × (char_whitespace_to_bytes cs ≡ err (invalid_whitespace c)))
unfolding invalid_closing_whitespace char_whitespace_to_bytes
IsWhitespace-cases [] = inl (tt, refl, refl)
IsWhitespace-cases (c ∷ cs) = elim (Bool-cases (is_json_whitespace c)) [
  | inr bad ↦ inr (c, rw bad, rw bad)
  | inl white ↦ elim (IsWhitespace-cases cs) [
    | inl (all, none_bad, bytes) ↦ inl ((white, all), rw white none_bad, rw (white, bytes))
    | inr (bad, found, failed) ↦ inr (bad, rw white found, rw (white, failed))
  ]
]

module _ (fields : Fields) (sha1 : Sha1) where
  open fields use {Timestamp, Metadata}
  open sha1 use {Hasher, start, update, finalize}

  -- Updates in turn are one update.
  unfoldable pub IsStreaming : Type 0
  IsStreaming = (h : Hasher) (a b : Bytes) → update (update h a) b ≡ update h (a ++ b)

  update_whitespace-all :
      IsStreaming
      → (cs : List ℕ) (h : Hasher) (buffered : Bytes) → IsWhitespace cs
      → update_whitespace fields sha1 cs h buffered ≡ (ok tt, update h (buffered ++ cs))
  unfolding update_whitespace IsStreaming
  update_whitespace-all streams [] h buffered hw = rw append-nil refl
  update_whitespace-all streams (c ∷ cs) h buffered (hc, hw) =
      let full = buffered ++ c ∷ [] in
      let behind : full ++ cs ≡ buffered ++ (c ∷ cs) = append_assoc buffered (c ∷ []) cs in
      let flushed = update_whitespace-all streams cs (update h full) [] hw in
      let kept = update_whitespace-all streams cs h full hw in
      elim (Bool-cases (length full == buffer_len)) [
        | inl e ↦ rw (hc, e, flushed, streams h full cs, behind)
        | inr e ↦ rw (hc, e, kept, behind)
      ]

  fed_bytes : Hasher → Result Bytes ValidationError → Outcome × Hasher
  fed_bytes hasher (err e) = (err e, hasher)
  fed_bytes hasher (ok bytes) = (ok tt, update hasher bytes)

  feed-encode :
      (streams : IsStreaming) (c : Context Metadata) (s : Snapshot Timestamp Metadata)
      (hasher : Hasher)
      → feed fields sha1 c s hasher ≡ fed_bytes hasher (encode fields sha1 c s)
  unfolding feed encode fed_bytes IsStreaming
  feed-encode streams c s hasher = elim (Format-cases s.format.name) [
    | inl named ↦ elim (IsWhitespace-cases (closing_whitespace c s)) [
      | inl (all, none_bad, bytes) ↦
          let fed =
            update_whitespace-all streams (closing_whitespace c s) (update hasher s.content) []
              all in
          rw (
            feed,
            encode,
            named,
            none_bad,
            bytes,
            fed,
            streams hasher s.content (closing_whitespace c s),
          )
      | inr (bad, found, failed) ↦ rw (feed, encode, named, found, failed)
    ]
    | inr (name, named) ↦ elim (Result-cases (encode_other fields sha1 c s (other name))) [
      | inl (bytes, made) ↦ rw (feed, encode, named, made)
      | inr (e, failed) ↦ rw (feed, encode, named, failed)
    ]
  ]

  -- The check of a digest, of the bytes it is the digest of.
  unfoldable pub check_digest :
      Snapshot Timestamp Metadata → Hasher → Result Bytes ValidationError → Outcome × Hasher
  check_digest s hasher (err e) = (err e, hasher)
  check_digest s hasher (ok bytes) =
      let digest = finalize (update hasher bytes) in
      (if bytes_eq digest s.digest then ok tt else err (mismatch digest), start)

  -- For a hasher that takes updates in turn as one, verifying a snapshot is encoding it and comparing
  -- the digest of the bytes: it gives the errors of the encoder and leaves the hasher as it was with
  -- them, and else it resets the hasher.
  pub verify-encode :
      (streams : IsStreaming) (c : Context Metadata) (s : Snapshot Timestamp Metadata)
      (hasher : Hasher)
      → verify fields sha1 c s hasher ≡ check_digest s hasher (encode fields sha1 c s)
  unfolding verify check_digest fed_bytes
  verify-encode streams c s hasher = elim (Result-cases (encode fields sha1 c s)) [
    | inl (bytes, made) ↦
        let fed : feed fields sha1 c s hasher ≡ (ok tt, update hasher bytes) =
          rw made at (feed-encode streams c s hasher) in
        rw (made, fed, verify, fed)
    | inr (e, failed) ↦
        let fed : feed fields sha1 c s hasher ≡ (err e, hasher) =
          rw failed at (feed-encode streams c s hasher) in
        rw (failed, fed, verify, fed)
  ]
