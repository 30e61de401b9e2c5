-- ===== src/Snapshot/Recovery/Encoding/Inverse.antt =====
-- crates/json/src/context.rs: `encode` gives back the bytes that `unprocessed_snapshot` read.
use archivindex_wbm.Common.{
  ℕ, ◌-◌, true, false, List, [], ◌∷◌, ◌++◌, ◌≡◌, refl, sym, ap, ◌∙◌, none, some, Result, ok, err,
  Result-cases, Option-cases, Bytes, length, bytes_eq, bytes_eq_sound, length-append,
  slice_to_exact, sum, map, leb, if◌then◌else◌, arith, Bool-cases, inl, inr,
}
use archivindex_wbm.Snapshot.Recovery.Whitespace.{
  IsWhitespace, IsTrimmed, run-cases, non_default-run,
}
use archivindex_wbm.Snapshot.Recovery.Encoding.{
  SnapshotError, internal_line_break, Sha1, len_utf8, char_whitespace_to_bytes,
  invalid_closing_whitespace, has_line_break, strip, from_text, decode, unprocessed_snapshot,
  encode, encode_other, is_text,
}
use archivindex_wbm.Snapshot.Recovery.{codec, non_default_closing_whitespace}
use archivindex_wbm.Snapshot.{
  Format, utf8, other, Snapshot, Codec, Context, Fields, is_json_whitespace, closing_whitespace,
}

width : (w : List ℕ) → IsWhitespace w → sum (map len_utf8 w) ≡ length w
unfolding len_utf8 is_json_whitespace
width [] h = refl
width (c ∷ w) (hc, h) = ground (arith, width w h)

whitespace_bytes : (w : List ℕ) → IsWhitespace w → char_whitespace_to_bytes w ≡ ok w
unfolding char_whitespace_to_bytes
whitespace_bytes [] h = refl
whitespace_bytes (c ∷ w) (hc, h) = rw (hc, whitespace_bytes w h)

no_invalid : (w : List ℕ) → IsWhitespace w → invalid_closing_whitespace w ≡ none
unfolding invalid_closing_whitespace
no_invalid [] h = refl
no_invalid (c ∷ w) (hc, h) = rw hc (no_invalid w h)

module _ (fields : Fields) (sha1 : Sha1) where
  open fields use {Timestamp, Metadata, no_metadata}
  open sha1 use {start, update, finalize}

  strip-run :
      (content w : Bytes) → IsWhitespace w → strip fields sha1 w (content ++ w) ≡ some content
  unfolding strip
  strip-run content w h =
      let long : leb (length w) (length (content ++ w)) ≡ true =
        ground (arith, length-append content w) in
      let left : length (content ++ w) - length w ≡ length content =
        omega (arith, length-append content w) in
      rw (width w h, long, left, slice_to_exact content w, strip)

  -- What `from_text` makes of a trimmed content and whitespace.
  unfoldable pub made :
      Context Metadata → Format → Bytes → Bytes → Bytes → Snapshot Timestamp Metadata
  made c format bytes content w = record {
    digest = finalize (update start bytes);
    expected_digest = none;
    timestamp = none;
    url = none;
    format = record {
      name = format;
      closing_whitespace = if bytes_eq w c.default_closing_whitespace then none else some w;
      metadata = no_metadata;
    };
    content = content;
  }

  from_text-run :
      (c : Context Metadata) (format : Format) (bytes content w : Bytes)
      → IsWhitespace c.default_closing_whitespace
      → IsWhitespace w
      → IsTrimmed content
      → from_text fields sha1 c format bytes (content ++ w)
        ≡ some (
            if has_line_break content
            then err internal_line_break
            else ok (made c format bytes content w))
  unfolding from_text made
  from_text-run c format bytes content w hd hw trimmed =
      let found = non_default-run c.default_closing_whitespace content w hd hw trimmed in
      elim (Bool-cases (bytes_eq w c.default_closing_whitespace)) [
        | inr differs ↦ rw (found, differs, strip-run content w hw, from_text, found, differs)
        | inl same ↦
            let e = bytes_eq_sound w c.default_closing_whitespace same in
            let found' : non_default_closing_whitespace c.default_closing_whitespace (content ++ w)
                ≡ none =
              found ∙ rw same refl in
            let stripped : strip fields sha1 c.default_closing_whitespace (content ++ w)
                ≡ some content =
              rw (← e) (strip-run content w hw) in
            rw (found', stripped, from_text, found', same)
      ]

  closing_whitespace-made :
      (c : Context Metadata) (format : Format) (bytes content w : Bytes)
      → closing_whitespace c (made c format bytes content w) ≡ w
  unfolding closing_whitespace made
  closing_whitespace-made c format bytes content w =
      elim (Bool-cases (bytes_eq w c.default_closing_whitespace)) [
        | inr differs ↦ rw differs
        | inl same ↦ rw (same, bytes_eq_sound w c.default_closing_whitespace same)
      ]

  -- What a file is read as: the decoder's refusal, or the decoded text parted into a trimmed content
  -- and whitespace, where the content has no line break.
  pub data IsRead (c : Context Metadata) (format : Format) (bytes : Bytes)
      : Result (Snapshot Timestamp Metadata) SnapshotError → Type 0 where
    refused :
        (e : SnapshotError)
        → decode fields sha1 c format bytes ≡ err e
        → IsRead c format bytes (err e)
    broken :
        (content w : Bytes)
        → decode fields sha1 c format bytes ≡ ok (content ++ w)
        → IsTrimmed content
        → IsWhitespace w
        → has_line_break content ≡ true
        → IsRead c format bytes (err internal_line_break)
    is_read :
        (content w : Bytes)
        → decode fields sha1 c format bytes ≡ ok (content ++ w)
        → IsTrimmed content
        → IsWhitespace w
        → has_line_break content ≡ false
        → IsRead c format bytes (ok (made c format bytes content w))

  -- Under a default of JSON whitespace, reading a file panics nowhere. It gives the decoder's refusal;
  -- or it parts the text into a content and the whitespace at its end, and refuses a content with a
  -- line break, and else gives the snapshot of the content, the whitespace where it is not the
  -- default, and the digest of the bytes.
  pub unprocessed_snapshot-IsRead :
      (c : Context Metadata) (format : Format) (bytes : Bytes)
      → IsWhitespace c.default_closing_whitespace
      → (r : Result (Snapshot Timestamp Metadata) SnapshotError) × (unprocessed_snapshot fields sha1
            c format bytes
          ≡ some r)
        × IsRead c format bytes r
  unfolding unprocessed_snapshot
  unprocessed_snapshot-IsRead c format bytes hd =
      elim (Result-cases (decode fields sha1 c format bytes)) [
        | inr (e, failed) ↦ (err e, rw (failed, unprocessed_snapshot), refused e failed)
        | inl (full, decoded) ↦
            let (content, w, e, trimmed, hw) = run-cases full in
            let run = from_text-run c format bytes content w hd hw trimmed in
            let decoded' = decoded ∙ ap ok e in
            elim (Bool-cases (has_line_break content)) [
              | inl has ↦ (
                err internal_line_break,
                rw (decoded', run, has, unprocessed_snapshot),
                broken content w decoded' trimmed hw has,
              )
              | inr clean ↦ (
                ok (made c format bytes content w),
                rw (decoded', run, clean, unprocessed_snapshot),
                is_read content w decoded' trimmed hw clean,
              )
            ]
      ]

  -- The bytes `out` that the bytes of a file are encoded as: for UTF-8 they are these bytes, and else
  -- what the encoder of the format makes of the text that its decoder reads.
  abbrev pub IsRecoded : Context Metadata → Format → Bytes → Bytes → Type 0
  IsRecoded c utf8 bytes out = out ≡ bytes
  IsRecoded c (other name) bytes out =
      (k : Codec Metadata) × (full : Bytes) × (codec c (other name) ≡ some k)
      × (k.decode bytes ≡ some full)
      × (out ≡ k.encode full no_metadata)

  encode-made :
      (c : Context Metadata) (format : Format) (bytes content w : Bytes)
      → decode fields sha1 c format bytes ≡ ok (content ++ w)
      → IsWhitespace w
      → (out : Bytes) × (encode fields sha1 c (made c format bytes content w) ≡ ok out)
        × IsRecoded c format bytes out
  unfolding encode made decode encode_other
  encode-made c utf8 bytes content w decoded hw =
      let own = closing_whitespace-made c utf8 bytes content w in
      elim (Bool-cases (is_text [] bytes)) [
        | inl good ↦
            let same : ok bytes ≡ ok (content ++ w) = rw good at decoded in
            let bytes_is : bytes ≡ content ++ w = cc in
            (bytes, rw (own, whitespace_bytes w hw) (ap ok (sym bytes_is)), refl)
        | inr bad ↦ let refused' = rw bad at decoded in cc
      ]
  encode-made c (other name) bytes content w decoded hw =
      let own = closing_whitespace-made c (other name) bytes content w in
      elim (Option-cases (codec c (other name))) [
        | inl missing ↦ let refused' = rw missing at decoded in cc
        | inr (k, found) ↦ elim (Option-cases (k.decode bytes)) [
          | inl failed ↦ let refused' = rw (found, failed) at decoded in cc
          | inr (full, read) ↦
              let same : ok full ≡ ok (content ++ w) = rw (found, read) at decoded in
              let full_is : content ++ w ≡ full = cc in
              (
                k.encode full no_metadata,
                rw (found, own, no_invalid w hw, own)
                    (ap (λ t. ok (k.encode t no_metadata)) full_is),
                (k, full, found, read, refl),
              )
        ]
      ]

  read_back :
      (c : Context Metadata) (format : Format) (bytes : Bytes)
      (r : Result (Snapshot Timestamp Metadata) SnapshotError) (s : Snapshot Timestamp Metadata)
      → r ≡ ok s
      → IsRead c format bytes r
      → (out : Bytes) × (encode fields sha1 c s ≡ ok out) × IsRecoded c format bytes out
  read_back c format bytes _ s same (refused e h) = cc
  read_back c format bytes _ s same (broken content w h trimmed hw has) = cc
  read_back c format bytes _ s same (is_read content w h trimmed hw clean) =
      let s_is : made c format bytes content w ≡ s = cc in
      rw (← s_is) (encode-made c format bytes content w h hw)

  -- Under a default of JSON whitespace, a snapshot that a file is read as is encoded without an error:
  -- for UTF-8, as the bytes of the file, and for another format, as what its encoder makes, without
  -- metadata, of the whole text that its decoder reads from the file.
  pub encode-unprocessed_snapshot :
      (c : Context Metadata) (format : Format) (bytes : Bytes) (s : Snapshot Timestamp Metadata)
      → IsWhitespace c.default_closing_whitespace
      → unprocessed_snapshot fields sha1 c format bytes ≡ some (ok s)
      → (out : Bytes) × (encode fields sha1 c s ≡ ok out) × IsRecoded c format bytes out
  encode-unprocessed_snapshot c format bytes s hd h =
      let (r, is_r, how) = unprocessed_snapshot-IsRead c format bytes hd in
      let same : r ≡ ok s = cc in read_back c format bytes r s same how
