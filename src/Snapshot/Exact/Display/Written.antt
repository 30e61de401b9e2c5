-- ===== src/Snapshot/Exact/Display/Written.antt =====
-- crates/json/src/exact.rs: each optional field of a line, written and read back.
use archivindex_wbm.Common.{
  ℕ, true, false, [], ◌∷◌, ◌++◌, ◌≡◌, ◌≢◌, refl, ap, inl, inr, Option, none, some, Result, ok,
  Bytes, codes, length, take_exact, drop_exact, length-append, append_assoc, strip_prefix, leb,
  Bool-cases, Option-cases, arith, ◌⊎◌,
}
use archivindex_wbm.Snapshot.Exact.Display.{
  needs_json_escaping, is_some, show_text, show_expected, show_url, show_stamp, is_shown,
  show_object, show_format,
}
use archivindex_wbm.Snapshot.Exact.Object.{IsObject, read_object_value-IsObject}
use archivindex_wbm.Snapshot.Exact.{
  Error, expect, slice, digest_len, timestamp_len, read_string_value, parse_expected, parse_url,
  parse_stamp, parse_format, default_format,
}
use archivindex_wbm.Snapshot.{other, FormatInfo, Fields}

-- What the model relies on of the packages that read and write the fields: they read back what they
-- wrote, at the documented lengths, and an object is JSON text. `Reads` holds of the metadata that
-- `serde_json` reads back: it has no key that the other fields use, and no number that loses digits.
module _ (fields : Fields) where
  open fields use {
    Timestamp, Metadata, parse_digest, show_digest, parse_timestamp, show_timestamp, no_metadata,
    is_empty, read_format, write_format,
  }

  pub record FieldLaws : Type 1 where
    pub Reads : Metadata → Type 0
    pub parse-show_digest : (d : Bytes) → length d ≡ 20 → parse_digest (show_digest d) ≡ some d
    pub length-show_digest : (d : Bytes) → length d ≡ 20 → length (show_digest d) ≡ digest_len
    pub parse-show_timestamp : (t : Timestamp) → parse_timestamp (show_timestamp t) ≡ some t
    pub length-show_timestamp : (t : Timestamp) → length (show_timestamp t) ≡ timestamp_len
    pub eq-no_metadata : (m : Metadata) → is_empty m ≡ true → m ≡ no_metadata
    pub read-write_format :
        (f : FormatInfo Metadata) (text : Bytes)
        → f.name ≢ other (codes "utf8")
        → Reads f.metadata
        → write_format f ≡ some text
        → read_format text ≡ some f
    pub write_format-IsObject :
        (f : FormatInfo Metadata) (text : Bytes) → write_format f ≡ some text → IsObject text

-- The text of a field under `key` stands before the quote of the next key, and is read up to there.
-- A field that is absent leaves the rest as it is.
pub record IsField {A : Type 0} (key : Bytes) (parser : Bytes → Result (A × Bytes) Error) (a : A)
    (text rest : Bytes) : Type 0 where
  pub inner : Bytes
  pub quoted : text ++ (b'"' ∷ rest) ≡ b'"' ∷ inner
  pub read : parser inner ≡ ok (a, rest)
  pub starts : (inner ≡ rest) ⊎ ((more : Bytes) × (inner ≡ key ++ more))

pub slice_exact : (n : ℕ) (s rest : Bytes) → length s ≡ n → slice n (s ++ rest) ≡ ok (s, rest)
unfolding slice
slice_exact n s rest h =
    let fits : leb (length s) (length (s ++ rest)) ≡ true = ground (arith, length-append s rest) in
    rw (← h, fits, take_exact s rest, drop_exact s rest)

read_string_value_exact :
    (s rest : Bytes)
    → needs_json_escaping s ≡ false
    → read_string_value (s ++ (b'"' ∷ rest)) ≡ ok (s, b'"' ∷ rest)
unfolding read_string_value needs_json_escaping
read_string_value_exact [] rest h = refl
read_string_value_exact (c ∷ s) rest h = ground (arith, read_string_value_exact s rest)

show_text-parts :
    (key value text : Bytes)
    → show_text key value ≡ some text
    → (needs_json_escaping value ≡ false)
      × (text ≡ b'"' ∷ (key ++ (codes "\":\"" ++ (value ++ codes "\","))))
unfolding show_text
show_text-parts key value text h = ground arith

absent-IsField :
    {A : Type 0} (key : Bytes) (parser : Bytes → Result (A × Bytes) Error) (a : A) (rest : Bytes)
    → parser rest ≡ ok (a, rest)
    → IsField key parser a [] rest
absent-IsField key parser a rest h = record {
  inner = rest;
  quoted = refl;
  read = h;
  starts = inl refl;
}

-- The delimiters behind a value, with the quote of the next key.
value_end :
    (value rest : Bytes)
    → (value ++ codes "\",") ++ (b'"' ∷ rest) ≡ value ++ (codes "\",\"" ++ rest)
value_end value rest = append_assoc value (codes "\",") (b'"' ∷ rest)

some-eq : {a b : Bytes} → some a ≡ some b → a ≡ b
some-eq h = cc

pub url-IsField :
    (url : Option Bytes) (text rest : Bytes)
    → strip_prefix (codes "url") rest ≡ none
    → show_url url ≡ some text
    → IsField (codes "url") parse_url url text rest
unfolding parse_url show_url expect
url-IsField none text rest clear h =
    let empty : [] ≡ text = cc in
    rw (← empty) (absent-IsField (codes "url") parse_url none rest (rw (clear, parse_url)))
url-IsField (some url) text rest clear h =
    let (plain, written) = show_text-parts (codes "url") url text h in
    rw written (record {
      starts = inr (_, refl);
      inner = codes "url\":\"" ++ (url ++ (codes "\",\"" ++ rest));
      quoted = ap (λ t. codes "\"url\":\"" ++ t) (value_end url rest);
      read = rw (read_string_value_exact url (codes ",\"" ++ rest) plain);
    })

pub expected-IsField :
    (digest : Option Bytes) (text rest : Bytes)
    → ((d : Bytes) → digest ≡ some d → length d ≡ digest_len)
    → strip_prefix (codes "expected_digest") rest ≡ none
    → show_expected digest ≡ some text
    → IsField (codes "expected_digest") parse_expected digest text rest
unfolding parse_expected show_expected expect
expected-IsField none text rest long clear h =
    let empty : [] ≡ text = cc in
    rw (← empty) (
      absent-IsField (codes "expected_digest") parse_expected none rest
        (rw (clear, parse_expected)))
expected-IsField (some digest) text rest long clear h =
    let (plain, written) = show_text-parts (codes "expected_digest") digest text h in
    rw written (record {
      starts = inr (_, refl);
      inner = codes "expected_digest\":\"" ++ (digest ++ (codes "\",\"" ++ rest));
      quoted = ap (λ t. codes "\"expected_digest\":\"" ++ t) (value_end digest rest);
      read = rw (slice_exact digest_len digest (codes "\",\"" ++ rest) (long digest refl));
    })

module _ (fields : Fields) (laws : FieldLaws fields) where
  open fields use {Timestamp, Metadata, show_timestamp, is_empty, write_format}

  pub stamp-IsField :
      (t : Option Timestamp) (rest : Bytes)
      → strip_prefix (codes "timestamp") rest ≡ none
      → IsField (codes "timestamp") (parse_stamp fields) t (show_stamp fields t) rest
  unfolding parse_stamp show_stamp expect
  stamp-IsField none rest clear =
      absent-IsField (codes "timestamp") (parse_stamp fields) none rest (rw (clear, parse_stamp))
  stamp-IsField (some t) rest clear =
      let value = show_timestamp t in
      record {
        starts = inr (_, refl);
        inner = codes "timestamp\":\"" ++ (value ++ (codes "\",\"" ++ rest));
        quoted = ap (λ s. codes "\"timestamp\":\"" ++ s) (value_end value rest);
        read = rw (
          slice_exact timestamp_len value (codes "\",\"" ++ rest) (laws.length-show_timestamp t),
          laws.parse-show_timestamp t,
        );
      }

  -- A format that is left out is the default one.
  hidden-default : (f : FormatInfo Metadata) → is_shown fields f ≡ false → f ≡ default_format fields
  unfolding is_shown default_format is_some
  hidden-default f h = ground (arith, laws.eq-no_metadata f.metadata)

  object_end :
      (object rest : Bytes)
      → (object ++ codes ",") ++ (b'"' ∷ rest) ≡ object ++ (codes ",\"" ++ rest)
  object_end object rest = append_assoc object (codes ",") (b'"' ∷ rest)

  pub format-IsField :
      (f : FormatInfo Metadata) (text rest : Bytes)
      → f.name ≢ other (codes "utf8")
      → laws.Reads f.metadata
      → strip_prefix (codes "format") rest ≡ none
      → show_format fields f ≡ some text
      → IsField (codes "format") (parse_format fields) f text rest
  unfolding show_format parse_format expect show_object
  format-IsField f text rest named reads clear h = elim (Bool-cases (is_shown fields f)) [
    | inr hidden ↦
        let empty : [] ≡ text = some-eq (rw hidden at h) in
        rw (← empty) (
          absent-IsField (codes "format") (parse_format fields) f rest
            (rw (clear, parse_format, hidden-default f hidden)))
    | inl shown ↦ elim (Option-cases (write_format f)) [
      | inl failed ↦ let nothing = rw (shown, failed) at h in cc
      | inr (object, written) ↦
          let made = some-eq (rw (shown, written) at h) in
          let is_object = laws.write_format-IsObject f object written in
          rw (← made) (record {
            starts = inr (_, refl);
            inner = codes "format\":" ++ (object ++ (codes ",\"" ++ rest));
            quoted = ap (λ s. codes "\"format\":" ++ s) (object_end object rest);
            read = rw (
              read_object_value-IsObject (codes ",\"" ++ rest) is_object,
              laws.read-write_format f object named reads written,
            );
          })
    ]
  ]
