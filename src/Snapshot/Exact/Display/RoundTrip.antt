-- ===== src/Snapshot/Exact/Display/RoundTrip.antt =====
-- crates/json/src/exact.rs: the line that a snapshot is shown as is parsed to the snapshot, less the
-- URL and the closing whitespace that the context supplies.
use archivindex_wbm.Common.Options.{>>=-some}
use archivindex_wbm.Common.{
  ◌++◌, ◌≡◌, ◌≢◌, refl, sym, inl, inr, none, some, Result, ok, Bytes, codes, length, strip_prefix,
  split_last-concat, bytes_eq, bytes_eq_sound, Option-cases, Bool-cases,
}
use archivindex_wbm.Snapshot.Exact.Display.Written.{
  FieldLaws, IsField, slice_exact, url-IsField, expected-IsField, stamp-IsField, format-IsField,
}
use archivindex_wbm.Snapshot.Exact.Display.{
  show_expected, show_url, show_stamp, show_format, shown_url, shown_whitespace, shown_format,
  display,
}
use archivindex_wbm.Snapshot.Exact.{Error, expect, digest_len, parse_content, parse}
use archivindex_wbm.Snapshot.{other, Snapshot, Context, Fields, closing_whitespace}

-- A key that the rest does not begin with is not at the front of a field under another key.
clear_of :
    {A : Type 0} {key : Bytes} {parser : Bytes → Result (A × Bytes) Error} {a : A}
    {text rest : Bytes} (other_key : Bytes) (f : IsField key parser a text rest)
    → strip_prefix other_key rest ≡ none
    → ((more : Bytes) → strip_prefix other_key (key ++ more) ≡ none)
    → strip_prefix other_key f.inner ≡ none
clear_of other_key f clear differs = elim f.starts [
  | inl same ↦ rw same clear
  | inr (more, keyed) ↦ rw keyed (differs more)
]

some-eq : {a b : Bytes} → some a ≡ some b → a ≡ b
some-eq h = cc

module _ (fields : Fields) (laws : FieldLaws fields) where
  open fields use {Timestamp, Metadata, show_digest}

  -- What the line under `c` keeps of `s`.
  pub stored : Context Metadata → Snapshot Timestamp Metadata → Snapshot Timestamp Metadata
  stored c s = record s {
    url = shown_url s.url (c.infer_url s.content);
    format = shown_format fields c.default_closing_whitespace s.format;
  }

  parse_content_exact : (content : Bytes) → parse_content (content ++ codes "}") ≡ ok content
  unfolding parse_content
  parse_content_exact content = rw (split_last-concat content b'}', parse_content)

  -- The conditions under which a line can be written and read: the lengths of the digests, and a
  -- format that `serde_json` reads back.
  pub record IsStorable (s : Snapshot Timestamp Metadata) : Type 0 where
    pub digest_len_is : length s.digest ≡ 20
    pub expected_len_is : (d : Bytes) → s.expected_digest ≡ some d → length d ≡ digest_len
    pub named : s.format.name ≢ other (codes "utf8")
    pub reads : laws.Reads s.format.metadata

  -- The parts of a shown line.
  pub record IsShown (c : Context Metadata) (s : Snapshot Timestamp Metadata) (line : Bytes)
      : Type 0 where
    pub expected : Bytes
    pub url : Bytes
    pub format : Bytes
    pub expected_is : show_expected s.expected_digest ≡ some expected
    pub url_is : show_url (shown_url s.url (c.infer_url s.content)) ≡ some url
    pub format_is :
        show_format fields (shown_format fields c.default_closing_whitespace s.format) ≡ some format
    pub line_is :
        line
        ≡ codes "{\"digest\":\""
          ++ (show_digest s.digest
              ++ (codes "\","
                  ++ (expected
                      ++ (show_stamp fields s.timestamp
                          ++ (url
                              ++ (format ++ (codes "\"content\":" ++ (s.content ++ codes "}"))))))))

  pub display-IsShown :
      (c : Context Metadata) (s : Snapshot Timestamp Metadata) (line : Bytes)
      → display fields c s ≡ some line
      → IsShown c s line
  unfolding display
  display-IsShown c s line h =
      let (expected, h1, expected_is) = >>=-some _ (show_expected s.expected_digest) h in
      let (url, h2, url_is) = >>=-some _ (show_url (shown_url s.url (c.infer_url s.content))) h1 in
      let (format, h3, format_is) =
        >>=-some _ (show_format fields (shown_format fields c.default_closing_whitespace s.format))
          h2 in
      record {
        expected = expected;
        url = url;
        format = format;
        expected_is = expected_is;
        url_is = url_is;
        format_is = format_is;
        line_is = some-eq (sym h3);
      }

  parse-IsShown :
      (c : Context Metadata) (s : Snapshot Timestamp Metadata) (line : Bytes)
      → IsStorable s
      → IsShown c s line
      → parse fields line ≡ ok (stored c s)
  unfolding parse expect stored shown_format
  parse-IsShown c s line ok_s h =
      let content = codes "content\":" ++ (s.content ++ codes "}") in
      let format = shown_format fields c.default_closing_whitespace s.format in
      let url = shown_url s.url (c.infer_url s.content) in
      let f4 =
        format-IsField fields laws format h.format content ok_s.named ok_s.reads refl h.format_is in
      let f3 =
        url-IsField url h.url f4.inner (clear_of (codes "url") f4 refl (λ m. refl)) h.url_is in
      let f2 = stamp-IsField fields laws s.timestamp f3.inner (
        clear_of (codes "timestamp") f3 (clear_of (codes "timestamp") f4 refl (λ m. refl))
          (λ m. refl)) in
      let f1 =
        expected-IsField s.expected_digest h.expected f2.inner ok_s.expected_len_is
          (clear_of (codes "expected_digest") f2
            (clear_of (codes "expected_digest") f3
              (clear_of (codes "expected_digest") f4 refl (λ m. refl)) (λ m. refl))
            (λ m. refl))
          h.expected_is in
      let d = show_digest s.digest in
      let behind : line ≡ codes "{\"digest\":\"" ++ (d ++ (codes "\",\"" ++ f1.inner)) =
        rw (h.line_is, f4.quoted, f3.quoted, f2.quoted, f1.quoted) in
      rw (
        behind,
        slice_exact digest_len d (codes "\",\"" ++ f1.inner)
            (laws.length-show_digest s.digest ok_s.digest_len_is),
        laws.parse-show_digest s.digest ok_s.digest_len_is,
        f1.read,
        f2.read,
        f3.read,
        f4.read,
        parse_content_exact s.content,
      )

  -- A storable snapshot, with a digest of 20 bytes, an expected digest of 32 bytes, if any, and a
  -- format that is read back from its object, whose line under a context is written, is read back
  -- from the line, less the URL and the closing whitespace that the context supplies; and under the
  -- context it has the closing whitespace that it had.
  pub parse-display :
      (c : Context Metadata) (s : Snapshot Timestamp Metadata) (line : Bytes)
      → IsStorable s
      → display fields c s ≡ some line
      → (parse fields line ≡ ok (stored c s))
        × (closing_whitespace c (stored c s) ≡ closing_whitespace c s)
  unfolding stored shown_format shown_whitespace closing_whitespace
  parse-display c s line ok_s h =
      let kept : closing_whitespace c (stored c s) ≡ closing_whitespace c s =
        elim (Option-cases s.format.closing_whitespace) [
          | inl n ↦ rw n refl
          | inr (own, is_own) ↦ elim (Bool-cases (bytes_eq own c.default_closing_whitespace)) [
            | inl same ↦ rw (is_own, same, bytes_eq_sound own c.default_closing_whitespace same)
            | inr differs ↦ rw (is_own, differs)
          ]
        ] in
      (parse-IsShown c s line ok_s (display-IsShown c s line h), kept)
