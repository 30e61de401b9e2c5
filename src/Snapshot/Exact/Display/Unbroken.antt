-- ===== src/Snapshot/Exact/Display/Unbroken.antt =====
-- crates/json/src/exact.rs: the text that a snapshot is shown as is one line.
use archivindex_wbm.Common.Options.{>>=-some}
use archivindex_wbm.Common.{
  false, [], ◌∷◌, ◌++◌, ◌≡◌, ◌≢◌, refl, Option, none, some, Bytes, codes, Bool-cases, inl, inr,
  arith, cons-ne-nil,
}
use archivindex_wbm.Snapshot.Exact.Display.RoundTrip.{display-IsShown}
use archivindex_wbm.Snapshot.Exact.Display.Written.{FieldLaws}
use archivindex_wbm.Snapshot.Exact.Display.{
  starts_control, needs_json_escaping, show_text, show_expected, show_url, show_stamp, is_shown,
  show_object, show_format, shown_format, display,
}
use archivindex_wbm.Snapshot.Recovery.Encoding.{has_line_break}
use archivindex_wbm.Snapshot.{Snapshot, Context, Fields, FormatInfo}

-- A text without line breaks.
pub record IsUnbroken (s : Bytes) : Type 0 where
  pub unbroken : has_line_break s ≡ false

has_line_break-append :
    (a b : Bytes)
    → has_line_break a ≡ false
    → has_line_break b ≡ false
    → has_line_break (a ++ b) ≡ false
unfolding has_line_break
has_line_break-append [] b h k = k
has_line_break-append (c ∷ a) b h k = ground (arith, has_line_break-append a b)

append-IsUnbroken : (a b : Bytes) → IsUnbroken a → IsUnbroken b → IsUnbroken (a ++ b)
append-IsUnbroken a b h k = record { unbroken = has_line_break-append a b h.unbroken k.unbroken }

escaped : (s : Bytes) → needs_json_escaping s ≡ false → has_line_break s ≡ false
unfolding has_line_break needs_json_escaping starts_control
escaped [] h = refl
escaped (c ∷ []) h = ground arith
escaped (c ∷ d ∷ s) h = ground (arith, escaped (d ∷ s))

show_text-IsUnbroken :
    (key value text : Bytes)
    → IsUnbroken (b'"' ∷ key)
    → show_text key value ≡ some text
    → IsUnbroken text
unfolding show_text has_line_break
show_text-IsUnbroken key value text clean h = elim (Bool-cases (needs_json_escaping value)) [
  | inl bad ↦ let nothing = rw bad at h in cc
  | inr plain ↦
      let shown = b'"' ∷ (key ++ (codes "\":\"" ++ (value ++ codes "\","))) in
      let is : shown ≡ text = let h' = rw plain at h in cc in
      let behind =
        append-IsUnbroken value (codes "\",") (record { unbroken = escaped value plain })
          (record { unbroken = refl }) in
      rw (← is) (
        append-IsUnbroken (b'"' ∷ key) _ clean
          (append-IsUnbroken (codes "\":\"") _ (record { unbroken = refl }) behind))
]

show_expected-IsUnbroken :
    (digest : Option Bytes) (text : Bytes) → show_expected digest ≡ some text → IsUnbroken text
unfolding show_expected has_line_break
show_expected-IsUnbroken none text h =
    let is : [] ≡ text = cc in rw (← is) (record { unbroken = refl })
show_expected-IsUnbroken (some digest) text h =
    show_text-IsUnbroken (codes "expected_digest") digest text (record { unbroken = refl }) h

show_url-IsUnbroken :
    (url : Option Bytes) (text : Bytes) → show_url url ≡ some text → IsUnbroken text
unfolding show_url has_line_break
show_url-IsUnbroken none text h = let is : [] ≡ text = cc in rw (← is) (record { unbroken = refl })
show_url-IsUnbroken (some url) text h =
    show_text-IsUnbroken (codes "url") url text (record { unbroken = refl }) h

module _ (fields : Fields) (laws : FieldLaws fields) where
  open fields use {Timestamp, Metadata, show_digest, show_timestamp, write_format}

  -- A snapshot whose content has no line breaks, with a digest, a timestamp and a format whose texts
  -- have none.
  pub record IsOneLine (c : Context Metadata) (s : Snapshot Timestamp Metadata) : Type 0 where
    pub content : IsUnbroken s.content
    pub digest : IsUnbroken (show_digest s.digest)
    pub timestamp : (t : Timestamp) → s.timestamp ≡ some t → IsUnbroken (show_timestamp t)
    pub format :
        (object : Bytes)
        → write_format (shown_format fields c.default_closing_whitespace s.format) ≡ some object
        → IsUnbroken object

  show_stamp-IsUnbroken :
      (stamp : Option Timestamp)
      → ((t : Timestamp) → stamp ≡ some t → IsUnbroken (show_timestamp t))
      → IsUnbroken (show_stamp fields stamp)
  unfolding show_stamp has_line_break
  show_stamp-IsUnbroken none h = record { unbroken = refl }
  show_stamp-IsUnbroken (some t) h =
      append-IsUnbroken (codes "\"timestamp\":\"") _ (record { unbroken = refl })
        (append-IsUnbroken (show_timestamp t) _ (h t refl) (record { unbroken = refl }))

  show_format-IsUnbroken :
      (f : FormatInfo Metadata) (text : Bytes)
      → ((object : Bytes) → write_format f ≡ some object → IsUnbroken object)
      → show_format fields f ≡ some text
      → IsUnbroken text
  unfolding show_format show_object has_line_break
  show_format-IsUnbroken f text clean h = elim (Bool-cases (is_shown fields f)) [
    | inr hidden ↦
        let is : [] ≡ text = let h' = rw hidden at h in cc in rw (← is) (record { unbroken = refl })
    | inl shown ↦
        let (object, is, written) =
          >>=-some (λ object. some (codes "\"format\":" ++ (object ++ codes ","))) (write_format f)
            (rw shown at h) in
        let text_is : codes "\"format\":" ++ (object ++ codes ",") ≡ text = cc in
        rw (← text_is) (
          append-IsUnbroken (codes "\"format\":") (object ++ codes ",") (record { unbroken = refl })
            (append-IsUnbroken object (codes ",") (clean object written)
              (record { unbroken = refl })))
  ]

  -- What is shown of such a snapshot is a line.
  pub display-IsUnbroken :
      (c : Context Metadata) (s : Snapshot Timestamp Metadata) (line : Bytes)
      → IsOneLine c s
      → display fields c s ≡ some line
      → IsUnbroken line × (line ≢ [])
  unfolding has_line_break
  display-IsUnbroken c s line one h =
      let parts = display-IsShown fields laws c s line h in
      let content =
        append-IsUnbroken (codes "\"content\":") _ (record { unbroken = refl })
          (append-IsUnbroken s.content _ one.content (record { unbroken = refl })) in
      let format =
        append-IsUnbroken parts.format _
          (show_format-IsUnbroken _ parts.format one.format parts.format_is) content in
      let url =
        append-IsUnbroken parts.url _ (show_url-IsUnbroken _ parts.url parts.url_is) format in
      let stamp =
        append-IsUnbroken (show_stamp fields s.timestamp) _
          (show_stamp-IsUnbroken s.timestamp one.timestamp) url in
      let expected =
        append-IsUnbroken parts.expected _
          (show_expected-IsUnbroken s.expected_digest parts.expected parts.expected_is) stamp in
      let digest =
        append-IsUnbroken (show_digest s.digest) _ one.digest
          (append-IsUnbroken (codes "\",") _ (record { unbroken = refl }) expected) in
      (
        rw parts.line_is
            (append-IsUnbroken (codes "{\"digest\":\"") _ (record { unbroken = refl }) digest),
        rw parts.line_is (cons-ne-nil b'{' _),
      )
