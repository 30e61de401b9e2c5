-- ===== src/Snapshot/Exact/Display.antt =====
-- crates/json/src/exact.rs: the `Display` of `SnapshotDisplay`, the canonical line of a snapshot under
-- a context. `none` is a formatting error, in which case what was written before it is of no use.
pub mod Written
pub mod RoundTrip
pub mod Unbroken
mod Tests
pub mod Samples
use archivindex_wbm.Common.Options.{◌>>=◌}
use archivindex_wbm.Common.{
  ℕ, Bool, true, false, not, ◌&&◌, ◌||◌, List, [], ◌∷◌, ◌++◌, Option, none, some, Bytes, codes,
  bytes_eq, leb, ltb, ◌==◌, if◌then◌else◌,
}
use archivindex_wbm.Snapshot.{Format, FormatInfo, Snapshot, Context, is_utf8, Fields}

-- A control character in UTF-8: one byte below 32, the byte 127, or `0xc2` before 128 to 159.
pub starts_control : ℕ → Bytes → Bool
starts_control c [] = ltb c 32 || c == 127
starts_control c (d ∷ s) = ltb c 32 || c == 127 || (c == 0xc2 && (leb 128 d && ltb d 160))

-- `needs_json_escaping`.
pub needs_json_escaping : Bytes → Bool
needs_json_escaping [] = false
needs_json_escaping (c ∷ s) =
    (c == b'"' || c == b'\\' || starts_control c s) || needs_json_escaping s

-- A field of text, written verbatim.
pub show_text : Bytes → Bytes → Option Bytes
show_text key value =
    if needs_json_escaping value
    then none
    else some (b'"' ∷ (key ++ (codes "\":\"" ++ (value ++ codes "\","))))

pub show_expected : Option Bytes → Option Bytes
show_expected none = some []
show_expected (some digest) = show_text (codes "expected_digest") digest

pub show_url : Option Bytes → Option Bytes
show_url none = some []
show_url (some url) = show_text (codes "url") url

-- `Some(url) != infer_url(content)`: a URL that the context infers is left out.
pub same_text : Option Bytes → Option Bytes → Bool
same_text (some a) (some b) = bytes_eq a b
same_text none none = true
same_text _ _ = false

pub shown_url : Option Bytes → Option Bytes → Option Bytes
shown_url none inferred = none
shown_url (some url) inferred = if same_text (some url) inferred then none else some url

-- The closing whitespace that is not the default.
pub shown_whitespace : List ℕ → Option (List ℕ) → Option (List ℕ)
shown_whitespace default none = none
shown_whitespace default (some own) = if bytes_eq own default then none else some own

pub is_some {ℓ} : {A : Type ℓ} → Option A → Bool
is_some none = false
is_some (some a) = true

module _ (fields : Fields) where
  open fields use {Timestamp, Metadata, show_digest, show_timestamp, is_empty, write_format}

  pub show_stamp : Option Timestamp → Bytes
  show_stamp none = []
  show_stamp (some t) = codes "\"timestamp\":\"" ++ (show_timestamp t ++ codes "\",")

  -- The `format` object that is written.
  pub shown_format : List ℕ → FormatInfo Metadata → FormatInfo Metadata
  shown_format default f = record f {
    closing_whitespace = shown_whitespace default f.closing_whitespace;
  }

  pub is_shown : FormatInfo Metadata → Bool
  is_shown f = not (is_utf8 f.name) || is_some f.closing_whitespace || not (is_empty f.metadata)

  pub show_object : FormatInfo Metadata → Option Bytes
  show_object f = do object ← write_format f; some (codes "\"format\":" ++ (object ++ codes ","))

  pub show_format : FormatInfo Metadata → Option Bytes
  show_format f = if is_shown f then show_object f else some []

  pub display : Context Metadata → Snapshot Timestamp Metadata → Option Bytes
  display c s = do
    expected ← show_expected s.expected_digest
    url ← show_url (shown_url s.url (c.infer_url s.content))
    format ← show_format (shown_format c.default_closing_whitespace s.format)
    some (
        codes "{\"digest\":\""
        ++ (show_digest s.digest
            ++ (codes "\","
                ++ (expected
                    ++ (show_stamp s.timestamp
                        ++ (url
                            ++ (format ++ (codes "\"content\":" ++ (s.content ++ codes "}")))))))))
