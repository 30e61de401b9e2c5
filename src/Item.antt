-- ===== src/Item.antt =====
-- crates/wbm/src/item.rs and timestamp.rs: the URL of a snapshot in the archive, and the timestamp in it.
-- The packages `archivindex_cdx` and `chrono` are the parameter `Times`.
pub mod RoundTrip
mod Tests
use archivindex_wbm.Common.Results.{◌>>=◌}
use archivindex_wbm.Common.{
  ℕ, ◌+◌, Bool, true, false, not, ◌&&◌, ◌||◌, List, [], ◌∷◌, ◌++◌, Option, none, some, Result, ok,
  err, ok_or, Bytes, codes, length, drop, slice_to, strip_prefix, bytes_eq, leb, ◌==◌,
  if◌then◌else◌,
}
use archivindex_wbm.Surt.Canonical.{split_once}

-- Seconds: `pos n` is `n`, and `negsuc n` is `-(n + 1)`.
pub data ℤ : Type 0 where
  pos : ℕ → ℤ
  negsuc : ℕ → ℤ

pub record Times : Type 1 where
  pub Time : Type 0
  pub from_text : Bytes → Option Time
  pub to_text : Time → Bytes
  pub seconds : Time → ℤ

-- `timestamp::Error`, as far as parsing gives it.
pub data TimestampError : Type 0 where
  invalid_length : Bytes → TimestampError
  invalid_value : Bytes → TimestampError

pub data ItemError : Type 0 where
  invalid_item_url : Bytes → ItemError
  invalid_timestamp : TimestampError → ItemError

pub record UrlParts (Time : Type 0) : Type 0 where
  pub url : Bytes
  pub timestamp : Time

-- `(MIN_TIMESTAMP_SECS..=MAX_TIMESTAMP_SECS).contains`.
pub in_range : ℤ → Bool
in_range (pos n) = leb n 253402300799
in_range (negsuc n) = leb (n + 1) 30610224000

pub is_digit : ℕ → Bool
is_digit c = leb b'0' c && leb c b'9'

pub is_lowercase : ℕ → Bool
is_lowercase c = leb b'a' c && leb c b'z'

pub all_digits : Bytes → Bool
all_digits [] = true
all_digits (c ∷ s) = is_digit c && all_digits s

pub has_newline : Bytes → Bool
has_newline [] = false
has_newline (c ∷ s) = c == b'\n' || has_newline s

-- Rendering flags.
pub valid_flag : Bytes → Bool
valid_flag [] = true
valid_flag (a ∷ b ∷ c ∷ []) = c == b'_' && (is_lowercase a && is_lowercase b)
valid_flag _ = false

-- The text behind either scheme.
pub strip_archive : Bytes → Option Bytes
strip_archive input = elim (strip_prefix (codes "https://web.archive.org/web/") input) [
  | some path ↦ some path
  | none ↦ strip_prefix (codes "http://web.archive.org/web/") input
]

module _ (times : Times) where
  open times use {Time, from_text, to_text, seconds}

  -- `Timestamp::from_str`, without the feature that checks the formatting again.
  pub from_str : Bytes → Result Time TimestampError
  from_str s = if not (length s == 14) then err (invalid_length s) else elim (from_text s) [
    | none ↦ err (invalid_value s)
    | some t ↦ if in_range (seconds t) then ok t else err (invalid_value s)
  ]

  -- Behind the split: the capture and the URL.
  pub parse_capture : Bytes → Bytes → Bytes → Result (UrlParts Time) ItemError
  parse_capture input capture url =
      ok_or (slice_to 14 capture) (invalid_item_url input) >>= λ timestamp.
      if not (all_digits timestamp)
        || not (valid_flag (drop 14 capture))
        || bytes_eq url []
        || has_newline url
      then err (invalid_item_url input)
      else elim (from_str timestamp) [
        | err e ↦ err (invalid_timestamp e)
        | ok t ↦ ok (record { url = url; timestamp = t })
      ]

  -- `UrlParts::parse_str`.
  pub parse_parts : Bytes → Result (UrlParts Time) ItemError
  parse_parts input = ok_or (strip_archive input) (invalid_item_url input) >>= λ path.
      ok_or (split_once b'/' path) (invalid_item_url input) >>= λ p. parse_capture input p.0 p.1

  -- `UrlParts::to_url`.
  pub to_url : Bool → Bool → UrlParts Time → Bytes
  to_url https original t =
      codes "http"
      ++ ((if https then codes "s" else [])
          ++ (codes "://web.archive.org/web/"
              ++ (to_text t.timestamp
                  ++ ((if original then codes "id_" else []) ++ (b'/' ∷ t.url)))))
