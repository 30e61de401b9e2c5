-- ===== src/Snapshot/Exact.antt =====
-- crates/json/src/exact.rs: `ExactSnapshot::parse` and the `Display` of `SnapshotDisplay`. An index
-- into the line is the text behind it: an index that the parser reaches stands behind an ASCII byte
-- or a slice that the next delimiter ends, so it is a character boundary.
pub mod Object
pub mod Display
use archivindex_wbm.Common.Options
use archivindex_wbm.Common.Results.{◌>>=◌}
use archivindex_wbm.Common.{
  ℕ, zero, suc, ◌+◌, ◌-◌, Bool, true, false, not, ◌&&◌, ◌||◌, List, [], ◌∷◌, ◌++◌, Option, none,
  some, Result, ok, err, ok_or, Bytes, codes, length, take, drop, split_last, strip_prefix,
  bytes_eq, leb, ltb, ◌==◌, if◌then◌else◌,
}
use archivindex_wbm.Snapshot.{Format, utf8, FormatInfo, Snapshot, is_utf8, Fields}

-- `crate::Error`, less the failures of a reader.
pub data Error : Type 0 where
  invalid_line : Error

abbrev pub digest_len : ℕ
digest_len = 32

abbrev pub timestamp_len : ℕ
timestamp_len = 14

-- `expect`: the text behind the literal.
unfoldable pub expect : Bytes → Bytes → Result Bytes Error
expect literal s = ok_or (strip_prefix literal s) invalid_line

-- `slice` over the next `n` bytes, with the text behind them.
unfoldable pub slice : ℕ → Bytes → Result (Bytes × Bytes) Error
slice n s = if leb n (length s) then ok (take n s, drop n s) else err invalid_line

-- `read_string_value`: the value, and the text from its closing quote on.
pub read_string_value : Bytes → Result (Bytes × Bytes) Error
read_string_value [] = err invalid_line
read_string_value (c ∷ s) =
    let rest = read_string_value s in
    if c == b'"'
    then ok ([], c ∷ s)
    else if c == b'\\'
    then err invalid_line
    else (rest >>= λ p. ok (c ∷ p.0, p.1))

-- The loop of `read_object_value`: brace depth, `in_string` and `escaped`.
scan_object : Bytes → ℕ → Bool → Bool → Result (Bytes × Bytes) Error
scan_object [] depth in_string escaped = err invalid_line
scan_object (c ∷ s) depth true true = scan_object s depth true false >>= λ p. ok (c ∷ p.0, p.1)
scan_object (c ∷ s) depth true false =
    scan_object s depth (not (c == b'"')) (c == b'\\') >>= λ p. ok (c ∷ p.0, p.1)
scan_object (c ∷ s) depth false escaped =
    let opened = scan_object s depth true escaped >>= λ p. ok (c ∷ p.0, p.1) in
    let deeper = scan_object s (depth + 1) false escaped >>= λ p. ok (c ∷ p.0, p.1) in
    let closed = scan_object s (depth - 1) false escaped >>= λ p. ok (c ∷ p.0, p.1) in
    let same = scan_object s depth false escaped >>= λ p. ok (c ∷ p.0, p.1) in
    if c == b'"'
    then opened
    else if c == b'{'
    then deeper
    else if c == b'}'
    then (if depth - 1 == 0 then ok (c ∷ [], s) else closed)
    else same

-- `read_object_value`. The first byte opens the object, so the depth never falls below 0.
pub read_object_value : Bytes → Result (Bytes × Bytes) Error
read_object_value [] = err invalid_line
read_object_value (c ∷ s) =
    if c == b'{' then scan_object (c ∷ s) 0 false false else err invalid_line

-- Behind a key that is there: `": "`, the value and `","`.
unfoldable pub parse_expected : Bytes → Result (Option Bytes × Bytes) Error
parse_expected s = elim (strip_prefix (codes "expected_digest") s) [
  | none ↦ ok (none, s)
  | some s' ↦ do
    value ← expect (codes "\":\"") s'
    (digest, rest) ← slice digest_len value
    next ← expect (codes "\",\"") rest
    ok (some digest, next)
]

unfoldable pub parse_url : Bytes → Result (Option Bytes × Bytes) Error
parse_url s = elim (strip_prefix (codes "url") s) [
  | none ↦ ok (none, s)
  | some s' ↦ do
    value ← expect (codes "\":\"") s'
    (url, rest) ← read_string_value value
    next ← expect (codes "\",\"") rest
    ok (some url, next)
]

-- The content runs to just before the closing brace.
unfoldable pub parse_content : Bytes → Result Bytes Error
parse_content s = elim (split_last s) [
  | none ↦ err invalid_line
  | some (content, c) ↦ if c == b'}' then ok content else err invalid_line
]

module _ (fields : Fields) where
  open fields use {
    Timestamp, Metadata, parse_digest, show_digest, parse_timestamp, show_timestamp, no_metadata,
    is_empty, read_format, write_format,
  }

  -- `FormatInfo::default()`.
  unfoldable pub default_format : FormatInfo Metadata
  default_format = record { name = utf8; closing_whitespace = none; metadata = no_metadata }

  unfoldable pub parse_stamp : Bytes → Result (Option Timestamp × Bytes) Error
  parse_stamp s = elim (strip_prefix (codes "timestamp") s) [
    | none ↦ ok (none, s)
    | some s' ↦ do
      value ← expect (codes "\":\"") s'
      (text, rest) ← slice timestamp_len value
      stamp ← ok_or (parse_timestamp text) invalid_line
      next ← expect (codes "\",\"") rest
      ok (some stamp, next)
  ]

  unfoldable pub parse_format : Bytes → Result (FormatInfo Metadata × Bytes) Error
  parse_format s = elim (strip_prefix (codes "format") s) [
    | none ↦ ok (default_format, s)
    | some s' ↦ do
      value ← expect (codes "\":") s'
      (object, rest) ← read_object_value value
      next ← expect (codes ",\"") rest
      format ← ok_or (read_format object) invalid_line
      ok (format, next)
  ]

  -- `ExactSnapshot::parse`.
  unfoldable pub parse : Bytes → Result (Snapshot Timestamp Metadata) Error
  parse line = do
    start ← expect (codes "{\"digest\":\"") line
    (digest_text, s0) ← slice digest_len start
    digest ← ok_or (parse_digest digest_text) invalid_line
    s1 ← expect (codes "\",\"") s0
    (expected_digest, s2) ← parse_expected s1
    (timestamp, s3) ← parse_stamp s2
    (url, s4) ← parse_url s3
    (format, s5) ← parse_format s4
    s6 ← expect (codes "content") s5
    s7 ← expect (codes "\":") s6
    content ← parse_content s7
    ok (record {
      digest = digest;
      expected_digest = expected_digest;
      timestamp = timestamp;
      url = url;
      format = format;
      content = content;
    })
