-- ===== src/Snapshot/Recovery/Encoding.antt =====
-- crates/json/src/context.rs and validation.rs: a snapshot made from the bytes of a file, the bytes made
-- from a snapshot, and the check of its digest.
pub mod Inverse
pub mod Hashing
mod Tests
use archivindex_wbm.Common.Options
use archivindex_wbm.Common.Results.{◌>>=◌}
use archivindex_wbm.Common.{
  ℕ, ◌+◌, ◌*◌, Bool, true, false, ◌&&◌, ◌||◌, List, [], ◌∷◌, ◌++◌, Option, none, some, Result, ok,
  err, ok_or, Bytes, length, bytes_eq, leb, ltb, ◌==◌, if◌then◌else◌, checked_sub, slice_to, sum,
  map,
}
use archivindex_wbm.Snapshot.{
  Format, utf8, other, FormatInfo, Snapshot, Codec, Context, Fields, is_json_whitespace,
  closing_whitespace,
}
use archivindex_wbm.Snapshot.Recovery.{codec, non_default_closing_whitespace}

pub data SnapshotError : Type 0 where
  unsupported : Format → SnapshotError
  undecodable : Format → SnapshotError
  internal_line_break : SnapshotError

pub data ValidationError : Type 0 where
  mismatch : Bytes → ValidationError
  unsupported_format : Format → ValidationError
  invalid_whitespace : ℕ → ValidationError

abbrev pub Outcome : Type 0
Outcome = Result (Unit {0}) ValidationError

-- The hasher of the package `sha1`, with the digest of its state.
pub record Sha1 : Type 1 where
  pub Hasher : Type 0
  pub start : Hasher
  pub update : Hasher → Bytes → Hasher
  pub finalize : Hasher → Bytes

-- The bytes that may follow a byte of UTF-8, as ranges: `none` where no character starts with it.
unfoldable pub following : ℕ → Option (List (ℕ × ℕ))
following c =
    if ltb c 0x80
    then some []
    else if ltb c 0xc2
    then none
    else if ltb c 0xe0
    then some ((0x80, 0xbf) ∷ [])
    else if c == 0xe0
    then some ((0xa0, 0xbf) ∷ (0x80, 0xbf) ∷ [])
    else if c == 0xed
    then some ((0x80, 0x9f) ∷ (0x80, 0xbf) ∷ [])
    else if ltb c 0xf0
    then some ((0x80, 0xbf) ∷ (0x80, 0xbf) ∷ [])
    else if c == 0xf0
    then some ((0x90, 0xbf) ∷ (0x80, 0xbf) ∷ (0x80, 0xbf) ∷ [])
    else if ltb c 0xf4
    then some ((0x80, 0xbf) ∷ (0x80, 0xbf) ∷ (0x80, 0xbf) ∷ [])
    else if c == 0xf4
    then some ((0x80, 0x8f) ∷ (0x80, 0xbf) ∷ (0x80, 0xbf) ∷ [])
    else none

-- `str::from_utf8`, of the ranges of the bytes that are due.
unfoldable pub is_text : List (ℕ × ℕ) → Bytes → Bool
is_text [] [] = true
is_text (r ∷ rs) [] = false
is_text [] (c ∷ s) = elim (following c) [ none ↦ false | some rs ↦ is_text rs s ]
is_text (r ∷ rs) (c ∷ s) = (leb r.0 c && leb c r.1) && is_text rs s

-- `char::len_utf8`.
unfoldable pub len_utf8 : ℕ → ℕ
len_utf8 c = if ltb c 0x80 then 1 else if ltb c 0x800 then 2 else if ltb c 0x10000 then 3 else 4

-- `content.contains(['\r', '\n'])`.
unfoldable pub has_line_break : Bytes → Bool
has_line_break [] = false
has_line_break (c ∷ s) = (c == b'\r' || c == b'\n') || has_line_break s

-- `char_whitespace_to_bytes`, collected.
pub char_whitespace_to_bytes : List ℕ → Result Bytes ValidationError
char_whitespace_to_bytes [] = ok []
char_whitespace_to_bytes (c ∷ cs) =
    let rest = char_whitespace_to_bytes cs in
    if is_json_whitespace c then (rest >>= λ bytes. ok (c ∷ bytes)) else err (invalid_whitespace c)

-- `invalid_closing_whitespace`.
unfoldable pub invalid_closing_whitespace : List ℕ → Option ℕ
invalid_closing_whitespace [] = none
invalid_closing_whitespace (c ∷ cs) =
    let rest = invalid_closing_whitespace cs in if is_json_whitespace c then rest else some c

abbrev pub buffer_len : ℕ
buffer_len = 64

module _ (fields : Fields) (sha1 : Sha1) where
  open fields use {Timestamp, Metadata, no_metadata}
  open sha1 use {Hasher, start, update, finalize}

  -- The text of the bytes under a format.
  unfoldable pub decode : Context Metadata → Format → Bytes → Result Bytes SnapshotError
  decode c utf8 bytes = if is_text [] bytes then ok bytes else err (undecodable utf8)
  decode c (other name) bytes = do
    k ← ok_or (codec c (other name)) (unsupported (other name))
    ok_or (k.decode bytes) (undecodable (other name))

  -- `full[..content_end]`: the slice panics past the text, which is `none`.
  unfoldable pub strip : List ℕ → Bytes → Option Bytes
  strip whitespace full = elim (checked_sub (length full) (sum (map len_utf8 whitespace))) [
    | none ↦ none
    | some content_end ↦ slice_to content_end full
  ]

  -- `Context::unprocessed_snapshot`, behind the decoding.
  unfoldable pub from_text :
      Context Metadata
      → Format
      → Bytes
      → Bytes
      → Option (Result (Snapshot Timestamp Metadata) SnapshotError)
  from_text c format bytes full =
      let found = non_default_closing_whitespace c.default_closing_whitespace full in
      let whitespace : List ℕ = elim found [
        | none ↦ c.default_closing_whitespace
        | some own ↦ own
      ] in
      elim (strip whitespace full) [
        | none ↦ none
        | some content ↦ some (
            if has_line_break content
            then err internal_line_break
            else ok (record {
              digest = finalize (update start bytes);
              expected_digest = none;
              timestamp = none;
              url = none;
              format = record { name = format; closing_whitespace = found; metadata = no_metadata };
              content = content;
            }))
      ]

  -- `Context::unprocessed_snapshot`. `none` is a panic.
  unfoldable pub unprocessed_snapshot :
      Context Metadata
      → Format
      → Bytes
      → Option (Result (Snapshot Timestamp Metadata) SnapshotError)
  unprocessed_snapshot c format bytes = elim (decode c format bytes) [
    | err e ↦ some (err e)
    | ok full ↦ from_text c format bytes full
  ]

  -- `Context::encode_other`.
  pub encode_other :
      Context Metadata → Snapshot Timestamp Metadata → Format → Result Bytes ValidationError
  encode_other c s format = do
    k ← ok_or (codec c format) (unsupported_format format)
    elim (invalid_closing_whitespace (closing_whitespace c s)) [
      | some invalid ↦ err (invalid_whitespace invalid)
      | none ↦ ok (k.encode (s.content ++ closing_whitespace c s) s.format.metadata)
    ]

  -- `Context::encode`.
  pub encode : Context Metadata → Snapshot Timestamp Metadata → Result Bytes ValidationError
  encode c s = elim s.format.name [
    | utf8 ↦ char_whitespace_to_bytes (closing_whitespace c s) >>= λ bytes. ok (s.content ++ bytes)
    | other name ↦ encode_other c s (other name)
  ]

  -- The loop over the closing whitespace, with what the buffer holds of it, and the update behind it.
  -- On an error `?` leaves the hasher as it is.
  unfoldable pub update_whitespace : List ℕ → Hasher → Bytes → Outcome × Hasher
  update_whitespace [] hasher buffered = (ok tt, update hasher buffered)
  update_whitespace (c ∷ cs) hasher buffered =
      let full = buffered ++ c ∷ [] in
      let flushed = update_whitespace cs (update hasher full) [] in
      let kept = update_whitespace cs hasher full in
      if is_json_whitespace c
      then (if length full == buffer_len then flushed else kept)
      else (err (invalid_whitespace c), hasher)

  -- What `verify` feeds the hasher.
  unfoldable pub feed : Context Metadata → Snapshot Timestamp Metadata → Hasher → Outcome × Hasher
  feed c s hasher = elim s.format.name [
    | utf8 ↦ elim (invalid_closing_whitespace (closing_whitespace c s)) [
      | some invalid ↦ (err (invalid_whitespace invalid), hasher)
      | none ↦ update_whitespace (closing_whitespace c s) (update hasher s.content) []
    ]
    | other name ↦ elim (encode_other c s (other name)) [
      | err e ↦ (err e, hasher)
      | ok bytes ↦ (ok tt, update hasher bytes)
    ]
  ]

  -- `Context::verify`, with the hasher behind it.
  unfoldable pub verify : Context Metadata → Snapshot Timestamp Metadata → Hasher → Outcome × Hasher
  verify c s hasher =
      let (fed, behind) = feed c s hasher in
      elim fed [
        | err e ↦ (err e, behind)
        | ok _ ↦
            let digest = finalize behind in
            (if bytes_eq digest s.digest then ok tt else err (mismatch digest), start)
      ]
