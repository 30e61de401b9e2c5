-- ===== src/Surt/Decode.antt =====
-- crates/wbm/src/surt.rs: `decode_path` and `decode_query_value`, byte by byte, and
-- `archivindex_surt`-independent parts of the canonicalization. The index of the source is the text
-- that is left; `String::from_utf8` is the identity on bytes.
pub mod Path
pub mod Query
use archivindex_wbm.Common.{
  ℕ, ◌+◌, Bool, false, not, ◌&&◌, ◌||◌, List, [], ◌∷◌, ◌++◌, Option, none, some, Bytes, split_last,
  leb, ◌==◌, if◌then◌else◌, codes,
}
use archivindex_wbm.Surt.{within}

-- `u8::is_ascii_hexdigit` and `u8::to_ascii_lowercase`.
pub is_ascii_hexdigit : ℕ → Bool
is_ascii_hexdigit c = within b'0' b'9' c || within b'a' b'f' c || within b'A' b'F' c

pub to_ascii_lowercase : ℕ → ℕ
to_ascii_lowercase c = if within b'A' b'Z' c then c + 32 else c

-- The escapes that are decoded, by their two lowercase digits.
replacement : ℕ → ℕ → Option ℕ
replacement a b =
    if a == b'2' && b == b'2'
    then some b'"'
    else if a == b'2' && b == b'7'
    then some b'\''
    else if a == b'2' && b == b'a'
    then some b'*'
    else if a == b'3' && b == b'c'
    then some b'<'
    else if a == b'3' && b == b'e'
    then some b'>'
    else if a == b'5' && b == b'c'
    then some b'\\'
    else if a == b'7' && b == b'b'
    then some b'{'
    else if a == b'7' && b == b'd'
    then some b'}'
    else none

-- What is pushed for an escape.
escape_text : ℕ → ℕ → Bytes
escape_text a b = elim (replacement a b) [ none ↦ b'%' ∷ a ∷ b ∷ [] | some r ↦ r ∷ [] ]

is_slash : ℕ → Bool
is_slash c = c == b'/'

-- `decoded.last() == Some(&b'/')`.
ends_with_slash : Bytes → Bool
ends_with_slash out = elim (split_last out) [ none ↦ false | some (before, c) ↦ is_slash c ]

push_byte : Bytes → ℕ → Bytes
push_byte out c = if not (is_slash c) || not (ends_with_slash out) then out ++ c ∷ [] else out

-- The guard of the escape branch, on the byte and the two behind it.
is_escape : ℕ → ℕ → ℕ → Bool
is_escape c a b = c == b'%' && (is_ascii_hexdigit a && is_ascii_hexdigit b)

-- The loop: the text that is left, and the output.
decode_path_from : Bytes → Bytes → Bytes
decode_path_from (c ∷ a ∷ b ∷ s) out =
    let escape =
      decode_path_from s (out ++ escape_text (to_ascii_lowercase a) (to_ascii_lowercase b)) in
    let literal = decode_path_from (a ∷ b ∷ s) (push_byte out c) in
    if is_escape c a b then escape else literal
decode_path_from (c ∷ s) out = decode_path_from s (push_byte out c)
decode_path_from [] out = out

unfoldable pub decode_path : Bytes → Bytes
unfolding decode_path_from is_escape is_ascii_hexdigit to_ascii_lowercase escape_text replacement
    push_byte is_slash ends_with_slash
decode_path value = decode_path_from value []

-- What one byte of a query value becomes, outside the escape `%5e`.
query_byte : ℕ → Bytes
query_byte c =
    if c == b'+'
    then codes "%20"
    else if c == b' '
    then b'+' ∷ []
    else if c == b'\n'
    then codes "%0a"
    else if c == b'&'
    then codes "%26"
    else if c == b'#'
    then codes "%23"
    else c ∷ []

decode_query_from : Bytes → Bytes → Bytes
decode_query_from (c ∷ a ∷ b ∷ s) out =
    let caret = decode_query_from s (out ++ b'^' ∷ []) in
    let other = decode_query_from (a ∷ b ∷ s) (out ++ query_byte c) in
    if c == b'%' && (a == b'5' && b == b'e') then caret else other
decode_query_from (c ∷ s) out = decode_query_from s (out ++ query_byte c)
decode_query_from [] out = out

unfoldable pub decode_query_value : Bytes → Bytes
unfolding decode_query_from query_byte
decode_query_value value = decode_query_from value []
