-- ===== src/Surt.antt =====
-- crates/wbm/src/surt.rs: the type `Surt`, its parser from the text of a `urlkey` field, and its
-- text. Text is its UTF-8 bytes. `parse_str` walks characters: every character that it accepts
-- is one ASCII byte, and a byte of a longer character is refused as that character is.
pub mod Text
pub mod Parse
pub mod Parts
pub mod Decode
pub mod Url
pub mod Canonical
mod Tests
use archivindex_wbm.Common.Results.{◌>>=◌}
use archivindex_wbm.Common.{
  ℕ, ◌+◌, Bool, ◌&&◌, ◌||◌, List, [], ◌∷◌, ◌++◌, Option, none, some, ◌≡◌, Result, ok, err, Bytes,
  leb, ◌==◌, if◌then◌else◌,
}

abbrev pub comma : ℕ
comma = b','

abbrev pub close : ℕ
close = b')'

-- `u8::MAX`, the longest domain name part whose length can be recorded.
abbrev pub max_part : ℕ
max_part = 255

-- The package `archivindex_surt`, which is not part of the repository: its type of keys, its two
-- parsers (from a borrowed and from an owned text), and `as_str`. A key that was parsed is the text.
pub record SharedSurts : Type 1 where
  pub SharedSurt : Type 0
  pub parse : Bytes → Option SharedSurt
  pub from_str : Bytes → Option SharedSurt
  pub as_str : SharedSurt → Bytes
  pub as_str-parse : (s : Bytes) (k : SharedSurt) → parse s ≡ some k → as_str k ≡ s
  pub as_str-from_str : (s : Bytes) (k : SharedSurt) → from_str s ≡ some k → as_str k ≡ s

abbrev within : ℕ → ℕ → ℕ → Bool
within lo hi c = leb lo c && leb c hi

-- `char::is_ascii_alphanumeric`.
abbrev is_ascii_alphanumeric : ℕ → Bool
is_ascii_alphanumeric c = within b'a' b'z' c || within b'A' b'Z' c || within b'0' b'9' c

-- The characters of a domain name part: an underscore appears in real host names, and a colon
-- marks a port.
pub is_part_byte : ℕ → Bool
is_part_byte c = is_ascii_alphanumeric c || c == b'-' || c == b'_' || c == b':'

pub data Error (ParseError : Type 0) : Type 0 where
  invalid_surt : Bytes → Error ParseError
  invalid_domain_part : Bytes → Error ParseError
  invalid_url : ParseError → Error ParseError
  unexpected_url : Bytes → Error ParseError

-- The loop of `parse_str` over the text that is left, with the length of the part being read and
-- the lengths recorded. The result is the list of lengths.
pub scan_parts :
    {ParseError : Type 0} → Bytes → Bytes → ℕ → List ℕ → Result (List ℕ) (Error ParseError)
scan_parts input [] len lens = err (invalid_surt input)
scan_parts input (c ∷ s) len lens =
    let longer = scan_parts input s (len + 1) lens in
    let next_part = scan_parts input s 0 (lens ++ len ∷ []) in
    if is_part_byte c
    then if len == max_part then err (invalid_surt input) else longer
    else if c == comma
    then if len == 0 then err (invalid_surt input) else next_part
    else if c == close
    then if len == 0 then err (invalid_surt input) else ok (lens ++ len ∷ [])
    else err (invalid_surt input)

-- `Representation`: most keys use the shared representation, the rest keep their text.
pub data Representation (SharedSurt : Type 0) : Type 0 where
  shared : SharedSurt → Representation SharedSurt
  legacy : Bytes → Representation SharedSurt

pub record Surt (SharedSurt : Type 0) : Type 0 where
  pub representation : Representation SharedSurt
  pub domain_name_part_lens : List ℕ

-- `Cow<str>`.
pub data Cow : Type 0 where
  borrowed : Bytes → Cow
  owned : Bytes → Cow

-- The package's functions as arguments of what calls them.
module _ (lib : SharedSurts) where
  open lib use {SharedSurt, parse, from_str, as_str as shared_str}

  -- `Surt::as_str`.
  pub representation_str : Representation SharedSurt → Bytes
  representation_str (shared k) = shared_str k
  representation_str (legacy source) = source

  pub as_str : Surt SharedSurt → Bytes
  as_str t = representation_str t.representation

  pub represent : Cow → Representation SharedSurt
  represent (borrowed source) = elim (parse source) [ none ↦ legacy source | some k ↦ shared k ]
  represent (owned source) = elim (from_str source) [ none ↦ legacy source | some k ↦ shared k ]

  pub from_validated : Cow → List ℕ → Surt SharedSurt
  from_validated source lens = record {
    representation = represent source;
    domain_name_part_lens = lens;
  }

  -- `Surt::parse_str`.
  pub parse_str : {ParseError : Type 0} → Bytes → Result (Surt SharedSurt) (Error ParseError)
  parse_str input = do lens ← scan_parts input input 0 []; ok (from_validated (borrowed input) lens)
