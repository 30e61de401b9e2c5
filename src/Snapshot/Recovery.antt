-- ===== src/Snapshot/Recovery.antt =====
-- crates/json/src/context.rs: the codecs of a context, and the closing whitespace of a line. A line is
-- its bytes: JSON whitespace is ASCII, and no other character of UTF-8 holds its byte, so a walk
-- backwards over whitespace stops at the same place in the bytes and in the characters.
pub mod Encoding
pub mod Whitespace
pub mod Codecs
use archivindex_wbm.Common.{
  ℕ, suc, ◌+◌, Bool, true, false, ◌&&◌, List, [], ◌∷◌, Option, none, some, Bytes, length, take,
  reverse, bytes_eq, ◌==◌, if◌then◌else◌,
}
use archivindex_wbm.Snapshot.{Format, utf8, other, Codec, Context, is_json_whitespace}

-- `Format`'s equality.
pub format_eq : Format → Format → Bool
format_eq utf8 utf8 = true
format_eq (other a) (other b) = bytes_eq a b
format_eq _ _ = false

module _ {Metadata : Type 0} where
  pub replace_codec :
      Format → Codec Metadata → List (Format × Codec Metadata) → List (Format × Codec Metadata)
  replace_codec name codec [] = (name, codec) ∷ []
  replace_codec name codec (f ∷ fs) =
      let rest = replace_codec name codec fs in
      if format_eq f.0 name then (f.0, codec) ∷ fs else f ∷ rest

  -- `Context::register_format`.
  pub register_format : Context Metadata → Format → Codec Metadata → Context Metadata
  register_format c name codec = record c { formats = replace_codec name codec c.formats }

  -- `Context::with_format`.
  abbrev pub with_format : Context Metadata → Format → Codec Metadata → Context Metadata
  with_format c name codec = register_format c name codec

  pub find_codec : List (Format × Codec Metadata) → Format → Option (Codec Metadata)
  find_codec [] name = none
  find_codec (f ∷ fs) name =
      let rest = find_codec fs name in if format_eq f.0 name then some f.1 else rest

  -- `Context::codec`.
  pub codec : Context Metadata → Format → Option (Codec Metadata)
  codec c name = find_codec c.formats name

-- The state of the walk backwards: `is_match`, `chars_read`, `at_non_whitespace`, `reversed_chars`.
pub record Walk : Type 0 where
  pub is_match : Bool
  pub chars_read : ℕ
  pub at_non_whitespace : Bool
  pub reversed_chars : Bytes

-- The loop over the default, backwards.
unfoldable pub walk_default : List ℕ → ℕ → Bytes → Walk
walk_default [] n s = record {
  is_match = true;
  chars_read = n;
  at_non_whitespace = false;
  reversed_chars = s;
}
walk_default (w ∷ ws) n [] = record {
  is_match = false;
  chars_read = n;
  at_non_whitespace = false;
  reversed_chars = [];
}
walk_default (w ∷ ws) n (c ∷ s) =
    let rest = walk_default ws (n + 1) s in
    if w == c
    then rest
    else if is_json_whitespace c
    then record {
      is_match = false;
      chars_read = n + 1;
      at_non_whitespace = false;
      reversed_chars = s;
    }
    else record { is_match = false; chars_read = n; at_non_whitespace = true; reversed_chars = s }

-- The loop over the characters before them.
unfoldable pub walk_whitespace : ℕ → Bytes → ℕ
walk_whitespace n [] = n
walk_whitespace n (c ∷ s) =
    let rest = walk_whitespace (n + 1) s in if is_json_whitespace c then rest else n

-- `chars_read` behind both loops.
unfoldable pub run_len : Walk → ℕ
run_len w =
    if w.at_non_whitespace then w.chars_read else walk_whitespace w.chars_read w.reversed_chars

-- `Context::non_default_closing_whitespace`, of the default and the line.
unfoldable pub non_default_closing_whitespace : List ℕ → Bytes → Option (List ℕ)
non_default_closing_whitespace default line =
    let walk = walk_default (reverse default) 0 (reverse line) in
    if walk.is_match && run_len walk == length default
    then none
    else some (reverse (take (run_len walk) (reverse line)))
