-- ===== src/Surt/Decode/Path.antt =====
-- crates/wbm/src/surt.rs: what `decode_path` outputs, with no accumulator.
pub mod Idempotent
pub mod Slashes
use archivindex_wbm.Common.{
  ℕ, ◌+◌, Bool, true, false, not, ◌&&◌, ◌||◌, List, [], ◌∷◌, ◌++◌, ◌≡◌, refl, sym, ap, ◌∙◌, ◌⊎◌,
  inl, inr, Option, none, some, Bytes, split_last, split_last-concat, append_assoc, append-nil,
  ◌==◌, if◌then◌else◌, Bool-cases, arith, Option-cases, ◌≢◌,
}
use archivindex_wbm.Surt.Decode.{
  is_ascii_hexdigit, to_ascii_lowercase, replacement, escape_text, is_slash, ends_with_slash,
  push_byte, is_escape, decode_path_from, decode_path,
}

-- The output for a text, where `slash` says that the output so far ends with a slash.
abbrev emitted : Bool → ℕ → Bytes → Bytes
emitted slash c later = if not (is_slash c) || not slash then c ∷ later else later

decoded : Bool → Bytes → Bytes
decoded slash (c ∷ a ∷ b ∷ s) =
    let escape = escape_text (to_ascii_lowercase a) (to_ascii_lowercase b) ++ decoded false s in
    let literal = emitted slash c (decoded (is_slash c) (a ∷ b ∷ s)) in
    if is_escape c a b then escape else literal
decoded slash (c ∷ s) = emitted slash c (decoded (is_slash c) s)
decoded slash [] = []

ends_with_slash-concat : (out : Bytes) (c : ℕ) → ends_with_slash (out ++ c ∷ []) ≡ is_slash c
unfolding ends_with_slash
ends_with_slash-concat out c = rw (split_last-concat out c, ends_with_slash)

ends_with_slash-push_byte : (out : Bytes) (c : ℕ) → ends_with_slash (push_byte out c) ≡ is_slash c
unfolding push_byte
ends_with_slash-push_byte out c = ground (arith, ends_with_slash-concat out c)

push_byte-emitted :
    (out : Bytes) (c : ℕ) (later : Bytes)
    → push_byte out c ++ later ≡ out ++ emitted (ends_with_slash out) c later
unfolding push_byte
push_byte-emitted out c later = ground (arith, append_assoc out (c ∷ []) later)

-- A byte that is no part of an escape and no slash.
record IsPlain (c : ℕ) : Type 0 where
  not_slash : is_slash c ≡ false
  not_percent : c ≢ b'%'
  not_hex : is_ascii_hexdigit c ≡ false

replacement-IsPlain : (a b r : ℕ) → replacement a b ≡ some r → IsPlain r
unfolding replacement is_slash is_ascii_hexdigit
replacement-IsPlain a b r h = ground arith

escape_text-cases :
    (a b : ℕ)
    → ((r : ℕ) × (escape_text a b ≡ r ∷ []) × IsPlain r)
      ⊎ ((replacement a b ≡ none) × (escape_text a b ≡ b'%' ∷ a ∷ b ∷ []))
unfolding escape_text
escape_text-cases a b = elim (Option-cases (replacement a b)) [
  | inl e ↦ inr (e, rw (e, escape_text))
  | inr (r, e) ↦ inl (r, rw (e, escape_text), replacement-IsPlain a b r e)
]

-- Two hexadecimal digits, as they are emitted.
record IsLower (c : ℕ) : Type 0 where
  hex : is_ascii_hexdigit c ≡ true
  lower : to_ascii_lowercase c ≡ c

to_ascii_lowercase-IsLower : (c : ℕ) → is_ascii_hexdigit c ≡ true → IsLower (to_ascii_lowercase c)
unfolding is_ascii_hexdigit to_ascii_lowercase
to_ascii_lowercase-IsLower c h = ground arith

hex-not_slash : (c : ℕ) → is_ascii_hexdigit c ≡ true → is_slash c ≡ false
unfolding is_ascii_hexdigit is_slash
hex-not_slash c h = ground arith

ends_with_slash-escape_text :
    (out : Bytes) (a b : ℕ) → IsLower b → ends_with_slash (out ++ escape_text a b) ≡ false
ends_with_slash-escape_text out a b h = elim (escape_text-cases a b) [
  | inl (r, e, plain) ↦ rw e (ends_with_slash-concat out r ∙ plain.not_slash)
  | inr (_, e) ↦ rw e (
      ap ends_with_slash (sym (append_assoc out (b'%' ∷ a ∷ []) (b ∷ [])))
      ∙ ends_with_slash-concat (out ++ b'%' ∷ a ∷ []) b
      ∙ hex-not_slash b h.hex)
]

-- What the two branches of the loop add to the output.
literal-decoded :
    (s out : Bytes) (c : ℕ)
    → ((out' : Bytes) → decode_path_from s out' ≡ out' ++ decoded (ends_with_slash out') s)
    → decode_path_from s (push_byte out c)
      ≡ out ++ emitted (ends_with_slash out) c (decoded (is_slash c) s)
literal-decoded s out c ih =
    ih (push_byte out c)
    ∙ rw (ends_with_slash-push_byte out c) (push_byte-emitted out c (decoded (is_slash c) s))

is_escape-digits :
    (c a b : ℕ)
    → is_escape c a b ≡ true
    → (c ≡ b'%') × (is_ascii_hexdigit a ≡ true) × (is_ascii_hexdigit b ≡ true)
unfolding is_escape
is_escape-digits c a b h = ground arith

decode_path_from-decoded :
    (s out : Bytes) → decode_path_from s out ≡ out ++ decoded (ends_with_slash out) s
unfolding decode_path_from decoded
decode_path_from-decoded [] out = sym (append-nil out)
decode_path_from-decoded (c ∷ []) out =
    literal-decoded [] out c (λ out'. decode_path_from-decoded [] out')
decode_path_from-decoded (c ∷ a ∷ []) out =
    literal-decoded (a ∷ []) out c (λ out'. decode_path_from-decoded (a ∷ []) out')
decode_path_from-decoded (c ∷ a ∷ b ∷ s) out = elim (Bool-cases (is_escape c a b)) [
  | inl e ↦
      let (percent, ha, hb) = is_escape-digits c a b e in
      let text = escape_text (to_ascii_lowercase a) (to_ascii_lowercase b) in
      let after =
        ends_with_slash-escape_text out (to_ascii_lowercase a) (to_ascii_lowercase b)
          (to_ascii_lowercase-IsLower b hb) in
      rw e (
        decode_path_from-decoded s (out ++ text)
        ∙ rw after (append_assoc out text (decoded false s)))
  | inr e ↦
      rw e (literal-decoded (a ∷ b ∷ s) out c (λ out'. decode_path_from-decoded (a ∷ b ∷ s) out'))
]

decode_path-decoded : (s : Bytes) → decode_path s ≡ decoded false s
unfolding decode_path ends_with_slash
decode_path-decoded s = decode_path_from-decoded s []
