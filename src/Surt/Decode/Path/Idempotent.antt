-- ===== src/Surt/Decode/Path/Idempotent.antt =====
-- crates/wbm/src/surt.rs: `decode_path` gives a text that it leaves alone.
use archivindex_wbm.Common.{
  ℕ, Bool, true, false, [], ◌∷◌, ◌++◌, ◌≡◌, ◌≢◌, refl, ap, ◌∙◌, inl, inr, Bytes, ◌==◌, Bool-cases,
  arith,
}
use archivindex_wbm.Surt.Decode.{
  is_ascii_hexdigit, to_ascii_lowercase, escape_text, is_slash, is_escape, decode_path,
}
use archivindex_wbm.Surt.Decode.Path.{
  emitted, decoded, decode_path-decoded, escape_text-cases, IsLower, hex-not_slash,
  is_escape-digits, to_ascii_lowercase-IsLower,
}

-- `c ∷ t` begins with an escape.
abbrev escapes : ℕ → Bytes → Bool
escapes c (a ∷ b ∷ t) = is_escape c a b
escapes c t = false

decoded-literal :
    (slash : Bool) (c : ℕ) (t : Bytes)
    → escapes c t ≡ false
    → decoded slash (c ∷ t) ≡ emitted slash c (decoded (is_slash c) t)
unfolding decoded
decoded-literal slash c [] h = refl
decoded-literal slash c (a ∷ []) h = refl
decoded-literal slash c (a ∷ b ∷ t) h = rw h

decoded-escape :
    (slash : Bool) (c a b : ℕ) (t : Bytes)
    → is_escape c a b ≡ true
    → decoded slash (c ∷ a ∷ b ∷ t)
      ≡ escape_text (to_ascii_lowercase a) (to_ascii_lowercase b) ++ decoded false t
unfolding decoded
decoded-escape slash c a b t h = rw h

escapes-percent : (c : ℕ) (t : Bytes) → c ≢ b'%' → escapes c t ≡ false
unfolding is_escape
escapes-percent c (a ∷ b ∷ t) h = ground arith
escapes-percent c _ h = refl

escapes-not_hex : (c d : ℕ) (t : Bytes) → is_ascii_hexdigit d ≡ false → escapes c (d ∷ t) ≡ false
unfolding is_escape
escapes-not_hex c d [] h = refl
escapes-not_hex c d (b ∷ t) h = ground arith

escapes-second_not_hex :
    (c a d : ℕ) (t : Bytes) → is_ascii_hexdigit d ≡ false → escapes c (a ∷ d ∷ t) ≡ false
unfolding is_escape
escapes-second_not_hex c a d t h = ground arith

percent-not_hex : is_ascii_hexdigit b'%' ≡ false
unfolding is_ascii_hexdigit
percent-not_hex = refl

abbrev HeadNotHex : Bytes → Type 0
HeadNotHex s = (d : ℕ) × (t : Bytes) × (s ≡ d ∷ t) × (is_ascii_hexdigit d ≡ false)

escape_text-not_hex : (a b : ℕ) (t : Bytes) → HeadNotHex (escape_text a b ++ t)
escape_text-not_hex a b t = elim (escape_text-cases a b) [
  | inl (r, e, plain) ↦ (r, t, rw e, plain.not_hex)
  | inr (_, e) ↦ (b'%', a ∷ b ∷ t, rw e, percent-not_hex)
]

literal-not_hex :
    (c : ℕ) (t : Bytes)
    → is_ascii_hexdigit c ≡ false
    → escapes c t ≡ false
    → HeadNotHex (decoded false (c ∷ t))
literal-not_hex c t h e =
    (c, decoded (is_slash c) t, rw (decoded-literal false c t e) (ground arith), h)

-- The first byte of an output is no hexadecimal digit, if that of the input is none.
decoded-not_hex :
    (c : ℕ) (s : Bytes) → is_ascii_hexdigit c ≡ false → HeadNotHex (decoded false (c ∷ s))
decoded-not_hex c [] h = literal-not_hex c [] h refl
decoded-not_hex c (a ∷ []) h = literal-not_hex c (a ∷ []) h refl
decoded-not_hex c (a ∷ b ∷ s) h = elim (Bool-cases (is_escape c a b)) [
  | inl e ↦
      rw (decoded-escape false c a b s e)
        (escape_text-not_hex (to_ascii_lowercase a) (to_ascii_lowercase b) (decoded false s))
  | inr e ↦ literal-not_hex c (a ∷ b ∷ s) h e
]

decoded-hex :
    (a : ℕ) (t : Bytes) → is_ascii_hexdigit a ≡ true → decoded false (a ∷ t) ≡ a ∷ decoded false t
decoded-hex a t h =
    let plain : a ≢ b'%' = unfold is_ascii_hexdigit in ground arith in
    rw (decoded-literal false a t (escapes-percent a t plain), hex-not_slash a h)

-- The byte behind a percent sign and one hexadecimal digit is no digit after decoding either.
second-decoded :
    (c a : ℕ) (t : Bytes)
    → is_ascii_hexdigit a ≡ true
    → c ≡ b'%'
    → escapes c (a ∷ t) ≡ false
    → escapes c (a ∷ decoded false t) ≡ false
second-decoded c a [] hex e h = unfold decoded in refl
second-decoded c a (b ∷ t) hex e h =
    let other : is_ascii_hexdigit b ≡ false = unfold is_escape in ground arith in
    let (d, s, e', hd) = decoded-not_hex b t other in rw e' (escapes-second_not_hex c a d s hd)

-- What is no escape does not become one.
percent-decoded :
    (c : ℕ) (t : Bytes) → escapes c t ≡ false → c ≡ b'%' → escapes c (decoded false t) ≡ false
percent-decoded c [] h e = unfold decoded in refl
percent-decoded c (a ∷ t) h e = elim (Bool-cases (is_ascii_hexdigit a)) [
  | inl hex ↦ rw (decoded-hex a t hex) (second-decoded c a t hex e h)
  | inr other ↦ let (d, s, e', hd) = decoded-not_hex a t other in rw e' (escapes-not_hex c d s hd)
]

escapes-decoded :
    (c : ℕ) (t : Bytes) → escapes c t ≡ false → escapes c (decoded (is_slash c) t) ≡ false
escapes-decoded c t h = elim (Bool-cases (c == b'%')) [
  | inl e ↦
      let percent : c ≡ b'%' = ground arith in
      let no_slash : is_slash c ≡ false = unfold is_slash in ground arith in
      rw no_slash (percent-decoded c t h percent)
  | inr e ↦ escapes-percent c _ (ground arith)
]

abbrev Stays : Bytes → Type 0
Stays s = (slash : Bool) → decoded slash (decoded slash s) ≡ decoded slash s

literal-Stays : (c : ℕ) (t : Bytes) → escapes c t ≡ false → Stays t → Stays (c ∷ t)
literal-Stays c t h ih slash =
    let again = decoded-literal slash c (decoded (is_slash c) t) (escapes-decoded c t h) in
    rw (decoded-literal slash c t h) (ground (arith, again, ih (is_slash c), ih true))

escape-decoded :
    (slash : Bool) (a b : ℕ) (t : Bytes)
    → IsLower a
    → IsLower b
    → decoded slash (escape_text a b ++ t) ≡ escape_text a b ++ decoded false t
escape-decoded slash a b t ha hb = elim (escape_text-cases a b) [
  | inl (r, e, plain) ↦
      rw (e, decoded-literal slash r t (escapes-percent r t plain.not_percent), plain.not_slash)
        (ground arith)
  | inr (_, e) ↦
      let valid : is_escape b'%' a b ≡ true = unfold is_escape in ground (arith, ha.hex, hb.hex) in
      rw e (decoded-escape slash b'%' a b t valid ∙ rw (ha.lower, hb.lower, e))
]

decoded-Stays : (s : Bytes) → Stays s
decoded-Stays [] slash = unfold decoded in refl
decoded-Stays (c ∷ []) slash = literal-Stays c [] refl (λ slash'. decoded-Stays [] slash') slash
decoded-Stays (c ∷ a ∷ []) slash =
    literal-Stays c (a ∷ []) refl (λ slash'. decoded-Stays (a ∷ []) slash') slash
decoded-Stays (c ∷ a ∷ b ∷ s) slash = elim (Bool-cases (is_escape c a b)) [
  | inl e ↦
      let (_, ha, hb) = is_escape-digits c a b e in
      let text = escape_text (to_ascii_lowercase a) (to_ascii_lowercase b) in
      rw (decoded-escape slash c a b s e) (
        escape-decoded slash (to_ascii_lowercase a) (to_ascii_lowercase b) (decoded false s)
          (to_ascii_lowercase-IsLower a ha) (to_ascii_lowercase-IsLower b hb)
        ∙ ap (λ t. text ++ t) (decoded-Stays s false))
  | inr e ↦ literal-Stays c (a ∷ b ∷ s) e (λ slash'. decoded-Stays (a ∷ b ∷ s) slash') slash
]

-- `decode_path` leaves a path alone that it has decoded.
pub decode_path_idem : (value : Bytes) → decode_path (decode_path value) ≡ decode_path value
decode_path_idem value = simp decode_path-decoded (decoded-Stays value false)
