-- ===== src/Surt/Decode/Path/Slashes.antt =====
-- crates/wbm/src/surt.rs: `decode_path` collapses runs of slashes.
use archivindex_wbm.Common.{
  ℕ, Bool, true, false, not, ◌||◌, [], ◌∷◌, ◌++◌, ◌≡◌, inl, inr, Bytes, ◌==◌, Bool-cases, arith,
}
use archivindex_wbm.Surt.Decode.{to_ascii_lowercase, escape_text, is_slash, is_escape, decode_path}
use archivindex_wbm.Surt.Decode.Path.{
  emitted, decoded, decode_path-decoded, escape_text-cases, IsLower, hex-not_slash,
  is_escape-digits, to_ascii_lowercase-IsLower,
}

-- No two neighbours are slashes; `slash` says that one stands before the text.
abbrev pub NoSlashRun : Bool → Bytes → Type 0
NoSlashRun slash [] = Unit
NoSlashRun slash (c ∷ s) = ((not (c == b'/') || not slash) ≡ true) × NoSlashRun (c == b'/') s

emitted-NoSlashRun :
    (slash : Bool) (c : ℕ) (s : Bytes)
    → NoSlashRun (is_slash c) s
    → NoSlashRun slash (emitted slash c s)
unfolding is_slash
emitted-NoSlashRun slash c s h = elim (Bool-cases (not (c == b'/') || not slash)) [
  | inl e ↦ rw e (e, h)
  | inr e ↦ let same : (c == b'/') ≡ slash = ground arith in rw (e, ← same) h
]

escape-NoSlashRun :
    (slash : Bool) (a b : ℕ) (s : Bytes)
    → IsLower a
    → IsLower b
    → NoSlashRun false s
    → NoSlashRun slash (escape_text a b ++ s)
unfolding is_slash
escape-NoSlashRun slash a b s ha hb h = elim (escape_text-cases a b) [
  | inl (r, e, plain) ↦ let no_slash = plain.not_slash in rw (e, no_slash) (ground arith, h)
  | inr (_, e) ↦
      let first = hex-not_slash a ha.hex in
      let second = hex-not_slash b hb.hex in
      rw (e, first, second) (ground arith, (ground arith, (ground arith, h)))
]

decoded-NoSlashRun : (slash : Bool) (s : Bytes) → NoSlashRun slash (decoded slash s)
unfolding decoded
decoded-NoSlashRun slash [] = tt
decoded-NoSlashRun slash (c ∷ []) = emitted-NoSlashRun slash c [] tt
decoded-NoSlashRun slash (c ∷ a ∷ []) =
    emitted-NoSlashRun slash c _ (emitted-NoSlashRun (is_slash c) a [] tt)
decoded-NoSlashRun slash (c ∷ a ∷ b ∷ s) = elim (Bool-cases (is_escape c a b)) [
  | inl e ↦
      let (_, ha, hb) = is_escape-digits c a b e in
      rw e (
        escape-NoSlashRun slash (to_ascii_lowercase a) (to_ascii_lowercase b) (decoded false s)
          (to_ascii_lowercase-IsLower a ha) (to_ascii_lowercase-IsLower b hb)
          (decoded-NoSlashRun false s))
  | inr e ↦ rw e (emitted-NoSlashRun slash c _ (decoded-NoSlashRun (is_slash c) (a ∷ b ∷ s)))
]

-- No two slashes are neighbours in a decoded path.
pub decode_path-NoSlashRun : (value : Bytes) → NoSlashRun false (decode_path value)
decode_path-NoSlashRun value = rw decode_path-decoded (decoded-NoSlashRun false value)
