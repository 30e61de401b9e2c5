-- ===== src/Snapshot/Recovery/Codecs.antt =====
-- crates/json/src/context.rs: the registered codecs are a map from format names, and no name is
-- registered twice.
use archivindex_wbm.Common.{
  true, false, List, [], ◌∷◌, ◌≡◌, refl, ap, some, bytes_eq_sound, bytes_eq_refl, if◌then◌else◌,
  Bool-cases, inl, inr,
}
use archivindex_wbm.Snapshot.{Format, utf8, other, Codec, Context}
use archivindex_wbm.Snapshot.Recovery.{format_eq, replace_codec, register_format, find_codec, codec}

format_eq_sound : (a b : Format) → format_eq a b ≡ true → a ≡ b
unfolding format_eq
format_eq_sound utf8 utf8 h = refl
format_eq_sound (other a) (other b) h = ap other (bytes_eq_sound a b h)
format_eq_sound utf8 (other b) h = cc
format_eq_sound (other a) utf8 h = cc

format_eq_refl : (a : Format) → format_eq a a ≡ true
unfolding format_eq
format_eq_refl utf8 = refl
format_eq_refl (other a) = bytes_eq_refl a

format_eq_comm : (a b : Format) → format_eq a b ≡ format_eq b a
format_eq_comm a b = elim (Bool-cases (format_eq a b)) [
  | inl same ↦ let e = format_eq_sound a b same in rw e refl
  | inr differs ↦ elim (Bool-cases (format_eq b a)) [
    | inl same ↦ let e = format_eq_sound b a same in rw e refl
    | inr differ ↦ rw (differs, differ)
  ]
]

module _ {Metadata : Type 0} where
  -- No codec is under the name.
  pub IsFree : Format → List (Format × Codec Metadata) → Type 0
  IsFree name [] = Unit
  IsFree name (f ∷ fs) = (format_eq f.0 name ≡ false) × IsFree name fs

  -- No two codecs are under one name.
  unfoldable pub IsUnique : List (Format × Codec Metadata) → Type 0
  IsUnique [] = Unit
  IsUnique (f ∷ fs) = IsFree f.0 fs × IsUnique fs

  find-replace :
      (name : Format) (k : Codec Metadata) (fs : List (Format × Codec Metadata)) (asked : Format)
      → find_codec (replace_codec name k fs) asked
        ≡ (if format_eq name asked then some k else find_codec fs asked)
  unfolding replace_codec find_codec
  find-replace name k [] asked = refl
  find-replace name k (f ∷ fs) asked =
      let ih = find-replace name k fs asked in
      elim (Bool-cases (format_eq f.0 name)) [
        | inl same ↦
            let e = format_eq_sound f.0 name same in
            elim (Bool-cases (format_eq name asked)) [
              | inl hit ↦ rw (same, hit, e, hit)
              | inr miss ↦ rw (same, miss, e, miss)
            ]
        | inr differs ↦ elim (Bool-cases (format_eq f.0 asked)) [
          | inr miss ↦ rw (differs, miss, ih)
          | inl hit ↦
              let e = format_eq_sound f.0 asked hit in
              let apart : format_eq name asked ≡ false =
                rw (← e, format_eq_comm name f.0) differs in
              rw (differs, hit, apart)
        ]
      ]

  IsFree-replace :
      (name : Format) (k : Codec Metadata) (fs : List (Format × Codec Metadata)) (asked : Format)
      → format_eq name asked ≡ false
      → IsFree asked fs
      → IsFree asked (replace_codec name k fs)
  unfolding replace_codec IsFree
  IsFree-replace name k [] asked apart free = (apart, tt)
  IsFree-replace name k (f ∷ fs) asked apart (here, there) =
      let ih = IsFree-replace name k fs asked apart there in
      elim (Bool-cases (format_eq f.0 name)) [
        | inl same ↦ rw same (here, there)
        | inr differs ↦ rw differs (here, ih)
      ]

  IsUnique-replace :
      (name : Format) (k : Codec Metadata) (fs : List (Format × Codec Metadata))
      → IsUnique fs
      → IsUnique (replace_codec name k fs)
  unfolding replace_codec IsFree IsUnique
  IsUnique-replace name k [] h = (tt, tt)
  IsUnique-replace name k (f ∷ fs) (free, unique) =
      let ih = IsUnique-replace name k fs unique in
      elim (Bool-cases (format_eq f.0 name)) [
        | inl same ↦ rw same (free, unique)
        | inr differs ↦
            let apart : format_eq name f.0 ≡ false = rw (format_eq_comm name f.0) differs in
            rw differs (IsFree-replace name k fs f.0 apart free, ih)
      ]

  -- Behind the registration of a codec, its format has that codec and every other the one it had; and
  -- formats that had one codec each still do.
  pub codec-register_format :
      (c : Context Metadata) (name : Format) (k : Codec Metadata) (asked : Format)
      → IsUnique c.formats
      → (codec (register_format c name k) asked
          ≡ (if format_eq name asked then some k else codec c asked))
        × IsUnique ((register_format c name k).formats)
  unfolding codec register_format
  codec-register_format c name k asked unique =
      (find-replace name k c.formats asked, IsUnique-replace name k c.formats unique)
