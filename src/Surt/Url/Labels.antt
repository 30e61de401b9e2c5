-- ===== src/Surt/Url/Labels.antt =====
-- crates/wbm/src/surt.rs: the labels of a host, and which of them enter a key.
use archivindex_wbm.Common.{
  true, false, ◌≡◌, ◌≢◌, refl, ap, ◌∙◌, List, [], ◌∷◌, ◌++◌, Bytes, All, reverse, codes, bytes_eq,
  bytes_eq_sound, bytes_eq_refl, cons-ne-nil, Bool-cases, inl, inr, arith, ◌==◌, ℕ,
}
use archivindex_wbm.Surt.Url.Host.{kept, key_labels}
use archivindex_wbm.Surt.Url.{push_front, split_dots, is_dropped}

-- Labels joined by dots.
abbrev pub dotted : List Bytes → Bytes
dotted [] = []
dotted (l ∷ []) = l
dotted (l ∷ k ∷ ls) = l ++ (b'.' ∷ dotted (k ∷ ls))

abbrev pub AllDotless : List Bytes → Type 0
AllDotless = All (All (λ c. (c == b'.') ≡ false))

-- The labels `ls` without those that are empty or `www`.
pub data IsKept : List Bytes → List Bytes → Type 0 where
  none_left : IsKept [] []
  empty : {ls ks : List Bytes} → IsKept ls ks → IsKept ([] ∷ ls) ks
  www : {ls ks : List Bytes} → IsKept ls ks → IsKept (codes "www" ∷ ls) ks
  taken :
      {l : Bytes} {ls ks : List Bytes}
      → l ≢ []
      → l ≢ codes "www"
      → IsKept ls ks
      → IsKept (l ∷ ls) (l ∷ ks)

kept-IsKept : (ls : List Bytes) → IsKept ls (kept ls)
unfolding is_dropped
kept-IsKept [] = none_left
kept-IsKept (l ∷ ls) =
    let rest = kept-IsKept ls in
    elim (Bool-cases (bytes_eq l (codes "www"))) [
      | inl e ↦ rw (e, bytes_eq_sound l (codes "www") e) (www rest)
      | inr other ↦ elim (Bool-cases (bytes_eq l [])) [
        | inl e ↦ rw (other, e, bytes_eq_sound l [] e) (empty rest)
        | inr filled ↦
            rw (other, filled)
              (taken (bytes_eq-differs l [] filled) (bytes_eq-differs l (codes "www") other) rest)
      ]
    ]
  where
    bytes_eq-differs : (a b : Bytes) → bytes_eq a b ≡ false → a ≢ b
    bytes_eq-differs a b h e = let same : bytes_eq a b ≡ true = rw e (bytes_eq_refl b) in cc

split_dots-dotted :
    (s : Bytes)
    → (l : Bytes) × (ls : List Bytes) × (split_dots s ≡ l ∷ ls)
      × (dotted (l ∷ ls) ≡ s)
      × AllDotless (l ∷ ls)
unfolding split_dots push_front
split_dots-dotted [] = ([], [], refl, refl, (tt, tt))
split_dots-dotted (c ∷ s) =
    let (l, ls, is, text, dotless) = split_dots-dotted s in
    elim (Bool-cases (c == b'.')) [
      | inl e ↦
          let c_is : c ≡ b'.' = ground arith in
          ([], l ∷ ls, rw (e, is), rw (c_is, text), (tt, dotless))
      | inr e ↦
          (c ∷ l, ls, rw (e, is), front c l ls ∙ ap (λ t. c ∷ t) text, ((e, dotless.0), dotless.1))
    ]
  where
    front : (c : ℕ) (l : Bytes) (ls : List Bytes) → dotted ((c ∷ l) ∷ ls) ≡ c ∷ dotted (l ∷ ls)
    front c l [] = refl
    front c l (k ∷ ls) = refl

-- The labels of a host, between its dots, and those of them that enter a key, from the last to the
-- first.
pub record IsLabelled (host : Bytes) (labels : List Bytes) : Type 0 where
  pub names : List Bytes
  pub host_is : dotted names ≡ host
  pub dotless : AllDotless names
  pub some_name : names ≢ []
  pub kept_are : IsKept (reverse names) labels

pub key_labels-IsLabelled :
    (host : Bytes) {labels : List Bytes} → key_labels host ≡ labels → IsLabelled host labels
key_labels-IsLabelled host e =
    let (l, ls, is, text, dotless) = split_dots-dotted host in
    record {
      names = l ∷ ls;
      host_is = text;
      dotless = dotless;
      some_name = cons-ne-nil l ls;
      kept_are = rw (e, is) at (kept-IsKept (reverse (split_dots host)));
    }
