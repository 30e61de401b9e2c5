-- ===== src/Surt/Url/Host.antt =====
-- crates/wbm/src/surt.rs: the host of `from_url`, split at its dots, reversed and joined by commas.
use archivindex_wbm.Common.{
  ℕ, ◌≤◌, true, false, ◌||◌, List, [], ◌∷◌, ◌++◌, ◌≡◌, ◌≢◌, refl, sym, ap, ◌∙◌, inl, inr, ok, Bytes,
  All, length, map, append_assoc, append-nil, split_last-concat, ltb, ◌==◌, if◌then◌else◌,
  Bool-cases, arith, All-append, reverse, reverse-append,
}
use archivindex_wbm.Surt.{comma, max_part, is_part_byte}
use archivindex_wbm.Surt.Text.{IsPart, join_parts}
use archivindex_wbm.Surt.Url.{push_front, split_dots, is_dropped, push_labels, pop}

-- The labels that enter the key.
abbrev pub kept : List Bytes → List Bytes
kept [] = []
kept (l ∷ ls) = if is_dropped l then kept ls else l ∷ kept ls

commas : List Bytes → Bytes
commas [] = []
commas (l ∷ ls) = l ++ (comma ∷ commas ls)

abbrev pub Fits : List Bytes → Type 0
Fits = All (λ l. length l ≤ max_part)

push_labels-kept :
    {E : Type 0} (ls : List Bytes) (source source' : Bytes) (lens lens' : List ℕ)
    → push_labels {E = E} ls source lens ≡ ok (source', lens')
    → (source' ≡ source ++ commas (kept ls))
      × (lens' ≡ lens ++ map length (kept ls))
      × Fits (kept ls)
unfolding push_labels commas
push_labels-kept [] source source' lens lens' h = ground (arith, append-nil source, append-nil lens)
push_labels-kept {E} (l ∷ ls) source source' lens lens' h = elim (Bool-cases (is_dropped l)) [
  | inl e ↦ rw e (push_labels-kept {E = E} ls source source' lens lens' (rw e at h))
  | inr e ↦ elim (Bool-cases (ltb max_part (length l))) [
    | inl long ↦ let pushed = rw (e, long) at h in cc
    | inr short ↦
        let (text, recorded, fits) =
          push_labels-kept {E = E} ls (source ++ (l ++ comma ∷ [])) source' (lens ++ length l ∷ [])
            lens' (rw (e, short) at h) in
        rw e (
          text
              ∙ append_assoc source (l ++ comma ∷ []) _
              ∙ ap (λ t. source ++ t) (append_assoc l (comma ∷ []) _),
          recorded ∙ append_assoc lens _ _,
          (ground arith, fits),
        )
  ]
]

commas-join : (l : Bytes) (ls : List Bytes) → commas (l ∷ ls) ≡ join_parts (l ∷ ls) ++ comma ∷ []
unfolding commas
commas-join l [] = refl
commas-join l (k ∷ ls) = rw (commas-join k ls) (sym (append_assoc l _ _))

pub pop-concat : (s : Bytes) (c : ℕ) → pop (s ++ c ∷ []) ≡ s
unfolding pop
pop-concat s c = rw (split_last-concat s c, pop)

-- The comma behind the last label is taken off.
pop-commas : (l : Bytes) (ls : List Bytes) → pop (commas (l ∷ ls)) ≡ join_parts (l ∷ ls)
pop-commas l ls = rw (commas-join l ls) (pop-concat (join_parts (l ∷ ls)) comma)

-- A host of part bytes and dots.
abbrev pub IsHost : Bytes → Type 0
IsHost = All (λ c. (is_part_byte c || c == b'.') ≡ true)

abbrev AllParts : Bytes → Type 0
AllParts = All (λ c. is_part_byte c ≡ true)

push_front-AllParts :
    (c : ℕ) (ls : List Bytes)
    → is_part_byte c ≡ true
    → All AllParts ls
    → All AllParts (push_front c ls)
unfolding push_front
push_front-AllParts c [] hc h = ((hc, tt), tt)
push_front-AllParts c (l ∷ ls) hc h = ((hc, h.0), h.1)

split_dots-AllParts : (s : Bytes) → IsHost s → All AllParts (split_dots s)
unfolding split_dots
split_dots-AllParts [] h = (tt, tt)
split_dots-AllParts (c ∷ s) h = elim (Bool-cases (c == b'.')) [
  | inl e ↦ rw e (tt, split_dots-AllParts s h.1)
  | inr e ↦
      let part : is_part_byte c ≡ true = ground arith in
      rw e (push_front-AllParts c (split_dots s) part (split_dots-AllParts s h.1))
]

reverse-All : (ls : List Bytes) → All AllParts ls → All AllParts (reverse ls)
reverse-All [] h = tt
reverse-All (l ∷ ls) h =
    rw (reverse-append (l ∷ []) ls)
      (All-append AllParts (reverse ls) (l ∷ []) (reverse-All ls h.1) (h.0, tt))

is_dropped-nonempty : (l : Bytes) → is_dropped l ≡ false → 1 ≤ length l
unfolding is_dropped
is_dropped-nonempty [] h = cc
is_dropped-nonempty (c ∷ l) h = omega arith

-- The labels that enter the key are parts of it.
pub kept-IsPart : (ls : List Bytes) → All AllParts ls → Fits (kept ls) → All IsPart (kept ls)
kept-IsPart [] h f = tt
kept-IsPart (l ∷ ls) h f = elim (Bool-cases (is_dropped l)) [
  | inl e ↦ rw e (kept-IsPart ls h.1 (rw e at f))
  | inr e ↦
      let (fits, later) = rw e at f in
      rw e (
        record { bytes = h.0; nonempty = is_dropped-nonempty l e; fits = fits },
        kept-IsPart ls h.1 later,
      )
]

-- The labels of a host that enter the key, in its order.
abbrev pub key_labels : Bytes → List Bytes
key_labels host = kept (reverse (split_dots host))

-- The text and the lengths that the loop leaves, for a host whose labels are not all dropped.
pub record IsHosted (host source : Bytes) (lens : List ℕ) : Type 0 where
  pub first : Bytes
  pub others : List Bytes
  pub labels : key_labels host ≡ first ∷ others
  pub text : pop source ≡ join_parts (first ∷ others)
  pub recorded : lens ≡ map length (first ∷ others)
  pub fits : Fits (first ∷ others)

pub push_labels-IsHosted :
    {E : Type 0} (host source : Bytes) (lens : List ℕ)
    → lens ≢ []
    → push_labels {E = E} (reverse (split_dots host)) [] [] ≡ ok (source, lens)
    → IsHosted host source lens
push_labels-IsHosted {E} host source lens some_label pushed =
    go (key_labels host) refl
      (push_labels-kept {E = E} (reverse (split_dots host)) [] source [] lens pushed)
  where
    go :
        (labels : List Bytes)
        → key_labels host ≡ labels
        → (source ≡ commas (key_labels host))
          × (lens ≡ map length (key_labels host))
          × Fits (key_labels host)
        → IsHosted host source lens
    go [] e (text, recorded, fits) = absurd (some_label (rw e at recorded))
    go (first ∷ others) e (text, recorded, fits) = record {
      first = first;
      others = others;
      labels = e;
      text = rw (text, e) (pop-commas first others);
      recorded = rw e at recorded;
      fits = rw e at fits;
    }

pub key_labels-IsPart :
    (host : Bytes) {labels : List Bytes}
    → IsHost host
    → key_labels host ≡ labels
    → Fits labels
    → All IsPart labels
key_labels-IsPart host h e fits = rw e at (
    kept-IsPart (reverse (split_dots host))
      (reverse-All (split_dots host) (split_dots-AllParts host h)) (rw (← e) at fits))
