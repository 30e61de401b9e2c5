-- ===== src/Surt/Url/Slash.antt =====
-- crates/wbm/src/surt.rs: the slash that `from_url` takes from the end of a path.
use archivindex_wbm.Common.{
  ◌⊎◌, ℕ, false, [], ◌∷◌, ◌++◌, ◌≡◌, refl, sym, ap, ◌∙◌, inl, inr, some, Option, Bytes,
  append_assoc, append-nil, split_last, split_last-concat, last-cases, ◌==◌, if◌then◌else◌,
  Bool-cases, arith,
}
use archivindex_wbm.Surt.Url.Host.{pop-concat}
use archivindex_wbm.Surt.Url.{pop, ends_with, pop_slash}
use archivindex_wbm.Surt.{close}

pop_slash-concat :
    (s : Bytes) (c : ℕ) → pop_slash (s ++ c ∷ []) ≡ (if c == b'/' then s else s ++ c ∷ [])
unfolding pop_slash ends_with
pop_slash-concat s c = rw (split_last-concat s c, ends_with, pop-concat s c)

-- A slash is only taken from behind the terminator.
pub pop_slash-close :
    (host path : Bytes)
    → pop_slash ((host ++ close ∷ []) ++ path) ≡ host ++ (close ∷ pop_slash path)
pop_slash-close host path = elim (last-cases path) [
  | inl e ↦
      rw (e, append-nil (host ++ close ∷ []))
        (pop_slash-concat host close ∙ unfold pop_slash ends_with in refl)
  | inr (before, c, e) ↦
      rw
        (e, ← append_assoc (host ++ close ∷ []) before (c ∷ []), pop_slash-concat, pop_slash-concat)
        (ground (
          arith,
          append_assoc host (close ∷ []) before,
          append_assoc host (close ∷ before) (c ∷ []),
        ))
]

-- The path `cut` is `path` without the slash at its end, if it has one.
abbrev pub IsCut : Bytes → Bytes → Type 0
IsCut path cut =
    (path ≡ cut ++ b'/' ∷ [])
    ⊎ ((path ≡ cut) × ((before : Bytes) (c : ℕ) → path ≡ before ++ c ∷ [] → (c == b'/') ≡ false))

nil-concat : (before : Bytes) (c : ℕ) → [] ≡ before ++ c ∷ [] → ⊥
nil-concat [] c h = cc
nil-concat (b ∷ before) c h = cc

last-eq :
    (before : Bytes) (c : ℕ) (before' : Bytes) (d : ℕ)
    → ◌≡◌ {A = Option (Bytes × ℕ)} (some (before, c)) (some (before', d))
    → c ≡ d
last-eq before c before' d h = cc

concat_last :
    (before : Bytes) (c : ℕ) (before' : Bytes) (d : ℕ)
    → before ++ c ∷ [] ≡ before' ++ d ∷ []
    → c ≡ d
concat_last before c before' d h =
    let last : ◌≡◌ {A = Option (Bytes × ℕ)} (some (before, c)) (some (before', d)) =
      sym (split_last-concat before c) ∙ ap split_last h ∙ split_last-concat before' d in
    last-eq before c before' d last

pub pop_slash-IsCut : (path : Bytes) → IsCut path (pop_slash path)
unfolding pop_slash ends_with pop
pop_slash-IsCut path = elim (last-cases path) [
  | inl e ↦ rw e (inr (refl, λ before c h. absurd (nil-concat before c h)))
  | inr (before, c, e) ↦ elim (Bool-cases (c == b'/')) [
    | inl slash ↦
        let c_is : c ≡ b'/' = ground arith in
        rw (e, pop_slash-concat before c, slash) (inl (ap (λ d. before ++ d ∷ []) c_is))
    | inr other ↦
        rw (e, pop_slash-concat before c, other)
          (inr (refl, λ before' d h. rw (concat_last before c before' d h) at other))
  ]
]
