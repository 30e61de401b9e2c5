-- ===== src/Process/Sorted/Maps.antt =====
-- Maps as ascending lists: what an entry that is changed leaves of the values, and of the keys.
use archivindex_wbm.Common.{
  Bool, true, false, ◌||◌, ◌≡◌, refl, List, [], ◌∷◌, none, some, Bool-cases, inl, inr, arith,
}
use archivindex_wbm.Process.Sorted.Sets.{compared, less, greater, equal}
use archivindex_wbm.Process.Sorted.{Order, same, upsert, get, contains_key}

||_swap : (a b c : Bool) → (a || (b || c)) ≡ (b || (a || c))
||_swap a b c = ground arith

||_twice : (a b : Bool) → (a || b) ≡ (a || (a || b))
||_twice a b = ground arith

-- Keys that are the same are equal.
pub same_sound : (keys : Order) (a b : keys.Key) → same keys a b ≡ true → a ≡ b
same_sound keys a b h = elim (compared keys a b) [
  | less ab _ ↦ let clash : false ≡ true = rw ab at h in cc
  | greater ab ba ↦ let clash : false ≡ true = rw (ab, ba) at h in cc
  | equal e ↦ e
]

module _ (keys : Order) {V : Type 0} where
  open keys use {Key, lt, irreflexive, transitive, total}

  abbrev pub AllValues : (V → Type 0) → List (Key × V) → Type 0
  AllValues P [] = Unit
  AllValues P ((k, v) ∷ m) = P v × AllValues P m

  pub upsert-AllValues :
      (P : V → Type 0) (empty : V) (change : V → V) (k : Key) (m : List (Key × V))
      → P (change empty)
      → ((v : V) → P v → P (change v))
      → AllValues P m
      → AllValues P (upsert keys empty change k m)
  unfolding upsert
  upsert-AllValues P empty change k [] fresh keep h = (fresh, tt)
  upsert-AllValues P empty change k ((l, v) ∷ m) fresh keep (pv, h) =
      let rest = upsert-AllValues P empty change k m fresh keep h in
      elim (compared keys k l) [
        | less kl _ ↦ rw (upsert, kl) (fresh, (pv, h))
        | greater not_kl lk ↦ rw (upsert, not_kl, lk) (pv, rest)
        | equal e ↦
            let not_kl : lt k l ≡ false = rw e (irreflexive l) in
            let not_lk : lt l k ≡ false = rw e (irreflexive l) in
            rw (upsert, not_kl, not_lk) (keep v pv, h)
      ]

  pub get-AllValues :
      (P : V → Type 0) (k : Key) (m : List (Key × V)) {v : V}
      → AllValues P m
      → get keys k m ≡ some v
      → P v
  unfolding get
  get-AllValues P k [] h found = cc
  get-AllValues P k ((l, w) ∷ m) {v} (pw, h) found = elim (Bool-cases (same keys k l)) [
    | inl is ↦
        let found' : some w ≡ some v = rw (get, is) at found in let e : w ≡ v = cc in rw (← e) pw
    | inr other ↦ get-AllValues P k m h (rw (get, other) at found)
  ]

  -- Behind a change, the keys are those of the map and the key changed.
  pub contains_key-upsert :
      (empty : V) (change : V → V) (k l : Key) (m : List (Key × V))
      → contains_key keys l (upsert keys empty change k m)
        ≡ (same keys l k || contains_key keys l m)
  unfolding upsert contains_key
  contains_key-upsert empty change k l [] = refl
  contains_key-upsert empty change k l ((j, v) ∷ m) =
      let rest = contains_key-upsert empty change k l m in
      elim (compared keys k j) [
        | less kj _ ↦ rw (upsert, kj)
        | greater not_kj jk ↦
            rw (upsert, not_kj, jk, contains_key, rest)
              (||_swap (same keys l j) (same keys l k) (contains_key keys l m))
        | equal e ↦
            let not_kj : lt k j ≡ false = rw e (irreflexive j) in
            let not_jk : lt j k ≡ false = rw e (irreflexive j) in
            rw (upsert, not_kj, not_jk, e) (||_twice (same keys l j) (contains_key keys l m))
      ]

  pub get-missing :
      (k : Key) (m : List (Key × V)) → contains_key keys k m ≡ false → get keys k m ≡ none
  unfolding get contains_key
  get-missing k [] h = refl
  get-missing k ((l, v) ∷ m) h = elim (Bool-cases (same keys k l)) [
    | inl is ↦ let clash : true ≡ false = rw (contains_key, is) at h in cc
    | inr other ↦
        let h' : contains_key keys k m ≡ false = rw (contains_key, other) at h in
        rw (get, other) (get-missing k m h')
  ]
