-- ===== src/Process/Sorted.antt =====
-- `BTreeSet` and `BTreeMap` of the standard library, as crates/json-processing/src/process uses them:
-- lists in strictly ascending order, on a total order of the keys.
pub mod Maps
pub mod Sets
use archivindex_wbm.Common.{
  ℕ, Bool, true, false, ◌||◌, not, ◌≡◌, List, [], ◌∷◌, Option, none, some, if◌then◌else◌,
}

-- A strict total order, as a test.
pub record Order : Type 1 where
  pub Key : Type 0
  pub lt : Key → Key → Bool
  pub irreflexive : (a : Key) → lt a a ≡ false
  pub transitive : (a b c : Key) → lt a b ≡ true → lt b c ≡ true → lt a c ≡ true
  pub total : (a b : Key) → lt a b ≡ false → lt b a ≡ false → a ≡ b

module _ (keys : Order) where
  open keys use {Key, lt}

  -- `a == b`.
  abbrev pub same : Key → Key → Bool
  same a b = if lt a b then false else not (lt b a)

  -- `BTreeSet::insert`, and whether the value is a new one.
  unfoldable pub insert : Key → List Key → List Key
  insert x [] = x ∷ []
  insert x (y ∷ ys) =
      let rest = insert x ys in if lt x y then x ∷ y ∷ ys else if lt y x then y ∷ rest else y ∷ ys

  -- `BTreeSet::contains`.
  unfoldable pub contains : Key → List Key → Bool
  contains x [] = false
  contains x (y ∷ ys) = same x y || contains x ys

  module _ {V : Type 0} where
    -- `BTreeMap::entry(key).or_default()`, which is changed then.
    unfoldable pub upsert : V → (V → V) → Key → List (Key × V) → List (Key × V)
    upsert empty change k [] = (k, change empty) ∷ []
    upsert empty change k ((l, v) ∷ m) =
        let rest = upsert empty change k m in
        if lt k l
        then (k, change empty) ∷ (l, v) ∷ m
        else if lt l k
        then (l, v) ∷ rest
        else (l, change v) ∷ m

    -- `BTreeMap::get`.
    unfoldable pub get : Key → List (Key × V) → Option V
    get k [] = none
    get k ((l, v) ∷ m) = if same k l then some v else get k m

    -- `BTreeMap::contains_key`.
    unfoldable pub contains_key : Key → List (Key × V) → Bool
    contains_key k [] = false
    contains_key k ((l, v) ∷ m) = same k l || contains_key k m
