-- ===== src/Process/Sorted/Sets.antt =====
-- Sets as ascending lists: the order in which values are inserted does not matter.
use archivindex_wbm.Common.{true, false, ◌≡◌, refl, sym, ◌∙◌, List, [], ◌∷◌, Bool-cases, inl, inr}
use archivindex_wbm.Process.Sorted.{Order, insert}

module _ (keys : Order) where
  open keys use {Key, lt, irreflexive, transitive, total}

  -- The three ways in which two keys compare.
  pub data Compared (a b : Key) : Type 0 where
    less : lt a b ≡ true → lt b a ≡ false → Compared a b
    greater : lt a b ≡ false → lt b a ≡ true → Compared a b
    equal : a ≡ b → Compared a b

  pub compared : (a b : Key) → Compared a b
  compared a b = elim (Bool-cases (lt a b)) [
    | inl ab ↦ elim (Bool-cases (lt b a)) [
      | inl ba ↦ let clash : true ≡ false = sym (transitive a b a ab ba) ∙ irreflexive a in cc
      | inr not_ba ↦ less ab not_ba
    ]
    | inr not_ab ↦ elim (Bool-cases (lt b a)) [
      | inl ba ↦ greater not_ab ba
      | inr not_ba ↦ equal (total a b not_ab not_ba)
    ]
  ]

  -- What is not before a key that is not before another is not before that one.
  pub not_before_trans : (a b c : Key) → lt a b ≡ false → lt b c ≡ false → lt a c ≡ false
  not_before_trans a b c ab bc = elim (compared a c) [
    | greater ac _ ↦ ac
    | equal e ↦ rw e (irreflexive c)
    | less ac _ ↦ elim (compared a b) [
      | less before _ ↦ let clash : true ≡ false = sym before ∙ ab in cc
      | equal e ↦
          let bc' : lt b c ≡ true = rw e at ac in let clash : true ≡ false = sym bc' ∙ bc in cc
      | greater _ ba ↦ let clash : true ≡ false = sym (transitive b a c ba ac) ∙ bc in cc
    ]
  ]

  -- Every value is behind `x`, in strictly ascending order.
  abbrev pub IsAscendingFrom : Key → List Key → Type 0
  IsAscendingFrom x [] = Unit
  IsAscendingFrom x (y ∷ ys) = (lt x y ≡ true) × IsAscendingFrom y ys

  abbrev pub IsAscending : List Key → Type 0
  IsAscending [] = Unit
  IsAscending (x ∷ xs) = IsAscendingFrom x xs

  pub insert-less :
      (x y : Key) (ys : List Key) → lt x y ≡ true → insert keys x (y ∷ ys) ≡ x ∷ y ∷ ys
  unfolding insert
  insert-less x y ys xy = rw (insert, xy)

  pub insert-greater :
      (x y : Key) (ys : List Key)
      → lt x y ≡ false
      → lt y x ≡ true
      → insert keys x (y ∷ ys) ≡ y ∷ insert keys x ys
  unfolding insert
  insert-greater x y ys xy yx = rw (insert, xy, yx)

  pub insert-equal : (x y : Key) (ys : List Key) → x ≡ y → insert keys x (y ∷ ys) ≡ y ∷ ys
  unfolding insert
  insert-equal x y ys e =
      let xy : lt x y ≡ false = rw e (irreflexive y) in
      let yx : lt y x ≡ false = rw e (irreflexive y) in rw (insert, xy, yx)

  pub insert-nil : (x : Key) → insert keys x [] ≡ x ∷ []
  unfolding insert
  insert-nil x = refl

  insert-IsAscendingFrom :
      (x y : Key) (ys : List Key)
      → lt y x ≡ true
      → IsAscendingFrom y ys
      → IsAscendingFrom y (insert keys x ys)
  insert-IsAscendingFrom x y [] yx h = rw (insert-nil x) (yx, tt)
  insert-IsAscendingFrom x y (z ∷ ys) yx (yz, h) = elim (compared x z) [
    | less xz _ ↦ rw (insert-less x z ys xz) (yx, (xz, h))
    | greater not_xz zx ↦
        rw (insert-greater x z ys not_xz zx) (yz, insert-IsAscendingFrom x z ys zx h)
    | equal e ↦ rw (insert-equal x z ys e) (yz, h)
  ]

  pub insert-IsAscending :
      (x : Key) (ys : List Key) → IsAscending ys → IsAscending (insert keys x ys)
  insert-IsAscending x [] h = rw (insert-nil x) tt
  insert-IsAscending x (y ∷ ys) h = elim (compared x y) [
    | less xy _ ↦ rw (insert-less x y ys xy) (xy, h)
    | greater not_xy yx ↦ rw (insert-greater x y ys not_xy yx) (insert-IsAscendingFrom x y ys yx h)
    | equal e ↦ rw (insert-equal x y ys e) h
  ]

  insert_comm_less :
      (a b : Key) (ys : List Key)
      → lt a b ≡ true
      → lt b a ≡ false
      → insert keys a (insert keys b ys) ≡ insert keys b (insert keys a ys)
  insert_comm_less a b [] ab ba =
      rw (
        insert-nil a,
        insert-nil b,
        insert-less a b [] ab,
        insert-greater b a [] ba ab,
        insert-nil b,
      )
  insert_comm_less a b (y ∷ ys) ab ba = elim (compared b y) [
    | less bY _ ↦
        let ay = transitive a b y ab bY in
        rw (
          insert-less b y ys bY,
          insert-less a b (y ∷ ys) ab,
          insert-less a y ys ay,
          insert-greater b a (y ∷ ys) ba ab,
          insert-less b y ys bY,
        )
    | equal e ↦
        let ay : lt a y ≡ true = rw e at ab in
        rw (
          insert-equal b y ys e,
          insert-less a y ys ay,
          insert-greater b a (y ∷ ys) ba ab,
          insert-equal b y ys e,
        )
    | greater not_by yb ↦ elim (compared a y) [
      | less ay _ ↦ rw (
        insert-greater b y ys not_by yb,
        insert-less a y (insert keys b ys) ay,
        insert-less a y ys ay,
        insert-greater b a (y ∷ ys) ba ab,
        insert-greater b y ys not_by yb,
      )
      | equal e ↦ rw (
        insert-greater b y ys not_by yb,
        insert-equal a y (insert keys b ys) e,
        insert-equal a y ys e,
        insert-greater b y ys not_by yb,
      )
      | greater not_ay ya ↦ rw (
        insert-greater b y ys not_by yb,
        insert-greater a y (insert keys b ys) not_ay ya,
        insert-greater a y ys not_ay ya,
        insert-greater b y (insert keys a ys) not_by yb,
        insert_comm_less a b ys ab ba,
      )
    ]
  ]

  -- The order of two insertions does not matter.
  pub insert_comm :
      (a b : Key) (ys : List Key)
      → insert keys a (insert keys b ys) ≡ insert keys b (insert keys a ys)
  insert_comm a b ys = elim (compared a b) [
    | less ab ba ↦ insert_comm_less a b ys ab ba
    | greater ab ba ↦ sym (insert_comm_less b a ys ba ab)
    | equal e ↦ rw e
  ]
