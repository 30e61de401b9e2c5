-- ===== src/Process/Resolver/Candidates/Earliest.antt =====
-- crates/json-processing/src/process/resolver.rs: a set of candidates that is not empty is resolved
-- without a panic, from the earliest one.
use archivindex_wbm.Common.{
  true, false, ◌≡◌, refl, sym, ◌∙◌, List, [], ◌∷◌, ◌++◌, Option, none, some, All, Bool-cases, inl,
  inr, ◌⊎◌,
}
use archivindex_wbm.Process.Resolver.Candidates.{Group, first, first_lt, least_from}
use archivindex_wbm.Process.Resolver.{
  ResolvedMetadata, metadata_lt, metadata_lt_trans, metadata_order,
}
use archivindex_wbm.Process.Sorted.Sets.{
  compared, less, greater, equal, IsAscendingFrom, not_before_trans,
}
use archivindex_wbm.Process.Sorted.{Order}

module _ (times : Order) where
  -- A group of candidates in ascending order, which is not empty.
  abbrev pub IsGroup : Group times → Type 0
  IsGroup g =
      (m : ResolvedMetadata times) × (ms : List (ResolvedMetadata times)) × (g.1 ≡ m ∷ ms)
      × IsAscendingFrom (metadata_order times) m ms

  -- No candidate of the groups is before `m`.
  abbrev pub IsEarliest : ResolvedMetadata times → List (Group times) → Type 0
  IsEarliest m groups = All (λ g. All (λ x. metadata_lt times x m ≡ false) g.1) groups

  first_lt_trans :
      (a b c : Option (ResolvedMetadata times))
      → first_lt times a b ≡ false
      → first_lt times b c ≡ false
      → first_lt times a c ≡ false
  unfolding first_lt
  first_lt_trans none none c h k = k
  first_lt_trans none (some b) c h k = cc
  first_lt_trans (some a) b none h k = refl
  first_lt_trans (some a) none (some c) h k = cc
  first_lt_trans (some a) (some b) (some c) h k = not_before_trans (metadata_order times) a b c h k

  first_lt-irreflexive : (a : Option (ResolvedMetadata times)) → first_lt times a a ≡ false
  unfolding first_lt
  first_lt-irreflexive none = refl
  first_lt-irreflexive (some a) = (metadata_order times).irreflexive a

  first_lt-flip :
      (a b : Option (ResolvedMetadata times))
      → first_lt times a b ≡ true
      → first_lt times b a ≡ false
  unfolding first_lt
  first_lt-flip none none h = cc
  first_lt-flip none (some b) h = refl
  first_lt-flip (some a) none h = cc
  first_lt-flip (some a) (some b) h = elim (compared (metadata_order times) a b) [
    | less _ ba ↦ ba
    | greater ab _ ↦ let clash : true ≡ false = sym h ∙ ab in cc
    | equal e ↦ rw e ((metadata_order times).irreflexive b)
  ]

  -- The group that is picked: no other begins before it.
  pub record IsLeast (best : Group times) (groups : List (Group times)) (r : Group times)
      : Type 0 where
    pub among : (r ≡ best) ⊎ ((before after : List (Group times)) × (groups ≡ before ++ r ∷ after))
    pub group : IsGroup r
    pub best_later : first_lt times (first times best.1) (first times r.1) ≡ false
    pub all_later : All (λ g. first_lt times (first times g.1) (first times r.1) ≡ false) groups

  pub least_from-IsLeast :
      (best : Group times) (groups : List (Group times))
      → IsGroup best
      → All IsGroup groups
      → IsLeast best groups (least_from times best groups)
  unfolding least_from
  least_from-IsLeast best [] is_group are_groups = record {
    among = inl refl;
    group = is_group;
    best_later = first_lt-irreflexive (first times best.1);
    all_later = tt;
  }
  least_from-IsLeast best (g ∷ groups) is_group (g_group, are_groups) =
      elim (Bool-cases (first_lt times (first times g.1) (first times best.1))) [
        | inl earlier ↦
            let rest = least_from-IsLeast g groups g_group are_groups in
            rw (least_from, earlier)
              (record {
                among = inr (in_rest g groups _ rest.among);
                group = rest.group;
                best_later =
                    first_lt_trans _ _ _
                      (first_lt-flip (first times g.1) (first times best.1) earlier)
                      rest.best_later;
                all_later = (rest.best_later, rest.all_later);
              })
        | inr later ↦
            let rest = least_from-IsLeast best groups is_group are_groups in
            rw (least_from, later)
              (record {
                among = kept best g groups _ rest.among;
                group = rest.group;
                best_later = rest.best_later;
                all_later = (first_lt_trans _ _ _ later rest.best_later, rest.all_later);
              })
      ]
    where
      in_rest :
          (g : Group times) (groups : List (Group times)) (r : Group times)
          → (r ≡ g) ⊎ ((before after : List (Group times)) × (groups ≡ before ++ r ∷ after))
          → (before after : List (Group times)) × (g ∷ groups ≡ before ++ r ∷ after)
      in_rest g groups r (inl e) = ([], groups, rw e)
      in_rest g groups r (inr (before, after, e)) = (g ∷ before, after, rw e)

      kept :
          (best g : Group times) (groups : List (Group times)) (r : Group times)
          → (r ≡ best) ⊎ ((before after : List (Group times)) × (groups ≡ before ++ r ∷ after))
          → (r ≡ best) ⊎ ((before after : List (Group times)) × (g ∷ groups ≡ before ++ r ∷ after))
      kept best g groups r (inl e) = inl e
      kept best g groups r (inr (before, after, e)) = inr (g ∷ before, after, rw e)

  none_before :
      (best m : ResolvedMetadata times) (ms : List (ResolvedMetadata times))
      → metadata_lt times m best ≡ false
      → IsAscendingFrom (metadata_order times) m ms
      → All (λ x. metadata_lt times x best ≡ false) (m ∷ ms)
  none_before best m [] h _ = (h, tt)
  none_before best m (x ∷ ms) h (mx, rest) =
      (h, none_before best x ms (later (Bool-cases (metadata_lt times x best))) rest)
    where
      later :
          (metadata_lt times x best ≡ true) ⊎ (metadata_lt times x best ≡ false)
          → metadata_lt times x best ≡ false
      later (inr known) = known
      later (inl before) =
          let clash : true ≡ false = sym (metadata_lt_trans times m x best mx before) ∙ h in cc

  none_before_group :
      (best : ResolvedMetadata times) (g : Group times)
      → IsGroup g
      → first_lt times (first times g.1) (some best) ≡ false
      → All (λ x. metadata_lt times x best ≡ false) g.1
  unfolding first first_lt
  none_before_group best g (m, ms, is, ascending) h =
      let m_later : metadata_lt times m best ≡ false = rw (is, first, first_lt) at h in
      rw is (none_before best m ms m_later ascending)

  pub none_before_groups :
      (best : ResolvedMetadata times) (groups : List (Group times))
      → All IsGroup groups
      → All (λ g. first_lt times (first times g.1) (some best) ≡ false) groups
      → IsEarliest best groups
  none_before_groups best [] _ _ = tt
  none_before_groups best (g ∷ groups) (is_group, are_groups) (h, hs) =
      (none_before_group best g is_group h, none_before_groups best groups are_groups hs)
