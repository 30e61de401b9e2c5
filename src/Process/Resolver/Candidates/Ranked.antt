-- ===== src/Process/Resolver/Candidates/Ranked.antt =====
-- crates/json-processing/src/process/resolver.rs: the candidates are ranked as an ordered set, so the
-- order in which they are found does not matter, and the resolution is the earliest one.
use archivindex_wbm.Common.{false, ◌≡◌, refl, sym, ap, ◌∙◌, List, [], ◌∷◌, none, some}
use archivindex_wbm.Process.Resolver.Candidates.{rank, add_valid, Group}
use archivindex_wbm.Process.Resolver.{
  ResolvedMetadata, ResolvedMetadataSet, metadata_lt, metadata_lt-irreflexive, metadata_order,
}
use archivindex_wbm.Process.Sorted.Sets.{
  compared, less, greater, equal, IsAscending, IsAscendingFrom, insert_comm, insert-IsAscending,
  insert-nil, insert-less, insert-greater, insert-equal,
}
use archivindex_wbm.Process.Sorted.{Order, insert}
use mathlib.Core.List.{Permᴰ}

module _ (times : Order) where
  -- The candidates with the digest itself, in order: the first one is the primary one.
  abbrev pub of_ranked :
      List (ResolvedMetadata times) → List (Group times) → ResolvedMetadataSet times
  of_ranked [] groups = record { primary = none; other = []; by_invalid_digest = groups }
  of_ranked (p ∷ ps) groups = record { primary = some p; other = ps; by_invalid_digest = groups }

  insert-below :
      (p : ResolvedMetadata times) (ps : List (ResolvedMetadata times))
      → IsAscendingFrom (metadata_order times) p ps
      → insert (metadata_order times) p ps ≡ p ∷ ps
  insert-below p [] h = insert-nil (metadata_order times) p
  insert-below p (q ∷ ps) (pq, _) = insert-less (metadata_order times) p q ps pq

  rank-of_ranked :
      (groups : List (Group times)) (m p : ResolvedMetadata times)
      (ps : List (ResolvedMetadata times))
      → IsAscendingFrom (metadata_order times) p ps
      → rank times (of_ranked (p ∷ ps) groups) p m
        ≡ of_ranked (insert (metadata_order times) m (p ∷ ps)) groups
  unfolding rank
  rank-of_ranked groups m p ps h = elim (compared (metadata_order times) p m) [
    | less pm mp ↦ rw (rank, pm, insert-greater (metadata_order times) m p ps mp pm)
    | greater pm mp ↦
        rw (rank, pm, mp, insert-below p ps h, insert-less (metadata_order times) m p ps mp)
    | equal e ↦
        let pm : metadata_lt times p m ≡ false = rw e (metadata_lt-irreflexive times m) in
        let mp : metadata_lt times m p ≡ false = rw e (metadata_lt-irreflexive times m) in
        rw (rank, pm, mp, insert-equal (metadata_order times) m p ps (sym e))
  ]

  -- A candidate that is added is inserted into the ranked ones.
  pub add_valid-insert :
      (groups : List (Group times)) (m : ResolvedMetadata times) (l : List (ResolvedMetadata times))
      → IsAscending (metadata_order times) l
      → add_valid times (of_ranked l groups) m
        ≡ of_ranked (insert (metadata_order times) m l) groups
  unfolding add_valid
  add_valid-insert groups m [] h = rw (insert-nil (metadata_order times) m)
  add_valid-insert groups m (p ∷ ps) h = rank-of_ranked groups m p ps h

  -- Candidates added in turn, and inserted in turn.
  abbrev pub add_all :
      ResolvedMetadataSet times → List (ResolvedMetadata times) → ResolvedMetadataSet times
  add_all s [] = s
  add_all s (m ∷ ms) = add_all (add_valid times s m) ms

  abbrev pub insert_all :
      List (ResolvedMetadata times) → List (ResolvedMetadata times) → List (ResolvedMetadata times)
  insert_all l [] = l
  insert_all l (m ∷ ms) = insert_all (insert (metadata_order times) m l) ms

  insert_all-IsAscending :
      (l ms : List (ResolvedMetadata times))
      → IsAscending (metadata_order times) l
      → IsAscending (metadata_order times) (insert_all l ms)
  insert_all-IsAscending l [] h = h
  insert_all-IsAscending l (m ∷ ms) h =
      insert_all-IsAscending (insert (metadata_order times) m l) ms
        (insert-IsAscending (metadata_order times) m l h)

  add_all-insert_all :
      (groups : List (Group times)) (l ms : List (ResolvedMetadata times))
      → IsAscending (metadata_order times) l
      → add_all (of_ranked l groups) ms ≡ of_ranked (insert_all l ms) groups
  add_all-insert_all groups l [] h = refl
  add_all-insert_all groups l (m ∷ ms) h = rw (add_valid-insert groups m l h) (
      add_all-insert_all groups (insert (metadata_order times) m l) ms
        (insert-IsAscending (metadata_order times) m l h))

  insert_all-Permᴰ :
      (l : List (ResolvedMetadata times)) {ms ns : List (ResolvedMetadata times)}
      → Permᴰ ms ns
      → insert_all l ms ≡ insert_all l ns
  insert_all-Permᴰ l Permᴰ.nil = refl
  insert_all-Permᴰ l (Permᴰ.cons {b = b} e p) =
      rw e (insert_all-Permᴰ (insert (metadata_order times) b l) p)
  insert_all-Permᴰ l (Permᴰ.swap {a = a} {b = b} {l = ms} e d) =
      rw (← e, ← d) (ap (λ k. insert_all k ms) (insert_comm (metadata_order times) b a l))
  insert_all-Permᴰ l (Permᴰ.trans p q) = insert_all-Permᴰ l p ∙ insert_all-Permᴰ l q

  -- Candidates with the digest itself that are added to a set in whatever order give the same set: they
  -- are ranked in strictly ascending order with those that the set has, the earliest one is the primary
  -- one, and none is there twice.
  pub add_all-Permᴰ :
      (groups : List (Group times)) (l ms ns : List (ResolvedMetadata times))
      → IsAscending (metadata_order times) l
      → Permᴰ ms ns
      → (add_all (of_ranked l groups) ms ≡ of_ranked (insert_all l ms) groups)
        × (add_all (of_ranked l groups) ns ≡ add_all (of_ranked l groups) ms)
        × IsAscending (metadata_order times) (insert_all l ms)
  add_all-Permᴰ groups l ms ns h p = (
    add_all-insert_all groups l ms h,
    add_all-insert_all groups l ns h
        ∙ ap (λ k. of_ranked k groups) (sym (insert_all-Permᴰ l p))
        ∙ sym (add_all-insert_all groups l ms h),
    insert_all-IsAscending l ms h,
  )
