-- ===== src/Merge/Loop/Passthrough/Entries.antt =====
-- crates/json-processing/src/stream/merge.rs: the merge passes every snapshot of its streams through, in
-- order, whatever new entries come between.
use archivindex_wbm.Common.Results.{>>=-ok}
use archivindex_wbm.Common.{
  Bool, List, [], ◌∷◌, ◌≡◌, refl, sym, ap, ◌∙◌, Option, none, some, ok, err, Bytes, append-nil,
  Bool-cases, inl, inr, ◌⊎◌,
}
use archivindex_wbm.Merge.Loop.{
  Lane, items, pass, drain_before, is_match, passthrough_if_match, drain_rest, Merging,
  write_target,
}
use archivindex_wbm.Merge.{
  NewSnapshotTarget, to_first, to_second, to_none, Item, PeekedStream, new, Sink, take_next,
  peek_digest, peek_item, next_item, next, write_new,
}
use archivindex_wbm.Snapshot.Recovery.Encoding.{Sha1}
use archivindex_wbm.Snapshot.{Snapshot}
use archivindex_wbm.Merge.Loop.Passthrough.{
  ok-eq, existing_of, existing_of-append, Passed, Passes-trans, Passes-none, send-ok, pass-one,
  drain_before_on-Passed, next_item-err, next_item-some, ended_next, drain_rest_on-Passed,
}

module _ {Timestamp Metadata E : Type 0} where
  take_next-cases :
      (o : Option (Item Timestamp Metadata E)) (xs : List (Item Timestamp Metadata E))
      → ((take_next o xs ≡ (none, [])) × (elim o [ none ↦ xs | some x ↦ x ∷ xs ] ≡ []))
        ⊎ ((x : Item Timestamp Metadata E) × (ys : List (Item Timestamp Metadata E)) × (take_next o
                xs
              ≡ (some x, ys))
            × (elim o [ none ↦ xs | some x ↦ x ∷ xs ] ≡ x ∷ ys))
  unfolding take_next
  take_next-cases none [] = inl (refl, refl)
  take_next-cases none (x ∷ xs) = inr (x, xs, refl, refl)
  take_next-cases (some x) xs = inr (x, xs, refl, refl)

  -- What `next` gives where it gives something.
  next-cases :
      (t : PeekedStream Timestamp Metadata E)
      (n : Option (Snapshot Timestamp Metadata) × PeekedStream Timestamp Metadata E)
      → next t ≡ ok n
      → ((n.0 ≡ none) × (items t ≡ []) × (items n.1 ≡ []) × (t.previous ≡ n.1.previous))
        ⊎ ((s : Snapshot Timestamp Metadata) × (ys : List (Item Timestamp Metadata E)) × (n.0
              ≡ some s)
            × (items t ≡ ok s ∷ ys)
            × (next_item t (some (ok s), ys) ≡ ok n))
  unfolding next items
  next-cases t n h = elim (take_next-cases t.peeked t.inner) [
    | inl (taken, empty) ↦
        let ended = rw (next, taken) at h in
        let n_is = ended_next t n ended in inl (n_is.0, empty, n_is.1, n_is.2)
    | inr (err e, ys, taken, there) ↦
        let refused = rw (next, taken) at h in
        let failed = sym (next_item-err t e ys) ∙ refused in cc
    | inr (ok s, ys, taken, there) ↦
        let read = rw (next, taken) at h in inr (s, ys, next_item-some t s ys n read, there, read)
  ]

  peek_digest-items :
      (t : PeekedStream Timestamp Metadata E) (p : Option Bytes × PeekedStream Timestamp Metadata E)
      → peek_digest t ≡ ok p
      → (items t ≡ items p.1) × (t.previous ≡ p.1.previous)
  unfolding peek_digest peek_item items
  peek_digest-items t p h = elim (take_next-cases t.peeked t.inner) [
    | inl (taken, empty) ↦ rw (← ok-eq (rw (peek_digest, taken) at h)) (empty, refl)
    | inr (err e, ys, taken, there) ↦ let refused = rw (peek_digest, taken) at h in cc
    | inr (ok s, ys, taken, there) ↦ rw (← ok-eq (rw (peek_digest, taken) at h)) (there, refl)
  ]

  pub drain_before-Passed :
      (target : Bytes) (l l' : Lane Timestamp Metadata E)
      → drain_before target l ≡ ok l'
      → Passed l l'
  unfolding drain_before
  drain_before-Passed target l l' h = drain_before_on-Passed target (items l.stream) l l' refl h

  pub drain_rest-Passed :
      (l l' : Lane Timestamp Metadata E)
      → drain_rest l ≡ ok l'
      → Passed l l' × (items l'.stream ≡ [])
  unfolding drain_rest
  drain_rest-Passed l l' h = drain_rest_on-Passed (items l.stream) l l' refl h

  pub passthrough_if_match-Passed :
      (digest : Bytes) (l l' : Lane Timestamp Metadata E) (hit : Bool)
      → passthrough_if_match digest l ≡ ok (hit, l')
      → Passed l l'
  unfolding passthrough_if_match pass
  passthrough_if_match-Passed digest l l' hit h =
      let (p, h1, peeked) = >>=-ok _ (peek_digest l.stream) h in
      let (same, before) = peek_digest-items l.stream p peeked in
      let start : Lane Timestamp Metadata E = record l { stream = p.1 } in
      let begun = Passes-none l start same refl refl before in
      elim (Bool-cases (is_match p.0 digest)) [
        | inr differs ↦
            let e : start ≡ l' = ap (λ q. q.1) (ok-eq (rw differs at h1)) in rw (← e) begun
        | inl matches ↦
            let (n, h2, read) = >>=-ok _ (next p.1) (rw matches at h1) in
            elim (next-cases p.1 n read) [
              | inl (ended, empty, empty', previous) ↦
                  let h3 = rw ended at h2 in
                  let e : record l { stream = n.1 } ≡ l' = ap (λ q. q.1) (ok-eq h3) in
                  rw (← e)
                    (Passes-none l _ (same ∙ empty ∙ sym empty') refl refl (before ∙ previous))
              | inr (s, ys, found, there, taken) ↦
                  let h3 = rw found at h2 in
                  let (m, h4, passed) = >>=-ok _ (pass l s n.1) h3 in
                  let e : m ≡ l' = ap (λ q. q.1) (ok-eq h4) in
                  let one = pass-one start m s ys n there taken passed in
                  rw (← e) (Passes-trans l start m begun one.0)
            ]
      ]

  -- Both lanes of a merge passed snapshots through.
  unfoldable pub PassedBoth : Merging Timestamp Metadata E → Merging Timestamp Metadata E → Type 0
  PassedBoth m m' = Passed m.first m'.first × Passed m.second m'.second

  pub PassedBoth-trans :
      (m n o : Merging Timestamp Metadata E) → PassedBoth m n → PassedBoth n o → PassedBoth m o
  unfolding PassedBoth
  PassedBoth-trans m n o (f, s) (f', s') =
      (Passes-trans m.first n.first o.first f f', Passes-trans m.second n.second o.second s s')

  pub Passed-refl : (l : Lane Timestamp Metadata E) → Passed l l
  Passed-refl l = Passes-none l l refl refl refl refl

  -- A new snapshot is sent between the ones that are passed through.
  write_new-Passed :
      (l : Lane Timestamp Metadata E) (sink : Sink Timestamp Metadata E) (digest content : Bytes)
      → write_new l.sink digest content ≡ ok sink
      → Passed l (record l { sink = sink })
  unfolding write_new existing_of
  write_new-Passed l sink digest content h =
      let sent = send-ok l.sink sink (new digest content) h in
      let same : existing_of sink.sent ≡ existing_of l.sink.sent = rw sent (
        existing_of-append l.sink.sent (new digest content ∷ [])
        ∙ append-nil (existing_of l.sink.sent)) in
      Passes-none l _ refl same refl refl

module _ {Timestamp Metadata E File : Type 0} (sha1 : Sha1) (read_to_string : File → Option Bytes)
    (classify : Bytes → NewSnapshotTarget) where
  pub write_target-PassedBoth :
      (target : NewSnapshotTarget) (digest content : Bytes) (m m' : Merging Timestamp Metadata E)
      → write_target sha1 read_to_string classify target digest content m ≡ ok m'
      → PassedBoth m m'
  unfolding write_target PassedBoth
  write_target-PassedBoth to_first digest content m m' h =
      let (sink, made, wrote) = >>=-ok _ (write_new m.first.sink digest content) h in
      rw (← ok-eq made) (write_new-Passed m.first sink digest content wrote, Passed-refl m.second)
  write_target-PassedBoth to_second digest content m m' h =
      let (sink, made, wrote) = >>=-ok _ (write_new m.second.sink digest content) h in
      rw (← ok-eq made) (Passed-refl m.first, write_new-Passed m.second sink digest content wrote)
  write_target-PassedBoth to_none digest content m m' h =
      rw (← ok-eq h) (Passed-refl m.first, Passed-refl m.second)
