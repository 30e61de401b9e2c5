-- ===== src/Merge/Loop/Passthrough.antt =====
-- crates/json-processing/src/stream/merge.rs: what the merge does with the snapshots of a stream.
pub mod Entries
pub mod Merged
use archivindex_wbm.Common.Results
use archivindex_wbm.Common.Results.{◌>>=◌, >>=-ok}
use archivindex_wbm.Common.{
  ℕ, ◌+◌, ◌-◌, Bool, true, false, not, ◌||◌, List, [], ◌∷◌, ◌++◌, ◌≡◌, refl, sym, ap, ◌∙◌, Option,
  none, some, Result, ok, err, Result-cases, Bytes, bytes_eq, length, map, append_assoc, append-nil,
  arith, Bool-cases, Option-cases, inl, inr, ◌⊎◌, length-append, map-append, ◌==◌, if◌then◌else◌,
}
use archivindex_wbm.Merge.Loop.{
  Lane, items, pass, drain_before_on, drain_before, is_match, passthrough_if_match, drain_rest_on,
  drain_rest, Merging, write_target, merge_content, merge_entry, merge_entries, run_merge_loop,
}
use archivindex_wbm.Merge.{
  Source, MergeError, stream_error, order, NewSnapshotTarget, to_first, to_second, to_none, Item,
  PeekedStream, WriteCommand, existing, new, Sink, take_next, peek_digest, peek_item, next_item,
  next, send, write_existing, write_new,
}
use archivindex_wbm.Snapshot.Recovery.Encoding.{Sha1}
use archivindex_wbm.Snapshot.Validation.{is_after, digest_lt}
use archivindex_wbm.Snapshot.{Snapshot}

pub ok-eq : {A F : Type 0} {a b : A} → ◌≡◌ {A = Result A F} (ok a) (ok b) → a ≡ b
ok-eq h = cc

module _ {Timestamp Metadata : Type 0} where
  -- Each digest is behind the one before it: the first behind `p`, and the last one is `q`.
  pub IsAscending : Option Bytes → List (Snapshot Timestamp Metadata) → Option Bytes → Type 0
  IsAscending p [] q = p ≡ q
  IsAscending p (s ∷ ss) q = (is_after p s.digest ≡ true) × IsAscending (some s.digest) ss q

  IsAscending-append :
      (p : Option Bytes) (a b : List (Snapshot Timestamp Metadata)) (q r : Option Bytes)
      → IsAscending p a q
      → IsAscending q b r
      → IsAscending p (a ++ b) r
  unfolding IsAscending
  IsAscending-append p [] b q r e h = rw e h
  IsAscending-append p (s ∷ a) b q r (after, g) h =
      (after, IsAscending-append (some s.digest) a b q r g h)

module _ {Timestamp Metadata E : Type 0} where
  -- The snapshots among the commands.
  pub existing_of : List (WriteCommand Timestamp Metadata E) → List (Snapshot Timestamp Metadata)
  existing_of [] = []
  existing_of (existing s ∷ cs) = s ∷ existing_of cs
  existing_of (new digest content ∷ cs) = existing_of cs

  pub existing_of-append :
      (a b : List (WriteCommand Timestamp Metadata E))
      → existing_of (a ++ b) ≡ existing_of a ++ existing_of b
  unfolding existing_of
  existing_of-append [] b = refl
  existing_of-append (existing s ∷ a) b = ap (◌∷◌ s) (existing_of-append a b)
  existing_of-append (new d c ∷ a) b = existing_of-append a b

  -- From `a` to `b` the snapshots are passed through.
  pub record Passes (ss : List (Snapshot Timestamp Metadata)) (a b : Lane Timestamp Metadata E)
      : Type 0 where
    pub yielded : items a.stream ≡ map ok ss ++ items b.stream
    pub written : existing_of b.sink.sent ≡ existing_of a.sink.sent ++ ss
    pub counted : b.count ≡ a.count + length ss
    pub ascending : IsAscending a.stream.previous ss b.stream.previous

  abbrev pub Passed : Lane Timestamp Metadata E → Lane Timestamp Metadata E → Type 0
  Passed a b = (ss : List (Snapshot Timestamp Metadata)) × Passes ss a b

  pub Passes-trans : (a b c : Lane Timestamp Metadata E) → Passed a b → Passed b c → Passed a c
  Passes-trans a b c (ss, f) (ts, g) = (
    ss ++ ts,
    record {
      yielded =
          rw (f.yielded, g.yielded, map-append)
            (sym (append_assoc (map ok ss) (map ok ts) (items c.stream)));
      written = rw (g.written, f.written) (append_assoc (existing_of a.sink.sent) ss ts);
      counted = omega (arith, f.counted, g.counted, length-append ss ts);
      ascending =
          IsAscending-append a.stream.previous ss ts b.stream.previous c.stream.previous f.ascending
            g.ascending;
    },
  )

  -- A lane whose stream yields the same items, with the same snapshots sent.
  pub Passes-none :
      (a b : Lane Timestamp Metadata E)
      → items a.stream ≡ items b.stream
      → existing_of b.sink.sent ≡ existing_of a.sink.sent
      → b.count ≡ a.count
      → a.stream.previous ≡ b.stream.previous
      → Passed a b
  unfolding IsAscending
  Passes-none a b same sent count previous = (
    [],
    record {
      yielded = same;
      written = sent ∙ sym (append-nil (existing_of a.sink.sent));
      counted = omega arith;
      ascending = previous;
    },
  )

  pub send-ok :
      (sink sink' : Sink Timestamp Metadata E) (command : WriteCommand Timestamp Metadata E)
      → send sink command ≡ ok sink'
      → sink'.sent ≡ sink.sent ++ command ∷ []
  unfolding send
  send-ok sink sink' command h = elim (Bool-cases (sink.room == 0)) [
    | inl full ↦ let refused = rw full at h in cc
    | inr free ↦ let sent = rw free at h in cc
  ]

  -- One snapshot read by `next` and passed.
  pub pass-one :
      (l l' : Lane Timestamp Metadata E) (s : Snapshot Timestamp Metadata)
      (xs : List (Item Timestamp Metadata E))
      (n : Option (Snapshot Timestamp Metadata) × PeekedStream Timestamp Metadata E)
      → items l.stream ≡ ok s ∷ xs
      → next_item l.stream (some (ok s), xs) ≡ ok n
      → pass l s n.1 ≡ ok l'
      → Passed l l' × (items l'.stream ≡ xs)
  unfolding pass write_existing send next_item items existing_of IsAscending
  pass-one l l' s xs n here read passed = elim (Bool-cases (is_after l.stream.previous s.digest)) [
    | inr early ↦ let refused = rw early at read in cc
    | inl after ↦
        let t = l.stream in
        let behind = record t {
          inner = xs;
          peeked = none;
          previous = some s.digest;
          line_number = t.line_number + 1;
        } in
        let (sink, made, wrote) = >>=-ok _ (write_existing l.sink s) passed in
        let sent = send-ok l.sink sink (existing s) wrote in
        let read' : ok (some s, behind) ≡ ok n = rw after at read in
        let n_is : (some s, behind) ≡ n = cc in
        let turned : behind ≡ n.1 = ap (λ p. p.1) n_is in
        let lane : PeekedStream Timestamp Metadata E → Lane Timestamp Metadata E =
          λ u. record { stream = u; sink = sink; count = l.count + 1 } in
        let made' : lane n.1 ≡ l' = ok-eq made in
        let l_is : lane behind ≡ l' = ap lane turned ∙ made' in
        rw (← l_is) (
          (
            s ∷ [],
            record {
              yielded = here;
              written = rw sent (existing_of-append l.sink.sent (existing s ∷ []));
              counted = omega arith;
              ascending = (after, refl);
            },
          ),
          refl,
        )
  ]

  pub drain_before_on-Passed :
      (target : Bytes) (xs : List (Item Timestamp Metadata E)) (l l' : Lane Timestamp Metadata E)
      → items l.stream ≡ xs
      → drain_before_on target xs l ≡ ok l'
      → Passed l l'
  unfolding drain_before_on items
  drain_before_on-Passed target [] l l' here h =
      rw (← ok-eq h) (Passes-none l _ here refl refl refl)
  drain_before_on-Passed target (err e ∷ xs) l l' here h = cc
  drain_before_on-Passed target (ok s ∷ xs) l l' here h =
      elim (Bool-cases (digest_lt s.digest target)) [
        | inr stop ↦ rw (← ok-eq (rw stop at h)) (Passes-none l _ here refl refl refl)
        | inl before ↦
            let (n, h1, read) = >>=-ok _ (next_item l.stream (some (ok s), xs)) (rw before at h) in
            let (m, h2, passed) = >>=-ok _ (pass l s n.1) h1 in
            let (one, rest) = pass-one l m s xs n here read passed in
            Passes-trans l m l' one (drain_before_on-Passed target xs m l' rest h2)
      ]

  pub next_item-err :
      (t : PeekedStream Timestamp Metadata E) (e : E) (xs : List (Item Timestamp Metadata E))
      → next_item t (some (err e), xs) ≡ err (stream_error e)
  unfolding next_item
  next_item-err t e xs = refl

  pub next_item-some :
      (t : PeekedStream Timestamp Metadata E) (s : Snapshot Timestamp Metadata)
      (xs : List (Item Timestamp Metadata E))
      (n : Option (Snapshot Timestamp Metadata) × PeekedStream Timestamp Metadata E)
      → next_item t (some (ok s), xs) ≡ ok n
      → n.0 ≡ some s
  unfolding next_item
  next_item-some t s xs n h = elim (Bool-cases (is_after t.previous s.digest)) [
    | inl after ↦ sym (ap (λ p. p.0) (ok-eq (rw after at h)))
    | inr early ↦ let refused = rw early at h in cc
  ]

  pub ended_next :
      (t : PeekedStream Timestamp Metadata E)
      (n : Option (Snapshot Timestamp Metadata) × PeekedStream Timestamp Metadata E)
      → next_item t (none, []) ≡ ok n
      → (n.0 ≡ none) × (items n.1 ≡ []) × (t.previous ≡ n.1.previous)
  unfolding next_item items
  ended_next t n h = rw (← ok-eq h) (refl, refl, refl)

  pub drain_rest_on-Passed :
      (xs : List (Item Timestamp Metadata E)) (l l' : Lane Timestamp Metadata E)
      → items l.stream ≡ xs
      → drain_rest_on xs l ≡ ok l'
      → Passed l l' × (items l'.stream ≡ [])
  unfolding drain_rest_on items
  drain_rest_on-Passed [] l l' here h = rw (← ok-eq h) (Passes-none l _ here refl refl refl, refl)
  drain_rest_on-Passed (err e ∷ xs) l l' here h =
      let failed = next_item-err l.stream e xs in let refused = rw failed at h in cc
  drain_rest_on-Passed (ok s ∷ xs) l l' here h =
      let (n, h1, read) = >>=-ok _ (next_item l.stream (some (ok s), xs)) h in
      let found = next_item-some l.stream s xs n read in
      let h1' = rw found at h1 in
      let (m, h2, passed) = >>=-ok _ (pass l s n.1) h1' in
      let (one, rest) = pass-one l m s xs n here read passed in
      let (more, done) = drain_rest_on-Passed xs m l' rest h2 in
      (Passes-trans l m l' one more, done)
