-- ===== src/Process/Check/Verdict.antt =====
-- crates/json-processing/src/process/check.rs: a check is successful just when the file is well formed.
use archivindex_wbm.Common.{
  ℕ, Bool, true, false, not, ◌&&◌, ◌≡◌, ◌↔◌, refl, sym, ◌∙◌, List, [], ◌∷◌, Option, none, some,
  Result, ok, err, Result-cases, Bytes, map, arith, inl, inr,
}
use archivindex_wbm.Process.Check.Stages.{
  is_verified, check_digest-is_successful, check_order-is_successful, is_stamped,
  check_timestamp-is_successful, check_expected-is_successful, check_url-is_successful,
}
use archivindex_wbm.Process.Check.{
  Summary, no_checks, is_successful, check_digest, check_timestamp, check_expected, check_url,
  is_redundant_digest, is_redundant_url, Checking, check_snapshot, check_line, count_line,
  check_from, check_source,
}
use archivindex_wbm.Snapshot.Exact.{Error, parse}
use archivindex_wbm.Snapshot.Recovery.Encoding.Hashing.{IsStreaming}
use archivindex_wbm.Snapshot.Recovery.Encoding.{Sha1, ValidationError, verify}
use archivindex_wbm.Snapshot.Validation.Order.{is_nil-push, verify-start}
use archivindex_wbm.Snapshot.Validation.{Location, is_after, is_nil}
use archivindex_wbm.Snapshot.{Snapshot, Context, Fields}

&&_split : (a b : Bool) → (a && b) ≡ true → (a ≡ true) × (b ≡ true)
&&_split true b h = (refl, h)
&&_split false b h = cc

&&_fives :
    (v t e u o : Bool)
    → (v && t && e && u && o) ≡ true
    → (v ≡ true) × (t ≡ true) × (e ≡ true) × (u ≡ true) × (o ≡ true)
&&_fives true true true true true h = (refl, refl, refl, refl, refl)
&&_fives false t e u o h = ground arith
&&_fives true false e u o h = ground arith
&&_fives true true false u o h = ground arith
&&_fives true true true false o h = ground arith
&&_fives true true true true false h = ground arith

not-true : (a : Bool) → not a ≡ true → a ≡ false
not-true true h = cc
not-true false h = refl

is_verified-ok : (r : Result (Unit {0}) ValidationError) → is_verified r ≡ true → r ≡ ok tt
is_verified-ok (ok _) h = refl
is_verified-ok (err e) h = cc

&&_six :
    (s v t e u o : Bool) → (((((s && v) && t) && e) && u) && o) ≡ (s && (v && t && e && u && o))
&&_six s v t e u o = ground arith

module _ (fields : Fields) (sha1 : Sha1) (streams : IsStreaming fields sha1) where
  open fields use {Timestamp, Metadata}
  open sha1 use {start}

  -- What is checked of a snapshot behind a digest.
  abbrev passes : Context Metadata → Option Bytes → Snapshot Timestamp Metadata → Bool
  passes c last s =
      is_verified (verify fields sha1 c s start).0
      && is_stamped fields sha1 s.timestamp s.url
      && not (is_redundant_digest fields sha1 s.expected_digest s.digest)
      && not (is_redundant_url fields sha1 s.url (c.infer_url s.content))
      && is_after last s.digest

  -- Lines that are snapshots that verify under `c`, in strictly ascending order of their digests, none
  -- with a URL and no timestamp, nor with an expected digest that is its digest, nor with a URL that
  -- `c` infers.
  pub IsWellFormed : Context Metadata → Option Bytes → List Location → Type 0
  IsWellFormed c last [] = Unit
  IsWellFormed c last (l ∷ ls) =
      (s : Snapshot Timestamp Metadata) × (parse fields l.1 ≡ ok s)
      × ((verify fields sha1 c s start).0 ≡ ok tt)
      × (is_stamped fields sha1 s.timestamp s.url ≡ true)
      × (is_redundant_digest fields sha1 s.expected_digest s.digest ≡ false)
      × (is_redundant_url fields sha1 s.url (c.infer_url s.content) ≡ false)
      × (is_after last s.digest ≡ true)
      × IsWellFormed c (some s.digest) ls

  check_snapshot-passes :
      (c : Context Metadata) (line : ℕ) (s : Snapshot Timestamp Metadata) (p : Checking fields sha1)
      → is_successful (check_snapshot fields sha1 c line s (verify fields sha1 c s start) p).summary
        ≡ (is_successful p.summary && passes c p.last_digest s)
  unfolding check_snapshot
  check_snapshot-passes c line s p =
      let outcome = (verify fields sha1 c s start).0 in
      let verified = check_digest line s.digest outcome p.summary in
      let stamped = check_timestamp fields sha1 s.digest s.timestamp s.url verified in
      let expected = check_expected fields sha1 s.expected_digest s.digest stamped in
      rw
        (
          check_order-is_successful p.last_digest s.digest
              (check_url fields sha1 s.url (c.infer_url s.content) s.digest expected),
          check_url-is_successful fields sha1 s.url (c.infer_url s.content) s.digest expected,
          check_expected-is_successful fields sha1 s.expected_digest s.digest stamped,
          check_timestamp-is_successful fields sha1 s.digest s.timestamp s.url verified,
          check_digest-is_successful line s.digest outcome p.summary,
        )
        (&&_six (is_successful p.summary) _ _ _ _ _)

  -- What a line is, and what it does to the success of the check.
  data IsStep (c : Context Metadata) (l : Location) (p q : Checking fields sha1) : Type 0 where
    snapshot :
        (s : Snapshot Timestamp Metadata)
        → parse fields l.1 ≡ ok s
        → q.hasher ≡ start
        → is_successful q.summary ≡ (is_successful p.summary && passes c p.last_digest s)
        → q.last_digest ≡ some s.digest
        → IsStep c l p q
    unread :
        (e : Error)
        → parse fields l.1 ≡ err e
        → q.hasher ≡ start
        → is_successful q.summary ≡ false
        → IsStep c l p q

  step :
      (c : Context Metadata) (l : Location) (p : Checking fields sha1)
      → p.hasher ≡ start
      → IsStep c l p (check_line fields sha1 c l p)
  unfolding check_line check_snapshot is_successful
  step c (line, content) p fresh = elim (Result-cases (parse fields content)) [
    | inl (s, read) ↦
        rw (check_line, read, fresh)
          (snapshot s read (verify-start fields sha1 streams c s) (check_snapshot-passes c line s p)
            refl)
    | inr (e, failed) ↦
        rw (check_line, failed)
          (unread e failed fresh (ground (arith, is_nil-push p.summary.schema_errors line)))
  ]

  -- What the check of lines says of them.
  record IsVerdict (c : Context Metadata) (ls : List Location) (p : Checking fields sha1)
      (v : Summary) : Type 0 where
    sound :
        is_successful v ≡ true → (is_successful p.summary ≡ true) × IsWellFormed c p.last_digest ls
    complete :
        is_successful p.summary ≡ true → IsWellFormed c p.last_digest ls → is_successful v ≡ true

  abbrev okay : Snapshot Timestamp Metadata → Result (Snapshot Timestamp Metadata) Error
  okay s = ok s

  one_snapshot : (s t : Snapshot Timestamp Metadata) → okay s ≡ okay t → s ≡ t
  one_snapshot s t h = cc

  IsVerdict-step :
      (c : Context Metadata) (l : Location) (ls : List Location) (p q : Checking fields sha1)
      (v : Summary)
      → IsStep c l p q
      → IsVerdict c ls q v
      → IsVerdict c (l ∷ ls) p v
  unfolding IsWellFormed
  IsVerdict-step c l ls p q v (unread e failed _ bad) verdict = record {
    sound = λ good.
        let (good_q, _) = verdict.sound good in let clash : true ≡ false = sym good_q ∙ bad in cc;
    complete =
        λ good_p (s, read, _, _, _, _, _, _). let clash : okay s ≡ err e = sym read ∙ failed in cc;
  }
  IsVerdict-step c l ls p q v (snapshot s read _ success last) verdict = record {
    sound = λ good.
        let (good_q, rest) = verdict.sound good in
        let (good_p, passed) = &&_split (is_successful p.summary) _ (sym success ∙ good_q) in
        let (verified, stamped, expected, url, after) =
          &&_fives (is_verified (verify fields sha1 c s start).0)
            (is_stamped fields sha1 s.timestamp s.url)
            (not (is_redundant_digest fields sha1 s.expected_digest s.digest))
            (not (is_redundant_url fields sha1 s.url (c.infer_url s.content)))
            (is_after p.last_digest s.digest) passed in
        (
          good_p,
          (
            s,
            read,
            is_verified-ok _ verified,
            stamped,
            not-true _ expected,
            not-true _ url,
            after,
            rw last at rest,
          ),
        );
    complete = λ good_p (t, read', verified, stamped, expected, url, after, rest).
        let same : s ≡ t = one_snapshot s t (sym read ∙ read') in
        let passed : passes c p.last_digest t ≡ true =
          rw (verified, stamped, expected, url, after) in
        let rest' : IsWellFormed c q.last_digest ls = rw (last, same) rest in
        verdict.complete (rw (success, same, good_p, passed)) rest';
  }

  IsStep-fresh :
      (c : Context Metadata) (l : Location) (p q : Checking fields sha1)
      → IsStep c l p q
      → q.hasher ≡ start
  IsStep-fresh c l p q (snapshot s read fresh success last) = fresh
  IsStep-fresh c l p q (unread e failed fresh bad) = fresh

  check_from-IsVerdict :
      {E : Type 0} (c : Context Metadata) (ls : List Location) (p : Checking fields sha1)
      → p.hasher ≡ start
      → (v : Summary) × (check_from fields sha1 {E = E} c (map ok ls) p ≡ ok v) × IsVerdict c ls p v
  unfolding check_from IsWellFormed count_line is_successful
  check_from-IsVerdict {E} c [] p fresh =
      (p.summary, refl, record { sound = λ good. (good, tt); complete = λ good _. good })
  check_from-IsVerdict {E} c (l ∷ ls) p fresh =
      let counted = count_line fields sha1 p in
      let stepped = step c l counted fresh in
      let q = check_line fields sha1 c l counted in
      let (v, is_v, verdict) =
        check_from-IsVerdict {E = E} c ls q (IsStep-fresh c l counted q stepped) in
      let whole = IsVerdict-step c l ls counted q v stepped verdict in
      (v, is_v, record { sound = whole.sound; complete = whole.complete })

  -- For a hasher that takes updates in turn as one, and a reader that does not fail: the check ends, and
  -- is successful just when every line is a snapshot that verifies, the digests are strictly ascending,
  -- no URL stands without a timestamp, and no expected digest and no URL is redundant.
  pub check_source-IsWellFormed :
      {E : Type 0} (c : Context Metadata) (ls : List Location)
      → (v : Summary) × (check_source fields sha1 {E = E} c (map ok ls) ≡ ok v)
        × (is_successful v ≡ true ↔ IsWellFormed c none ls)
  unfolding check_source is_successful is_nil
  check_source-IsWellFormed {E} c ls =
      let (v, is_v, verdict) =
        check_from-IsVerdict {E = E} c ls
          (record { summary = no_checks; hasher = start; last_digest = none }) refl in
      (v, is_v, ((λ good. (verdict.sound good).1), (λ formed. verdict.complete refl formed)))
