-- ===== src/Snapshot/Validation/Order.antt =====
-- crates/json/src/context.rs: `validate_lines` accounts for every line, and is successful just when the
-- lines are snapshots that verify, in strictly ascending order.
use archivindex_wbm.Common.{
  ℕ, ◌+◌, true, false, List, [], ◌∷◌, ◌++◌, ◌≡◌, ◌↔◌, refl, sym, ap, ◌∙◌, Option, none, some,
  Result, ok, err, Result-cases, Bytes, length, length-append, map, arith, Bool-cases, inl, inr,
}
use archivindex_wbm.Snapshot.Exact.{Error, parse}
use archivindex_wbm.Snapshot.Recovery.Encoding.{
  ValidationError, mismatch, unsupported_format, invalid_whitespace, Outcome, Sha1, verify, encode,
}
use archivindex_wbm.Snapshot.Recovery.Encoding.Hashing.{IsStreaming, check_digest, verify-encode}
use archivindex_wbm.Snapshot.Validation.{
  SnapshotLineValidation, no_lines, is_nil, is_successful, is_after, Location, Progress,
  record_outcome, validate_line, validate_from, validate_lines,
}
use archivindex_wbm.Snapshot.{Snapshot, Context, Fields}

-- The lines that a validation accounts for.
pub total : SnapshotLineValidation → ℕ
total v =
    v.valid_count
    + length v.invalid_lines
    + length v.unexpected_digests
    + length v.unsupported_formats
    + length v.out_of_order

pub is_nil-push {ℓ} : {A : Type ℓ} (xs : List A) (x : A) → is_nil (xs ++ x ∷ []) ≡ false
unfolding is_nil
is_nil-push [] x = refl
is_nil-push (y ∷ xs) x = refl

length-push {ℓ} : {A : Type ℓ} (xs : List A) (x : A) → length (xs ++ x ∷ []) ≡ length xs + 1
length-push xs x = length-append xs (x ∷ [])

module _ (fields : Fields) (sha1 : Sha1) (streams : IsStreaming fields sha1) where
  open fields use {Timestamp, Metadata}
  open sha1 use {start, update, finalize}

  -- Lines that are snapshots that verify under `c`, each with a digest behind the one before it.
  pub IsInOrder : Context Metadata → Option Bytes → List Location → Type 0
  IsInOrder c last [] = Unit
  IsInOrder c last (l ∷ ls) =
      (s : Snapshot Timestamp Metadata) × (parse fields l.1 ≡ ok s)
      × ((verify fields sha1 c s start).0 ≡ ok tt)
      × (is_after last s.digest ≡ true)
      × IsInOrder c (some s.digest) ls

  check_digest-start :
      (s : Snapshot Timestamp Metadata) (r : Result Bytes ValidationError)
      → (check_digest fields sha1 s start r).1 ≡ start
  unfolding check_digest
  check_digest-start s (ok bytes) = refl
  check_digest-start s (err e) = refl

  -- A fresh hasher is fresh behind `verify`.
  pub verify-start :
      (c : Context Metadata) (s : Snapshot Timestamp Metadata)
      → (verify fields sha1 c s start).1 ≡ start
  verify-start c s =
      rw (verify-encode fields sha1 streams c s start)
        (check_digest-start s (encode fields sha1 c s))

  -- What a line does: it is the next one in order, or a fault.
  record IsStep (c : Context Metadata) (l : Location) (p q : Progress fields sha1) : Type 0 where
    fresh : q.hasher ≡ start
    counted : total q.validation ≡ total p.validation + 1
    accepts :
        is_successful q.validation ≡ true
        → (is_successful p.validation ≡ true)
          × ((s : Snapshot Timestamp Metadata) × (parse fields l.1 ≡ ok s)
              × ((verify fields sha1 c s start).0 ≡ ok tt)
              × (is_after p.last_digest s.digest ≡ true)
              × (q.last_digest ≡ some s.digest))
    advances :
        (s : Snapshot Timestamp Metadata)
        → is_successful p.validation ≡ true
        → parse fields l.1 ≡ ok s
        → (verify fields sha1 c s start).0 ≡ ok tt
        → is_after p.last_digest s.digest ≡ true
        → (is_successful q.validation ≡ true) × (q.last_digest ≡ some s.digest)

  fault :
      (c : Context Metadata) (l : Location) (p q : Progress fields sha1)
      → q.hasher ≡ start
      → total q.validation ≡ total p.validation + 1
      → is_successful q.validation ≡ false
      → ((s : Snapshot Timestamp Metadata)
          → parse fields l.1 ≡ ok s
          → (verify fields sha1 c s start).0 ≡ ok tt
          → is_after p.last_digest s.digest ≡ true
          → true ≡ false)
      → IsStep c l p q
  fault c l p q fresh counted failed refute = record {
    fresh = fresh;
    counted = counted;
    accepts = λ good. let absurd : true ≡ false = sym good ∙ failed in cc;
    advances = λ s good read verified after. let absurd = refute s read verified after in cc;
  }

  abbrev parsed : Snapshot Timestamp Metadata → Result (Snapshot Timestamp Metadata) Error
  parsed s = ok s

  one_snapshot : (s s' : Snapshot Timestamp Metadata) → parsed s ≡ parsed s' → s ≡ s'
  one_snapshot s s' h = cc

  differing_after :
      (s s' : Snapshot Timestamp Metadata) (last : Option Bytes)
      → s ≡ s'
      → is_after last s'.digest ≡ true
      → is_after last s.digest ≡ false
      → true ≡ false
  differing_after s s' last e after early =
      let after' : is_after last s.digest ≡ true = rw e after in sym after' ∙ early

  not_verified :
      (c : Context Metadata) (s s' : Snapshot Timestamp Metadata) {e : ValidationError}
      → s ≡ s'
      → (verify fields sha1 c s start).0 ≡ err e
      → (verify fields sha1 c s' start).0 ≡ ok tt
      → true ≡ false
  not_verified c s s' {e} same failed verified =
      let verified' : (verify fields sha1 c s start).0 ≡ ok tt = rw same verified in
      let clash : ok tt ≡ err e = sym verified' ∙ failed in cc

  IsStep-verified :
      (c : Context Metadata) (line : ℕ) (content : Bytes) (s : Snapshot Timestamp Metadata)
      (p : Progress fields sha1)
      → parse fields content ≡ ok s
      → (o : Outcome) → (verify fields sha1 c s start).0 ≡ o
      → IsStep c (line, content) p (record_outcome fields sha1 s line (o, start) p)
  unfolding record_outcome total is_successful
  IsStep-verified c line content s p read (ok _) verified =
      elim (Bool-cases (is_after p.last_digest s.digest)) [
        | inl after ↦ rw after (record {
          fresh = refl;
          counted = omega arith;
          accepts = λ good. (good, (s, read, verified, after, refl));
          advances = λ s' good read' verified' after'.
              (good, ap (λ t. some t.digest) (one_snapshot s s' (sym read ∙ read')));
        })
        | inr early ↦ rw early (
            fault c (line, content) p _ refl
              (omega (arith, length-push p.validation.out_of_order s.digest))
              (ground (arith, is_nil-push p.validation.out_of_order s.digest))
              (λ s' read' verified' after'.
                differing_after s s' p.last_digest (one_snapshot s s' (sym read ∙ read')) after'
                  early))
      ]
  IsStep-verified c line content s p read (err (mismatch actual)) verified =
      fault c (line, content) p _ refl
        (omega (arith, length-push p.validation.unexpected_digests (s.digest, actual)))
        (ground (arith, is_nil-push p.validation.unexpected_digests (s.digest, actual)))
        (λ s' read' verified' after.
          not_verified c s s' (one_snapshot s s' (sym read ∙ read')) verified verified')
  IsStep-verified c line content s p read (err (unsupported_format name)) verified =
      fault c (line, content) p _ refl
        (omega (arith, length-push p.validation.unsupported_formats name))
        (ground (arith, is_nil-push p.validation.unsupported_formats name))
        (λ s' read' verified' after.
          not_verified c s s' (one_snapshot s s' (sym read ∙ read')) verified verified')
  IsStep-verified c line content s p read (err (invalid_whitespace bad)) verified =
      fault c (line, content) p _ refl (omega (arith, length-push p.validation.invalid_lines line))
        (ground (arith, is_nil-push p.validation.invalid_lines line))
        (λ s' read' verified' after.
          not_verified c s s' (one_snapshot s s' (sym read ∙ read')) verified verified')

  unread :
      (c : Context Metadata) (line : ℕ) (content : Bytes) (p : Progress fields sha1)
      → p.hasher ≡ start
      → (e : Error) → parse fields content ≡ err e
      → let v = p.validation in
        IsStep c
          (line, content)
          p
          (record p { validation = record v { invalid_lines = v.invalid_lines ++ line ∷ [] } })
  unfolding total is_successful
  unread c line content p fresh e failed =
      fault c (line, content) p _ fresh (omega (arith, length-push p.validation.invalid_lines line))
        (ground (arith, is_nil-push p.validation.invalid_lines line))
        (λ s read verified after. let clash : parsed s ≡ err e = sym read ∙ failed in cc)

  step :
      (c : Context Metadata) (l : Location) (p : Progress fields sha1)
      → p.hasher ≡ start
      → IsStep c l p (validate_line fields sha1 c l p)
  unfolding validate_line
  step c (line, content) p fresh = elim (Result-cases (parse fields content)) [
    | inl (s, read) ↦
        let reset : verify fields sha1 c s p.hasher ≡ ((verify fields sha1 c s start).0, start) =
          rw fresh (ap (λ h. ((verify fields sha1 c s start).0, h)) (verify-start c s)) in
        let known =
          IsStep-verified c line content s p read ((verify fields sha1 c s start).0) refl in
        rw (validate_line, read, reset) known
    | inr (e, failed) ↦ rw (validate_line, failed) (unread c line content p fresh e failed)
  ]

  -- What validating lines says of them: the counts account for every line, and nothing is found just
  -- when the lines are in order.
  record IsVerdict (c : Context Metadata) (ls : List Location) (p : Progress fields sha1)
      (v : SnapshotLineValidation) : Type 0 where
    counts : total v ≡ total p.validation + length ls
    sound :
        is_successful v ≡ true → (is_successful p.validation ≡ true) × IsInOrder c p.last_digest ls
    complete :
        is_successful p.validation ≡ true → IsInOrder c p.last_digest ls → is_successful v ≡ true

  validate_from-IsVerdict :
      {E : Type 0} (c : Context Metadata) (ls : List Location) (p : Progress fields sha1)
      → p.hasher ≡ start
      → (v : SnapshotLineValidation) × (validate_from fields sha1 {E = E} c (map ok ls) p ≡ ok v)
        × IsVerdict c ls p v
  unfolding validate_from IsInOrder
  validate_from-IsVerdict {E} c [] p fresh = (
    p.validation,
    refl,
    record { counts = omega arith; sound = λ good. (good, tt); complete = λ good _. good },
  )
  validate_from-IsVerdict {E} c (l ∷ ls) p fresh =
      let q = validate_line fields sha1 c l p in
      let stepped = step c l p fresh in
      let (v, is_v, verdict) = validate_from-IsVerdict {E = E} c ls q stepped.fresh in
      (
        v,
        is_v,
        record {
          counts = omega (arith, verdict.counts, stepped.counted);
          sound = λ good.
              let (good_q, rest) = verdict.sound good in
              let (good_p, (s, read, verified, after, last)) = stepped.accepts good_q in
              (good_p, (s, read, verified, after, rw last at rest));
          complete = λ good (s, read, verified, after, rest).
              let (good_q, last) = stepped.advances s good read verified after in
              verdict.complete good_q (rw last rest);
        },
      )

  -- For a hasher that takes updates in turn as one, and a reader that does not fail: the validation
  -- accounts for every line once, and is successful just when every line is a snapshot that verifies
  -- and has a digest behind the one before it.
  pub validate_lines-IsInOrder :
      {E : Type 0} (c : Context Metadata) (ls : List Location)
      → (v : SnapshotLineValidation) × (validate_lines fields sha1 {E = E} c (map ok ls) ≡ ok v)
        × (total v ≡ length ls)
        × (is_successful v ≡ true ↔ IsInOrder c none ls)
  unfolding validate_lines total is_successful no_lines is_nil
  validate_lines-IsInOrder {E} c ls =
      let (v, is_v, verdict) =
        validate_from-IsVerdict {E = E} c ls
          (record { validation = no_lines; hasher = start; last_digest = none }) refl in
      (
        v,
        is_v,
        omega (arith, verdict.counts),
        ((λ good. (verdict.sound good).1), (λ order. verdict.complete refl order)),
      )
