-- ===== src/Process/Resolver/Scan/Hits.antt =====
-- crates/json-processing/src/process/resolver.rs: which digests the matches of a file resolve.
use archivindex_wbm.Common.{
  Bool, false, ◌||◌, ◌&&◌, ◌≡◌, refl, ap, ◌∙◌, List, [], ◌∷◌, ◌++◌, none, some, Bytes, arith,
  Bool-cases, Option-cases, inl, inr,
}
use archivindex_wbm.Digest.Orders.{byte_order, cdx_order}
use archivindex_wbm.Digest.{CdxDigest, valid}
use archivindex_wbm.Process.Resolver.Candidates.{add_valid, add_invalid}
use archivindex_wbm.Process.Resolver.Scan.{
  Resolver, CdxItem, Done, valid_match, invalid_match, file_matches, apply_valid, apply_actual,
  apply_invalid, apply_file,
}
use archivindex_wbm.Process.Resolver.{ResolvedMetadata, ResolvedMetadataSet, no_candidates}
use archivindex_wbm.Process.Sorted.Maps.{contains_key-upsert, get-missing}
use archivindex_wbm.Process.Sorted.{Order, same, contains, upsert, get, contains_key}

abbrev pub any {ℓ} : {A : Type ℓ} → (A → Bool) → List A → Bool
any p [] = false
any p (x ∷ xs) = p x || any p xs

any-append {ℓ} :
    {A : Type ℓ} (p : A → Bool) (xs ys : List A) → any p (xs ++ ys) ≡ (any p xs || any p ys)
any-append p [] ys = refl
any-append p (x ∷ xs) ys = ground (arith, any-append p xs ys)

pub ||_assoc : (a b c : Bool) → ((a || b) || c) ≡ (a || (b || c))
||_assoc a b c = ground arith

||_rotate : (a b c : Bool) → ((a || b) || c) ≡ (b || (a || c))
||_rotate a b c = ground arith

||_false : (a : Bool) → (a || false) ≡ a
||_false a = ground arith

||_middle : (a b c d : Bool) → ((a || b) || (c || d)) ≡ ((a || c) || (b || d))
||_middle a b c d = ground arith

module _ (times : Order) where
  abbrev pub has : Bytes → Done times → Bool
  has digest done = contains_key byte_order digest done

  -- The actual digests that the log knows for a declared one.
  abbrev pub leads_to : List (CdxDigest × List Bytes) → Bytes → CdxDigest → Bool
  leads_to known digest expected = elim (get cdx_order expected known) [
    | none ↦ false
    | some actuals ↦ contains byte_order digest actuals
  ]

  -- An item is a match of a digest: it carries the digest, which is a target, or a declared digest that
  -- the log leads from to the digest.
  abbrev pub carries : List Bytes → Bytes → CdxDigest → Bool
  carries todo digest own = elim (valid own) [
    | none ↦ false
    | some own_digest ↦ contains byte_order own_digest todo && same byte_order digest own_digest
  ]

  abbrev pub is_hit : Resolver times → Bytes → CdxItem times → Bool
  is_hit r digest item =
      carries r.todo_digests digest item.digest
      || leads_to r.known_invalid_digests digest item.digest

  apply_valid-has :
      (ms : List (Bytes × ResolvedMetadata times)) (done : Done times) (digest : Bytes)
      → has digest (apply_valid times done ms)
        ≡ (has digest done || any (λ m. same byte_order digest m.0) ms)
  unfolding apply_valid
  apply_valid-has [] done digest = ground arith
  apply_valid-has ((own, metadata) ∷ ms) done digest =
      let change = λ (s : ResolvedMetadataSet times). add_valid times s metadata in
      let step = contains_key-upsert byte_order (no_candidates times) change own digest done in
      apply_valid-has ms (upsert byte_order (no_candidates times) change own done) digest
      ∙ ap (λ b. b || any (λ (m : Bytes × ResolvedMetadata times). same byte_order digest m.0) ms)
          step
      ∙ ||_rotate (same byte_order digest own) (has digest done) _

  apply_actual-has :
      (expected : CdxDigest) (metadata : ResolvedMetadata times) (actuals : List Bytes)
      (done : Done times) (digest : Bytes)
      → has digest (apply_actual times done expected metadata actuals)
        ≡ (has digest done || contains byte_order digest actuals)
  unfolding apply_actual contains
  apply_actual-has expected metadata [] done digest = ground arith
  apply_actual-has expected metadata (actual ∷ actuals) done digest =
      let change = λ (s : ResolvedMetadataSet times). add_invalid times s expected metadata in
      let step = contains_key-upsert byte_order (no_candidates times) change actual digest done in
      apply_actual-has expected metadata actuals
        (upsert byte_order (no_candidates times) change actual done) digest
      ∙ ap (λ b. b || contains byte_order digest actuals) step
      ∙ ||_rotate (same byte_order digest actual) (has digest done) _

  apply_invalid-has :
      (known : List (CdxDigest × List Bytes)) (ms : List (CdxDigest × ResolvedMetadata times))
      (done : Done times) (digest : Bytes)
      → has digest (apply_invalid times known done ms)
        ≡ (has digest done || any (λ m. leads_to known digest m.0) ms)
  unfolding apply_invalid
  apply_invalid-has known [] done digest = ground arith
  apply_invalid-has known ((expected, metadata) ∷ ms) done digest =
      elim (Option-cases (get cdx_order expected known)) [
        | inl unknown ↦
            rw (apply_invalid, unknown, leads_to) (apply_invalid-has known ms done digest)
        | inr (actuals, is) ↦
            rw (apply_invalid, is, leads_to)
              (apply_invalid-has known ms (apply_actual times done expected metadata actuals) digest
                ∙ ap
                    (λ b.
                      b
                      || any (λ (m : CdxDigest × ResolvedMetadata times). leads_to known digest m.0)
                          ms)
                    (apply_actual-has expected metadata actuals done digest)
                ∙ ||_assoc (has digest done) (contains byte_order digest actuals) _)
      ]

  valid_match-any :
      (r : Resolver times) (digest : Bytes) (item : CdxItem times)
      → any (λ m. same byte_order digest m.0) (valid_match times r item)
        ≡ carries r.todo_digests digest item.digest
  unfolding valid_match
  valid_match-any r digest item = elim (Option-cases (valid item.digest)) [
    | inl no_own ↦ rw (valid_match, no_own, carries)
    | inr (own, is) ↦ elim (Bool-cases (contains byte_order own r.todo_digests)) [
      | inl target ↦ rw (valid_match, is, target, carries) (||_false (same byte_order digest own))
      | inr other ↦ rw (valid_match, is, other, carries)
    ]
  ]

  invalid_match-any :
      (r : Resolver times) (digest : Bytes) (item : CdxItem times)
      → any (λ m. leads_to r.known_invalid_digests digest m.0) (invalid_match times r item)
        ≡ leads_to r.known_invalid_digests digest item.digest
  unfolding invalid_match
  invalid_match-any r digest item =
      elim (Bool-cases (contains_key cdx_order item.digest r.known_invalid_digests)) [
        | inl known ↦ rw (invalid_match, known) (||_false _)
        | inr unknown ↦ rw (
          invalid_match,
          unknown,
          leads_to,
          get-missing cdx_order item.digest r.known_invalid_digests unknown,
        )
      ]

  file_matches-any :
      (r : Resolver times) (digest : Bytes) (items : List (CdxItem times))
      → (any (λ m. same byte_order digest m.0) (file_matches times r items).valid
          || any
              (λ m. leads_to r.known_invalid_digests digest m.0)
              (file_matches times r items).invalid)
        ≡ any (is_hit r digest) items
  unfolding file_matches
  file_matches-any r digest [] = refl
  file_matches-any r digest (item ∷ items) =
      let rest = file_matches times r items in
      rw
        (
          any-append (λ (m : Bytes × ResolvedMetadata times). same byte_order digest m.0)
              (valid_match times r item) rest.valid,
          any-append
              (λ (m : CdxDigest × ResolvedMetadata times).
                leads_to r.known_invalid_digests digest m.0)
              (invalid_match times r item) rest.invalid,
          valid_match-any r digest item,
          invalid_match-any r digest item,
          ← file_matches-any r digest items,
        )
        (||_middle (carries r.todo_digests digest item.digest) _ _ _)

  -- A file resolves the digests that its items are matches of.
  pub apply_file-has :
      (r : Resolver times) (items : List (CdxItem times)) (digest : Bytes)
      → has digest (apply_file times r items).done
        ≡ (has digest r.done || any (is_hit r digest) items)
  unfolding apply_file
  apply_file-has r items digest =
      let matches = file_matches times r items in
      apply_invalid-has r.known_invalid_digests matches.invalid
        (apply_valid times r.done matches.valid) digest
      ∙ ap
          (λ b.
            b
            || any
                (λ (m : CdxDigest × ResolvedMetadata times).
                  leads_to r.known_invalid_digests digest m.0)
                matches.invalid)
          (apply_valid-has matches.valid r.done digest)
      ∙ ||_assoc (has digest r.done) _ _
      ∙ ap (λ b. has digest r.done || b) (file_matches-any r digest items)
