-- ===== src/Snapshot/Inference/First.antt =====
-- crates/json/src/context.rs: the inferred context is the first candidate that verifies the samples.
use archivindex_wbm.Common.Results.{>>=-ok}
use archivindex_wbm.Common.{
  ℕ, true, false, List, [], ◌∷◌, ◌≡◌, ◌≢◌, refl, sym, ◌∙◌, inl, inr, ◌⊎◌, some, Result, ok, err,
  Result-cases, length, All, ◌==◌, Bool-cases, arith,
}
use archivindex_wbm.Snapshot.Inference.{
  new_unchecked, new, candidates, is_ok, collect, all_verify, try_candidates, infer,
}
use archivindex_wbm.Snapshot.Recovery.Encoding.Hashing.{IsStreaming, IsWhitespace-cases}
use archivindex_wbm.Snapshot.Recovery.Encoding.{Sha1, verify}
use archivindex_wbm.Snapshot.Recovery.Whitespace.{IsWhitespace}
use archivindex_wbm.Snapshot.Validation.Order.{verify-start}
use archivindex_wbm.Snapshot.Validation.{Location}
use archivindex_wbm.Snapshot.{Snapshot, Context, Fields}

-- A context that is made with a check has a default of JSON whitespace, the given one.
pub new-IsWhitespace :
    {Metadata : Type 0} (default : List ℕ) (c : Context Metadata)
    → new default ≡ ok c
    → IsWhitespace c.default_closing_whitespace × (c.default_closing_whitespace ≡ default)
unfolding new new_unchecked
new-IsWhitespace {Metadata} default c h = elim (IsWhitespace-cases default) [
  | inr (bad, found, failed) ↦ let refused = rw (new, found) at h in cc
  | inl (all, clean, bytes) ↦
      let made : ok (new_unchecked {Metadata = Metadata} default) ≡ ok c = rw (new, clean) at h in
      let made' : new_unchecked {Metadata = Metadata} default ≡ c = cc in rw (← made') (all, refl)
]

module _ (fields : Fields) (sha1 : Sha1) (streams : IsStreaming fields sha1) where
  open fields use {Timestamp, Metadata}
  open sha1 use {Hasher, start}

  -- Every sample verifies with a fresh hasher.
  unfoldable pub IsVerified : Context Metadata → List (Snapshot Timestamp Metadata) → Type 0
  IsVerified c samples = All (λ s. (verify fields sha1 c s start).0 ≡ ok tt) samples

  -- `c` is made of the first of the candidates that verifies every sample.
  pub IsFirst : List (List ℕ) → List (Snapshot Timestamp Metadata) → Context Metadata → Type 0
  IsFirst [] samples c = ⊥
  IsFirst (w ∷ ws) samples c =
      ((c ≡ new_unchecked w) × IsVerified (new_unchecked w) samples)
      ⊎ ((¬ (IsVerified (new_unchecked w) samples)) × IsFirst ws samples c)

  all_verify-cases :
      (c : Context Metadata) (samples : List (Snapshot Timestamp Metadata))
      → ((all_verify fields sha1 c samples start ≡ (true, start)) × IsVerified c samples)
        ⊎ ((all_verify fields sha1 c samples start ≡ (false, start)) × (¬ (IsVerified c samples)))
  unfolding all_verify IsVerified is_ok
  all_verify-cases c [] = inl (refl, tt)
  all_verify-cases c (s ∷ ss) = elim (Result-cases ((verify fields sha1 c s start).0)) [
    | inr (e, failed) ↦ inr (
      rw (failed, verify-start fields sha1 streams c s),
      λ (here, there). let clash : ok tt ≡ err e = sym here ∙ failed in cc,
    )
    | inl (_, verified) ↦ elim (all_verify-cases c ss) [
      | inl (all, good) ↦
          inl (rw (verified, verify-start fields sha1 streams c s, all), (verified, good))
      | inr (bad, refuted) ↦
          inr (
            rw (verified, verify-start fields sha1 streams c s, bad),
            λ (here, there). refuted there,
          )
    ]
  ]

  try_candidates-IsFirst :
      (ws : List (List ℕ)) (samples : List (Snapshot Timestamp Metadata)) (c : Context Metadata)
      → try_candidates fields sha1 ws samples start ≡ some c
      → IsFirst ws samples c
  unfolding try_candidates IsFirst
  try_candidates-IsFirst [] samples c h = cc
  try_candidates-IsFirst (w ∷ ws) samples c h = elim (all_verify-cases (new_unchecked w) samples) [
    | inl (all, good) ↦
        let made : some (new_unchecked w) ≡ some c = rw all at h in
        let c_is : c ≡ new_unchecked w = cc in inl (c_is, good)
    | inr (bad, refuted) ↦ inr (refuted, try_candidates-IsFirst ws samples c (rw bad at h))
  ]

  -- For a hasher that takes updates in turn as one: a context is inferred only from as many samples as
  -- asked for, and not from none; and it is the first candidate under which they all verify.
  pub infer-IsFirst :
      {E : Type 0} (lines : List (Result Location E)) (n : ℕ) (c : Context Metadata)
      → infer fields sha1 lines n ≡ ok (some c)
      → (n ≢ 0)
        × ((samples : List (Snapshot Timestamp Metadata)) × (collect fields sha1 n lines []
              ≡ ok samples)
            × (length samples ≡ n)
            × IsFirst candidates samples c)
  unfolding infer
  infer-IsFirst lines n c h = elim (Bool-cases (n == 0)) [
    | inl none_asked ↦ let refused = rw none_asked at h in cc
    | inr some_asked ↦
        let (samples, h1, read) = >>=-ok _ (collect fields sha1 n lines []) (rw some_asked at h) in
        elim (Bool-cases (length samples == n)) [
          | inr few ↦ let refused = rw few at h1 in cc
          | inl enough ↦
              let found : try_candidates fields sha1 candidates samples start ≡ some c =
                let h2 = rw enough at h1 in cc in
              (
                ground arith,
                (samples, read, ground arith, try_candidates-IsFirst candidates samples c found),
              )
        ]
  ]
