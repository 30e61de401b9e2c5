-- ===== src/Surt/Decode/Query.antt =====
-- crates/wbm/src/surt.rs: `decode_query_value` leaves no byte that has a meaning in the key.
use archivindex_wbm.Common.{
  ℕ, ◌&&◌, [], ◌∷◌, ◌++◌, ◌≢◌, inl, inr, Bytes, All, All-append, ◌==◌, Bool-cases, arith,
}
use archivindex_wbm.Surt.Decode.{query_byte, decode_query_from, decode_query_value}

-- No separator of parameters, no start of a fragment, no blank and no line break.
pub record IsSafe (c : ℕ) : Type 0 where
  pub not_ampersand : c ≢ b'&'
  pub not_hash : c ≢ b'#'
  pub not_blank : c ≢ b' '
  pub not_newline : c ≢ b'\n'

query_byte-IsSafe : (c : ℕ) → All IsSafe (query_byte c)
unfolding query_byte
query_byte-IsSafe c = ground arith

decode_query_from-IsSafe : (s out : Bytes) → All IsSafe out → All IsSafe (decode_query_from s out)
unfolding decode_query_from
decode_query_from-IsSafe [] out h = h
decode_query_from-IsSafe (c ∷ []) out h = All-append IsSafe out _ h (query_byte-IsSafe c)
decode_query_from-IsSafe (c ∷ a ∷ []) out h =
    All-append IsSafe _ _ (All-append IsSafe out _ h (query_byte-IsSafe c)) (query_byte-IsSafe a)
decode_query_from-IsSafe (c ∷ a ∷ b ∷ s) out h =
    elim (Bool-cases (c == b'%' && (a == b'5' && b == b'e'))) [
      | inl e ↦
          rw e
            (decode_query_from-IsSafe s _ (All-append IsSafe out (b'^' ∷ []) h ((omega arith), tt)))
      | inr e ↦ rw e (
          decode_query_from-IsSafe (a ∷ b ∷ s) (out ++ query_byte c)
            (All-append IsSafe out _ h (query_byte-IsSafe c)))
    ]

-- A re-encoded value holds no `&`, no `#`, no blank and no line feed, whatever the value holds, so it
-- ends neither its parameter nor the key.
pub decode_query_value-IsSafe : (value : Bytes) → All IsSafe (decode_query_value value)
unfolding decode_query_value
decode_query_value-IsSafe value = decode_query_from-IsSafe value [] tt
