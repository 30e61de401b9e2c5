-- ===== src/Process/Merge/Output/Values.antt =====
-- crates/json-processing/src/process/merge.rs: the values of merged entries are in order.
use archivindex_wbm.Common.{
  ℕ, ◌+◌, List, [], ◌∷◌, ◌≡◌, Option, some, ok, Bytes, length, map, ltb, Bool-cases, inl, inr,
}
use archivindex_wbm.Process.Merge.Iterator.{Entry}
use archivindex_wbm.Process.Merge.Union.{IsSorted}
use archivindex_wbm.Process.Merge.Verdict.{first_of, second_of, IsEntry, IsUnion}
use archivindex_wbm.Process.Merge.{
  SourceLine, only_first, only_second, matched, collided, value, extract_digest,
}

-- The values of entries.
abbrev pub values : List Entry → List Bytes
values = map (λ entry. value entry.1)

value-digest :
    (parse_digest : Bytes → Option Bytes) (m n : ℕ) (digest : Bytes) (line : SourceLine)
    → IsEntry parse_digest m n (digest, line)
    → extract_digest parse_digest (value line) ≡ some digest
unfolding value
value-digest parse_digest m n digest (only_first v) h = h
value-digest parse_digest m n digest (only_second v) h = h
value-digest parse_digest m n digest (matched v) h = h
value-digest parse_digest m n digest (collided c) (first, second, _, _, _, _) =
    elim (Bool-cases (ltb (length c.first_value) (length c.second_value))) [
      | inl shorter ↦ rw (value, shorter) first
      | inr longer ↦ rw (value, longer) second
    ]

pub values-IsSorted :
    (E : Type 0) (parse_digest : Bytes → Option Bytes) (entries : List Entry) (m n : ℕ)
    (last : Option Bytes)
    → IsUnion parse_digest m n last entries
    → IsSorted parse_digest {E = E} last (map ok (values entries))
values-IsSorted E parse_digest [] m n last h = tt
values-IsSorted E parse_digest ((digest, line) ∷ entries) m n last (after, entry, h) = (
  digest,
  value-digest parse_digest m n digest line entry,
  after,
  values-IsSorted E parse_digest entries (m + length (first_of line)) (n + length (second_of line))
      (some digest) h,
)
