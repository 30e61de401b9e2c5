-- ===== src/Snapshot/Inference.antt =====
-- crates/json/src/context.rs: the construction of a context, and its inference from sampled lines. A call
-- of the reader of lines is an element of a list.
pub mod First
mod Tests
use archivindex_wbm.Common.Results.{◌>>=◌}
use archivindex_wbm.Common.{
  ℕ, Bool, true, false, not, ◌&&◌, List, [], ◌∷◌, ◌++◌, Option, none, some, Result, ok, err, Bytes,
  codes, length, ltb, ◌==◌, if◌then◌else◌,
}
use archivindex_wbm.Snapshot.Exact.{parse}
use archivindex_wbm.Snapshot.Recovery.Encoding.{Outcome, Sha1, invalid_closing_whitespace, verify}
use archivindex_wbm.Snapshot.Validation.{Location}
use archivindex_wbm.Snapshot.{Snapshot, Context, is_utf8, has_explicit_closing_whitespace, Fields}

pub data ConfigError : Type 0 where
  invalid_default : ℕ → ConfigError

-- `Context::new_unchecked`.
unfoldable pub new_unchecked : {Metadata : Type 0} → List ℕ → Context Metadata
new_unchecked default = record {
  default_closing_whitespace = default;
  formats = [];
  infer_url = λ content. none;
}

-- `Context::new`.
pub new : {Metadata : Type 0} → List ℕ → Result (Context Metadata) ConfigError
new default = elim (invalid_closing_whitespace default) [
  | some invalid ↦ err (invalid_default invalid)
  | none ↦ ok (new_unchecked default)
]

-- `Context::from_static`.
abbrev pub from_static : {Metadata : Type 0} → List ℕ → Result (Context Metadata) ConfigError
from_static default = new default

-- `CLOSING_WHITESPACE_CANDIDATES`.
abbrev pub candidates : List (List ℕ)
candidates = codes "\n" ∷ codes "\r\n" ∷ codes "\r\r\n" ∷ []

-- `Result::is_ok`.
pub is_ok : Outcome → Bool
is_ok (ok _) = true
is_ok (err e) = false

module _ (fields : Fields) (sha1 : Sha1) where
  open fields use {Timestamp, Metadata}
  open sha1 use {Hasher, start}

  -- A line is a sample if it is a UTF-8 snapshot without a closing whitespace of its own.
  pub add_sample : Bytes → List (Snapshot Timestamp Metadata) → List (Snapshot Timestamp Metadata)
  add_sample content samples = elim (parse fields content) [
    | err e ↦ samples
    | ok s ↦
        if is_utf8 s.format.name && not (has_explicit_closing_whitespace s)
        then samples ++ s ∷ []
        else samples
  ]

  -- The loop over the lines.
  pub collect :
      {E : Type 0}
      → ℕ
      → List (Result Location E)
      → List (Snapshot Timestamp Metadata)
      → Result (List (Snapshot Timestamp Metadata)) E
  collect n [] samples = ok samples
  collect n (err e ∷ ls) samples = if ltb (length samples) n then err e else ok samples
  collect n (ok l ∷ ls) samples =
      let rest = collect n ls (add_sample l.1 samples) in
      if ltb (length samples) n then rest else ok samples

  -- `samples.iter().all(..)`, with the hasher behind it.
  pub all_verify : Context Metadata → List (Snapshot Timestamp Metadata) → Hasher → Bool × Hasher
  all_verify c [] hasher = (true, hasher)
  all_verify c (s ∷ ss) hasher =
      let verified = verify fields sha1 c s hasher in
      let rest = all_verify c ss verified.1 in
      if is_ok verified.0 then rest else (false, verified.1)

  -- The loop over the candidates.
  pub try_candidates :
      List (List ℕ) → List (Snapshot Timestamp Metadata) → Hasher → Option (Context Metadata)
  try_candidates [] samples hasher = none
  try_candidates (w ∷ ws) samples hasher =
      let tried = all_verify (new_unchecked w) samples hasher in
      let rest = try_candidates ws samples tried.1 in
      if tried.0 then some (new_unchecked w) else rest

  -- `Context::infer`.
  pub infer : {E : Type 0} → List (Result Location E) → ℕ → Result (Option (Context Metadata)) E
  infer lines n =
      if n == 0
      then ok none
      else (collect n lines [] >>= λ samples.
          ok (if length samples == n then try_candidates candidates samples start else none))
