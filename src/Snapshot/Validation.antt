-- ===== src/Snapshot/Validation.antt =====
-- crates/json/src/context.rs and validation.rs: the check of the lines of a reader. The package
-- `archivindex_lines` reads the lines: what its calls return in turn is a list.
pub mod Order
mod Tests
use archivindex_wbm.Common.{
  ℕ, ◌+◌, Bool, true, false, ◌&&◌, List, [], ◌∷◌, ◌++◌, Option, none, some, Result, ok, err, Bytes,
  ltb, ◌==◌, if◌then◌else◌,
}
use archivindex_wbm.Snapshot.Exact.{parse}
use archivindex_wbm.Snapshot.Recovery.Encoding.{
  mismatch, unsupported_format, invalid_whitespace, Outcome, Sha1, verify,
}
use archivindex_wbm.Snapshot.{Format, Snapshot, Context, Fields}

pub record SnapshotLineValidation : Type 0 where
  pub valid_count : ℕ
  pub invalid_lines : List ℕ
  -- The claimed digest and the computed one.
  pub unexpected_digests : List (Bytes × Bytes)
  pub unsupported_formats : List Format
  pub out_of_order : List Bytes

-- `SnapshotLineValidation::default()`.
pub no_lines : SnapshotLineValidation
no_lines = record {
  valid_count = 0;
  invalid_lines = [];
  unexpected_digests = [];
  unsupported_formats = [];
  out_of_order = [];
}

unfoldable pub is_nil {ℓ} : {A : Type ℓ} → List A → Bool
is_nil [] = true
is_nil (x ∷ xs) = false

-- `SnapshotLineValidation::is_successful`.
pub is_successful : SnapshotLineValidation → Bool
is_successful v =
    is_nil v.invalid_lines
    && is_nil v.unexpected_digests
    && is_nil v.unsupported_formats
    && is_nil v.out_of_order

-- The order of digests.
unfoldable pub digest_lt : Bytes → Bytes → Bool
digest_lt a [] = false
digest_lt [] (y ∷ b) = true
digest_lt (x ∷ a) (y ∷ b) =
    let rest = digest_lt a b in if ltb x y then true else if x == y then rest else false

-- `last_digest.is_none_or(|last| digest > last)`.
unfoldable pub is_after : Option Bytes → Bytes → Bool
is_after none digest = true
is_after (some last) digest = digest_lt last digest

-- A line, by its number.
abbrev pub Location : Type 0
Location = ℕ × Bytes

module _ (fields : Fields) (sha1 : Sha1) where
  open fields use {Timestamp, Metadata}
  open sha1 use {Hasher, start}

  -- The variables of the loop.
  pub record Progress : Type 0 where
    pub validation : SnapshotLineValidation
    pub hasher : Hasher
    pub last_digest : Option Bytes

  -- The arms on what `verify` gives.
  pub record_outcome : Snapshot Timestamp Metadata → ℕ → Outcome × Hasher → Progress → Progress
  record_outcome s line (ok _, hasher) p =
      let v = p.validation in
      if is_after p.last_digest s.digest
      then record {
        validation = record v { valid_count = v.valid_count + 1 };
        hasher = hasher;
        last_digest = some s.digest;
      }
      else record {
        validation = record v { out_of_order = v.out_of_order ++ s.digest ∷ [] };
        hasher = hasher;
        last_digest = p.last_digest;
      }
  record_outcome s line (err (mismatch actual), hasher) p =
      let v = p.validation in
      record {
        validation = record v {
          unexpected_digests = v.unexpected_digests ++ (s.digest, actual) ∷ [];
        };
        hasher = hasher;
        last_digest = p.last_digest;
      }
  record_outcome s line (err (unsupported_format name), hasher) p =
      let v = p.validation in
      record {
        validation = record v { unsupported_formats = v.unsupported_formats ++ name ∷ [] };
        hasher = hasher;
        last_digest = p.last_digest;
      }
  record_outcome s line (err (invalid_whitespace c), hasher) p =
      let v = p.validation in
      record {
        validation = record v { invalid_lines = v.invalid_lines ++ line ∷ [] };
        hasher = hasher;
        last_digest = p.last_digest;
      }

  -- The body of the loop.
  pub validate_line : Context Metadata → Location → Progress → Progress
  validate_line c (line, content) p = elim (parse fields content) [
    | ok s ↦ record_outcome s line (verify fields sha1 c s p.hasher) p
    | err e ↦
        let v = p.validation in
        record p { validation = record v { invalid_lines = v.invalid_lines ++ line ∷ [] } }
  ]

  pub validate_from :
      {E : Type 0}
      → Context Metadata
      → List (Result Location E)
      → Progress
      → Result SnapshotLineValidation E
  validate_from c [] p = ok p.validation
  validate_from c (err e ∷ ls) p = err e
  validate_from c (ok l ∷ ls) p = validate_from c ls (validate_line c l p)

  -- `Context::validate_lines`.
  pub validate_lines :
      {E : Type 0} → Context Metadata → List (Result Location E) → Result SnapshotLineValidation E
  validate_lines c ls =
      validate_from c ls (record { validation = no_lines; hasher = start; last_digest = none })
