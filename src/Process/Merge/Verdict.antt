-- ===== src/Process/Merge/Verdict.antt =====
-- crates/json-processing/src/process/merge.rs: what entries say of the inputs, what an error says of
-- them, and what one step of the merge does.
pub mod Step
pub mod Call
pub mod Next
pub mod Lines
pub mod Outcome
use archivindex_wbm.Common.{
  ℕ, ◌+◌, Bool, true, false, List, [], ◌∷◌, ◌++◌, ◌≡◌, Option, none, some, ok, err, Bytes, length,
  bytes_eq,
}
use archivindex_wbm.Process.Merge.Iterator.{Entry}
use archivindex_wbm.Process.Merge.{
  SourceLine, only_first, only_second, matched, collided, Side, Error, io, read_io, order,
  invalid_line, Line, FileState, extract_digest,
}
use archivindex_wbm.Snapshot.Validation.{is_after}

-- The lines of the first input that a line of the output carries, and those of the second.
abbrev pub first_of : SourceLine → List Bytes
first_of (only_first v) = v ∷ []
first_of (only_second v) = []
first_of (matched v) = v ∷ []
first_of (collided c) = c.first_value ∷ []

abbrev pub second_of : SourceLine → List Bytes
second_of (only_first v) = []
second_of (only_second v) = v ∷ []
second_of (matched v) = v ∷ []
second_of (collided c) = c.second_value ∷ []

abbrev pub firsts : List Entry → List Bytes
firsts [] = []
firsts ((digest, line) ∷ entries) = first_of line ++ firsts entries

abbrev pub seconds : List Entry → List Bytes
seconds [] = []
seconds ((digest, line) ∷ entries) = second_of line ++ seconds entries

module _ (parse_digest : Bytes → Option Bytes) where
  -- An entry's lines have its digest, and a collision differs and is numbered, behind `m` lines of
  -- the first input and `n` of the second.
  abbrev pub IsEntry : ℕ → ℕ → Entry → Type 0
  IsEntry m n (digest, only_first v) = extract_digest parse_digest v ≡ some digest
  IsEntry m n (digest, only_second v) = extract_digest parse_digest v ≡ some digest
  IsEntry m n (digest, matched v) = extract_digest parse_digest v ≡ some digest
  IsEntry m n (digest, collided c) =
      (extract_digest parse_digest c.first_value ≡ some digest)
      × (extract_digest parse_digest c.second_value ≡ some digest)
      × (bytes_eq c.first_value c.second_value ≡ false)
      × (c.first_line_number ≡ m + 1)
      × (c.second_line_number ≡ n + 1)
      × (c.digest ≡ digest)

  -- Entries in strictly ascending order of their digests.
  abbrev pub IsUnion : ℕ → ℕ → Option Bytes → List Entry → Type 0
  IsUnion m n last [] = Unit
  IsUnion m n last ((digest, line) ∷ entries) =
      (is_after last digest ≡ true)
      × IsEntry m n (digest, line)
      × IsUnion (m + length (first_of line)) (n + length (second_of line)) (some digest) entries

  -- The digest of the last line, or else `last`.
  abbrev pub last_of : Option Bytes → List Bytes → Option Bytes
  last_of last [] = last
  last_of last (line ∷ lines) = last_of (extract_digest parse_digest line) lines

  module _ {E : Type 0} where
    -- The error is of the first item of `rest`, which stands in the input of `side` behind `n` lines,
    -- the last one with digest `last`.
    abbrev pub IsFault : Side → ℕ → Option Bytes → List (Line E) → Error E → Type 0
    IsFault side n last rest (io e) = ⊥
    IsFault side n last rest (read_io at number digest e) =
        (at ≡ side)
        × (number ≡ n + 1)
        × (digest ≡ last)
        × ((more : List (Line E)) × (rest ≡ err e ∷ more))
    IsFault side n last rest (order at number digest) =
        (at ≡ side)
        × (number ≡ n + 1)
        × ((line : Bytes) × (more : List (Line E)) × (rest ≡ ok line ∷ more)
            × (extract_digest parse_digest line ≡ some digest)
            × (is_after last digest ≡ false))
    IsFault side n last rest (invalid_line at number line) =
        (at ≡ side)
        × (number ≡ n + 1)
        × (extract_digest parse_digest line ≡ none)
        × ((more : List (Line E)) × (rest ≡ ok line ∷ more))

    abbrev pub IsFaultOf : FileState E → Error E → Type 0
    IsFaultOf f e = IsFault f.side f.line_number f.last_digest f.iterator e
