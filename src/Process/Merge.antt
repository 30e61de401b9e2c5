-- ===== src/Process/Merge.antt =====
-- crates/json-processing/src/process/merge.rs: the merge of two sorted streams of lines into one. An
-- iterator is the list of what it still yields, and a peek looks at its head. A panic is `none`.
pub mod Iterator
pub mod Verdict
pub mod Union
pub mod Output
use archivindex_wbm.Common.Options
use archivindex_wbm.Common.Options.{◌>>=◌}
use archivindex_wbm.Common.{
  ℕ, ◌+◌, Bool, true, false, not, ◌&&◌, List, [], ◌∷◌, ◌++◌, Option, none, some, Result, ok, err,
  Bytes, codes, length, take, drop, strip_prefix, bytes_eq, leb, ltb, if◌then◌else◌,
}
use archivindex_wbm.Snapshot.Validation.{is_after}

pub data Side : Type 0 where
  first_side : Side
  second_side : Side

pub data Source : Type 0 where
  file : Side → Source
  both_files : Source

pub record Collision : Type 0 where
  pub first_value : Bytes
  pub second_value : Bytes
  pub first_line_number : ℕ
  pub second_line_number : ℕ
  pub digest : Bytes

pub data SourceLine : Type 0 where
  only_first : Bytes → SourceLine
  only_second : Bytes → SourceLine
  matched : Bytes → SourceLine
  collided : Collision → SourceLine

-- `SourceLine::value`.
unfoldable pub value : SourceLine → Bytes
value (only_first v) = v
value (only_second v) = v
value (matched v) = v
value (collided c) =
    if ltb (length c.first_value) (length c.second_value) then c.first_value else c.second_value

-- `SourceLine::source`.
unfoldable pub source : SourceLine → Source
source (only_first v) = file first_side
source (only_second v) = file second_side
source (matched v) = both_files
source (collided c) = both_files

-- `SourceLine::collision`.
unfoldable pub collision : SourceLine → Option Collision
collision (only_first v) = none
collision (only_second v) = none
collision (matched v) = none
collision (collided c) = some c

pub record SourceCounts : Type 0 where
  pub first : ℕ
  pub second : ℕ
  pub both : ℕ

-- `SourceCounts::add`.
unfoldable pub add : SourceCounts → Source → SourceCounts
add c (file first_side) = record c { first = c.first + 1 }
add c (file second_side) = record c { second = c.second + 1 }
add c both_files = record c { both = c.both + 1 }

pub record Summary : Type 0 where
  pub counts : SourceCounts
  pub both : List Bytes
  pub collisions : List Collision

-- `Summary::default()`.
unfoldable pub no_summary : Summary
no_summary = record {
  counts = record { first = 0; second = 0; both = 0 };
  both = [];
  collisions = [];
}

pub data Error (E : Type 0) : Type 0 where
  io : E → Error E
  read_io : Side → ℕ → Option Bytes → E → Error E
  order : Side → ℕ → Bytes → Error E
  invalid_line : Side → ℕ → Bytes → Error E

-- `DIGEST_PREFIX` and `DIGEST_LEN`.
abbrev pub digest_prefix : Bytes
digest_prefix = codes "{\"digest\":\""

abbrev pub digest_len : ℕ
digest_len = 32

-- Whether an index with the text behind it is on the boundary of a character.
abbrev pub is_boundary : Bytes → Bool
is_boundary [] = true
is_boundary (c ∷ s) = not (leb 0x80 c && ltb c 0xC0)

-- `str::get(..n)`.
abbrev pub get_to : ℕ → Bytes → Option Bytes
get_to n s = if leb n (length s) && is_boundary (drop n s) then some (take n s) else none

-- What the two inputs yield: a line, or the failure to read one.
abbrev pub Line : Type 0 → Type 0
Line E = Result Bytes E

pub data Peek : Type 0 where
  done : Peek
  ready : Bytes → Peek
  bad : Peek

pub record FileState (E : Type 0) : Type 0 where
  pub side : Side
  pub iterator : List (Line E)
  pub line_number : ℕ
  pub last_digest : Option Bytes

module _ {E : Type 0} where
  -- `FileState::new`.
  abbrev pub open_file : Side → List (Line E) → FileState E
  open_file side iterator = record {
    side = side;
    iterator = iterator;
    line_number = 0;
    last_digest = none;
  }

  -- `FileState::take_ok`, on the items of the iterator. In the order of digests, `digest <= last` is
  -- that `digest` is not after `last`.
  pub take_ok_from :
      FileState E → Bytes → List (Line E) → Option (Result Bytes (Error E) × FileState E)
  take_ok_from f digest [] = none
  take_ok_from f digest (err e ∷ rest) = none
  take_ok_from f digest (ok line ∷ rest) =
      if is_after f.last_digest digest
      then some (
        ok line,
        record f { iterator = rest; line_number = f.line_number + 1; last_digest = some digest },
      )
      else some (
        err (order f.side (f.line_number + 1) digest),
        record f { iterator = rest; line_number = f.line_number + 1 },
      )

  pub take_ok : FileState E → Bytes → Option (Result Bytes (Error E) × FileState E)
  take_ok f digest = take_ok_from f digest f.iterator

  -- `FileState::take_error`, on the items of the iterator.
  pub take_error_from : FileState E → List (Line E) → Option (Error E × FileState E)
  take_error_from f [] = none
  take_error_from f (ok line ∷ rest) = some (
    invalid_line f.side (f.line_number + 1) line,
    record f { iterator = rest; line_number = f.line_number + 1 },
  )
  take_error_from f (err e ∷ rest) = some (
    read_io f.side (f.line_number + 1) f.last_digest e,
    record f { iterator = rest; line_number = f.line_number + 1 },
  )

  pub take_error : FileState E → Option (Error E × FileState E)
  take_error f = take_error_from f f.iterator

module _ (parse_digest : Bytes → Option Bytes) where
  -- `extract_digest`.
  unfoldable pub extract_digest : Bytes → Option Bytes
  extract_digest line = do
    rest ← strip_prefix digest_prefix line
    text ← get_to digest_len rest
    parse_digest text

  module _ {E : Type 0} where
    -- `FileState::peek`, on the items of the iterator.
    pub peek_from : List (Line E) → Peek
    peek_from [] = done
    peek_from (err e ∷ rest) = bad
    peek_from (ok line ∷ rest) = elim (extract_digest line) [ none ↦ bad | some d ↦ ready d ]

    pub peek : FileState E → Peek
    peek f = peek_from f.iterator
