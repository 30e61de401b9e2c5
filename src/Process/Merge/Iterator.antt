-- ===== src/Process/Merge/Iterator.antt =====
-- crates/json-processing/src/process/merge.rs: `MergeIter`, and what it yields until its end.
use archivindex_wbm.Common.Options.{◌>>=◌}
use archivindex_wbm.Common.{
  ℕ, zero, suc, ◌+◌, Bool, true, false, List, [], ◌∷◌, Option, none, some, Result, ok, err, Bytes,
  length, bytes_eq, if◌then◌else◌,
}
use archivindex_wbm.Process.Merge.{
  only_first, only_second, matched, collided, SourceLine, Error, Line, Peek, ready, bad, done,
  FileState, open_file, first_side, second_side, take_ok, take_error, peek,
}
use archivindex_wbm.Snapshot.Validation.{digest_lt}

pub record MergeIter (E : Type 0) : Type 0 where
  pub first : FileState E
  pub second : FileState E
  pub done : Bool

-- `MergeIter::Item`.
abbrev pub Entry : Type 0
Entry = Bytes × SourceLine

module _ {E : Type 0} where
  -- `MergeIter::new`.
  abbrev pub open_merge : List (Line E) → List (Line E) → MergeIter E
  open_merge first second = record {
    first = open_file first_side first;
    second = open_file second_side second;
    done = false;
  }

  -- `Some(self.first.take_error())`, and of the second file.
  unfoldable pub fail_first : MergeIter E → Option (Option (Result Entry (Error E)) × MergeIter E)
  fail_first m = take_error m.first >>= λ (e, f). some (some (err e), record m { first = f })

  unfoldable pub fail_second : MergeIter E → Option (Option (Result Entry (Error E)) × MergeIter E)
  fail_second m = take_error m.second >>= λ (e, g). some (some (err e), record m { second = g })

  -- `Result::map`.
  abbrev pub map_ok : {A B : Type 0} → (A → B) → Result A (Error E) → Result B (Error E)
  map_ok f (ok a) = ok (f a)
  map_ok f (err e) = err e

  -- The arms that take a line of one file.
  unfoldable pub take_first :
      MergeIter E → Bytes → Option (Option (Result Entry (Error E)) × MergeIter E)
  take_first m digest = take_ok m.first digest >>= λ (r, f).
      some (some (map_ok (λ line. (digest, only_first line)) r), record m { first = f })

  unfoldable pub take_second :
      MergeIter E → Bytes → Option (Option (Result Entry (Error E)) × MergeIter E)
  take_second m digest = take_ok m.second digest >>= λ (r, g).
      some (some (map_ok (λ line. (digest, only_second line)) r), record m { second = g })

  -- The line or the lines of both files.
  unfoldable pub pair_lines : Bytes → FileState E → FileState E → Bytes → Bytes → Entry
  pair_lines digest f g first_line second_line =
      if bytes_eq first_line second_line then (digest, matched first_line) else (
        digest,
        collided (record {
          first_value = first_line;
          second_value = second_line;
          first_line_number = f.line_number;
          second_line_number = g.line_number;
          digest = digest;
        }),
      )

  -- The second file's part of the arm that takes a line of both: the first one is taken.
  unfoldable pub take_other :
      MergeIter E
      → Bytes
      → Bytes
      → Result Bytes (Error E)
      → FileState E
      → Option (Option (Result Entry (Error E)) × MergeIter E)
  take_other m digest second_digest (err e) f = some (some (err e), record m { first = f })
  take_other m digest second_digest (ok line) f = take_ok m.second second_digest >>= λ (r, g).
      some (some (map_ok (pair_lines digest f g line) r), record m { first = f; second = g })

  unfoldable pub take_both :
      MergeIter E → Bytes → Bytes → Option (Option (Result Entry (Error E)) × MergeIter E)
  take_both m digest second_digest =
      take_ok m.first digest >>= λ (r, f). take_other m digest second_digest r f

  -- The arms of `MergeIter::next_unfused`.
  unfoldable pub next_on :
      MergeIter E → Peek → Peek → Option (Option (Result Entry (Error E)) × MergeIter E)
  next_on m done done = some (none, m)
  next_on m bad _ = fail_first m
  next_on m done bad = fail_second m
  next_on m (ready a) bad = fail_second m
  next_on m (ready a) (ready b) =
      if digest_lt a b
      then take_first m a
      else if digest_lt b a
      then take_second m b
      else take_both m a b
  next_on m (ready a) done = take_first m a
  next_on m done (ready b) = take_second m b

  -- `matches!(item, Some(Err(_)))`.
  unfoldable pub is_failure : Option (Result Entry (Error E)) → Bool
  is_failure none = false
  is_failure (some (ok entry)) = false
  is_failure (some (err e)) = true

  -- `MergeIter::next`, behind `next_unfused`.
  unfoldable pub fuse :
      Option (Result Entry (Error E)) × MergeIter E → Option (Result Entry (Error E)) × MergeIter E
  fuse (item, m) = if is_failure item then (item, record m { done = true }) else (item, m)

module _ {E : Type 0} (parse_digest : Bytes → Option Bytes) where
  -- `MergeIter::next_unfused`.
  unfoldable pub next_unfused : MergeIter E → Option (Option (Result Entry (Error E)) × MergeIter E)
  next_unfused m = next_on m (peek parse_digest m.first) (peek parse_digest m.second)

  -- `MergeIter::next`.
  unfoldable pub next : MergeIter E → Option (Option (Result Entry (Error E)) × MergeIter E)
  next m = if m.done then some (none, m) else (next_unfused m >>= λ r. some (fuse r))

  -- What an iterator yields until its end.
  unfoldable pub drain : ℕ → MergeIter E → Option (List (Result Entry (Error E)))
  drain zero m = none
  drain (suc fuel) m = next m >>= λ (item, m'). elim item [
    | none ↦ some []
    | some r ↦ drain fuel m' >>= λ rs. some (r ∷ rs)
  ]

  -- `merge`: a call of `next` that does not end the iterator takes an item of an input.
  unfoldable pub merge : List (Line E) → List (Line E) → Option (List (Result Entry (Error E)))
  merge first second = drain (length first + length second + 1) (open_merge first second)
