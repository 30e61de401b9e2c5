-- ===== src/Process/Merge/Output.antt =====
-- crates/json-processing/src/process/merge.rs: `merge_into`, which writes a merge and sums it up. The
-- writer is a parameter; what it holds behind its finish is part of the result.
pub mod Values
pub mod Written
pub mod Samples
mod Tests
use archivindex_wbm.Common.Options.{◌>>=◌}
use archivindex_wbm.Common.{
  List, [], ◌∷◌, ◌++◌, Option, none, some, Result, ok, err, Bytes, Bool, true, false, if◌then◌else◌,
}
use archivindex_wbm.Process.Merge.Iterator.{Entry, merge}
use archivindex_wbm.Process.Merge.{
  SourceLine, Source, file, both_files, Collision, Summary, no_summary, value, source, collision,
  add, Error, io, Line,
}
use archivindex_wbm.Process.{prefer_loop_error}

-- `Finish`: a line written with `writeln!`, which may fail, and the end of the output.
pub record Finish (E : Type 0) : Type 1 where
  pub Writer : Type 0
  pub write_line : Writer → Bytes → Option E × Writer
  pub finish : Writer → Option E × Writer

-- `source == Source::Both`.
unfoldable pub is_both : Source → Bool
is_both (file side) = false
is_both both_files = true

-- `summary.collisions.push(collision)`, if there is one.
unfoldable pub push_collision : List Collision → Option Collision → List Collision
push_collision collisions none = collisions
push_collision collisions (some c) = collisions ++ c ∷ []

-- What an entry that is written adds to the summary.
unfoldable pub sum_up : Summary → Entry → Summary
sum_up s (digest, line) = record {
  counts = add s.counts (source line);
  both = if is_both (source line) then s.both ++ digest ∷ [] else s.both;
  collisions = push_collision s.collisions (collision line);
}

-- `error.into()`, on an error that there may be.
unfoldable pub into_io : {E : Type 0} → Option E → Option (Error E)
into_io none = none
into_io (some e) = some (io e)

module _ {E : Type 0} (output : Finish E) where
  open output use {Writer, write_line, finish}

  -- The loop of `merge_into`, with the error that it breaks with.
  unfoldable pub merge_loop :
      Summary → Writer → List (Result Entry (Error E)) → Summary × Option (Error E) × Writer
  merge_loop summary writer [] = (summary, none, writer)
  merge_loop summary writer (err e ∷ results) = (summary, some e, writer)
  merge_loop summary writer (ok entry ∷ results) =
      let (failure, writer') = write_line writer (value entry.1) in
      elim failure [
        | none ↦ merge_loop (sum_up summary entry) writer' results
        | some e ↦ (summary, some (io e), writer')
      ]

  -- `writer.finish()`, and the outcome.
  unfoldable pub finish_merge :
      Summary × Option (Error E) × Writer → Result Summary (Error E) × Writer
  finish_merge (summary, merge_error, writer) =
      let (finish_error, writer') = finish writer in
      (prefer_loop_error summary merge_error (into_io finish_error), writer')

  unfoldable pub merge_into :
      (Bytes → Option Bytes)
      → List (Line E)
      → List (Line E)
      → Writer
      → Option (Result Summary (Error E) × Writer)
  merge_into parse_digest first second writer = merge parse_digest first second >>= λ results.
      some (finish_merge (merge_loop no_summary writer results))
