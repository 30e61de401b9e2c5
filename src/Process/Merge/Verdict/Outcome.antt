-- ===== src/Process/Merge/Verdict/Outcome.antt =====
-- crates/json-processing/src/process/merge.rs: `merge` ends, and what it yields says what the inputs
-- are, up to the first fault.
use archivindex_wbm.Common.{
  ℕ, zero, suc, ◌+◌, ◌<◌, true, List, [], ◌∷◌, ◌≡◌, refl, Option, none, some, Result, ok, err,
  Bytes, length, arith, ◌⊎◌, inl, inr,
}
use archivindex_wbm.Process.Merge.Iterator.{Entry, MergeIter, next, drain, merge}
use archivindex_wbm.Process.Merge.Verdict.Call.{IsBehind, merging, ends, fails, yields}
use archivindex_wbm.Process.Merge.Verdict.Lines.{
  IsVerdict, Takes-length, IsVerdict-step, IsFault-nonempty,
}
use archivindex_wbm.Process.Merge.Verdict.Next.{call}
use archivindex_wbm.Process.Merge.Verdict.{first_of, second_of, IsFaultOf}
use archivindex_wbm.Process.Merge.{
  SourceLine, only_first, only_second, matched, collided, Error, first_side, second_side, Line,
  FileState, open_file,
}

-- The entries, and the error that ends them.
abbrev pub yielded : {E : Type 0} → List Entry → Option (Error E) → List (Result Entry (Error E))
yielded [] none = []
yielded [] (some e) = err e ∷ []
yielded (entry ∷ entries) end = ok entry ∷ yielded entries end

-- A line of the output is a line of an input.
carries : (line : SourceLine) → 0 < length (first_of line) + length (second_of line)
carries (only_first v) = omega arith
carries (only_second v) = omega arith
carries (matched v) = omega arith
carries (collided c) = omega arith

module _ (parse_digest : Bytes → Option Bytes) {E : Type 0} where
  fused :
      (fuel : ℕ) (m : MergeIter E) → m.done ≡ true → 0 < fuel → drain parse_digest fuel m ≡ some []
  unfolding drain next
  fused zero m is_done h = absurd (omega arith)
  fused (suc fuel) m is_done h = rw (next, is_done)

  faulty :
      (f g : FileState E) (e : Error E)
      → IsFaultOf parse_digest f e ⊎ IsFaultOf parse_digest g e
      → 0 < length f.iterator + length g.iterator
  faulty f g e (inl h) = omega (arith, IsFault-nonempty parse_digest f.side _ _ _ e h)
  faulty f g e (inr h) = omega (arith, IsFault-nonempty parse_digest g.side _ _ _ e h)

  -- With a round for each item, and one more, the merge of the files ends.
  pub drain-IsVerdict :
      (fuel : ℕ) (f g : FileState E) (last : Option Bytes)
      → IsBehind parse_digest last f
      → IsBehind parse_digest last g
      → length f.iterator + length g.iterator < fuel
      → (entries : List Entry) × (end : Option (Error E)) × (drain parse_digest fuel
            (merging parse_digest f g)
          ≡ some (yielded entries end))
        × IsVerdict parse_digest f g last entries end
  unfolding drain
  drain-IsVerdict zero f g last behind_f behind_g enough = absurd (omega arith)
  drain-IsVerdict (suc fuel) f g last behind_f behind_g enough =
      elim (call parse_digest f g last behind_f behind_g) [
        | ends is is' is_end ↦ (
          [],
          none,
          rw (drain, is_end),
          record {
            union = tt;
            rest = [];
            more = [];
            from_first = is;
            from_second = is';
            ended = (refl, refl);
          },
        )
        | fails e m is_fail is_done fault ↦ (
          [],
          some e,
          rw (drain, is_fail, fused fuel m is_done (omega (arith, faulty f g e fault))),
          record {
            union = tt;
            rest = f.iterator;
            more = g.iterator;
            from_first = refl;
            from_second = refl;
            ended =
                (let no_line : f.line_number + 0 ≡ f.line_number = omega arith in
                  let no_other : g.line_number + 0 ≡ g.line_number = omega arith in
                  rw (no_line, no_other) fault);
          },
        )
        | yields digest line f' g' is_yield after entry t u behind_f' behind_g' ↦
            let fewer : length f'.iterator + length g'.iterator < fuel = omega (
              arith,
              carries line,
              Takes-length parse_digest f f' digest (first_of line) t,
              Takes-length parse_digest g g' digest (second_of line) u,
            ) in
            let (entries, end, is_rest, v) =
              drain-IsVerdict fuel f' g' (some digest) behind_f' behind_g' fewer in
            (
              (digest, line) ∷ entries,
              end,
              rw (drain, is_yield, is_rest),
              IsVerdict-step parse_digest f g f' g' last digest line entries end after entry t u v,
            )
      ]

  -- Whatever the inputs are, the merge ends without a panic. Its entries carry the lines of both
  -- inputs in order, with strictly ascending digests, and either they are all of both inputs, or one
  -- error ends them that tells of the first item behind them in one of the inputs: a failure to read,
  -- a line without a digest, or a digest that is not after the one before it.
  pub merge-IsVerdict :
      (xs ys : List (Line E))
      → (entries : List Entry) × (end : Option (Error E)) × (merge parse_digest xs ys
          ≡ some (yielded entries end))
        × IsVerdict parse_digest
            (open_file first_side xs)
            (open_file second_side ys)
            none
            entries
            end
  unfolding merge
  merge-IsVerdict xs ys =
      drain-IsVerdict (length xs + length ys + 1) (open_file first_side xs)
        (open_file second_side ys) none (λ d is_next after. after) (λ d is_next after. after)
        (omega arith)
