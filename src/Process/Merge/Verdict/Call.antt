-- ===== src/Process/Merge/Verdict/Call.antt =====
-- crates/json-processing/src/process/merge.rs: one call of `MergeIter::next` on files that have not
-- failed.
use archivindex_wbm.Common.{
  true, false, List, [], ◌∷◌, ◌≡◌, refl, Option, none, some, ok, err, Bytes, bytes_eq,
  bytes_eq_sound, Bool-cases, ◌⊎◌, inl, inr,
}
use archivindex_wbm.Process.Merge.Iterator.{
  MergeIter, fail_first, fail_second, take_first, take_second, take_both, take_other, pair_lines,
  is_failure, fuse, next_unfused, next,
}
use archivindex_wbm.Process.Merge.Verdict.Step.{IsTaken, accepted, refused, take}
use archivindex_wbm.Process.Merge.Verdict.{first_of, second_of, IsEntry, IsFaultOf}
use archivindex_wbm.Process.Merge.{
  SourceLine, only_first, only_second, matched, collided, Error, Line, FileState, extract_digest,
  done, ready, peek, take_error,
}
use archivindex_wbm.Snapshot.Validation.{is_after, digest_lt}

module _ (parse_digest : Bytes → Option Bytes) {E : Type 0} where
  -- `f'` is `f` behind the lines, of which there is one at most.
  abbrev pub Takes : FileState E → Bytes → List Bytes → FileState E → Type 0
  Takes f digest [] f' = f ≡ f'
  Takes f digest (line ∷ []) f' = IsTaken parse_digest f digest line f'
  Takes f digest (line ∷ _ ∷ _) f' = ⊥

  -- The next line of `f`, if it is in order in `f`, has a digest behind `last`.
  abbrev pub IsBehind : Option Bytes → FileState E → Type 0
  IsBehind last f =
      (digest : Bytes)
      → peek parse_digest f ≡ ready digest
      → is_after f.last_digest digest ≡ true
      → is_after last digest ≡ true

  abbrev pub merging : FileState E → FileState E → MergeIter E
  merging f g = record { first = f; second = g; done = false }

  abbrev failed_merge : FileState E → FileState E → MergeIter E
  failed_merge f g = record { first = f; second = g; done = true }

  pub data Called (f g : FileState E) (last : Option Bytes) : Type 0 where
    ends :
        f.iterator ≡ []
        → g.iterator ≡ []
        → next parse_digest (merging f g) ≡ some (none, merging f g)
        → Called f g last
    fails :
        (e : Error E) (m : MergeIter E)
        → next parse_digest (merging f g) ≡ some (some (err e), m)
        → m.done ≡ true
        → IsFaultOf parse_digest f e ⊎ IsFaultOf parse_digest g e
        → Called f g last
    yields :
        (digest : Bytes) (line : SourceLine) (f' g' : FileState E)
        → next parse_digest (merging f g) ≡ some (some (ok (digest, line)), merging f' g')
        → is_after last digest ≡ true
        → IsEntry parse_digest f.line_number g.line_number (digest, line)
        → Takes f digest (first_of line) f'
        → Takes g digest (second_of line) g'
        → IsBehind (some digest) f'
        → IsBehind (some digest) g'
        → Called f g last

  -- Behind the line that was taken.
  IsTaken-IsBehind :
      {f f' : FileState E} {digest line : Bytes}
      → IsTaken parse_digest f digest line f'
      → IsBehind (some digest) f'
  IsTaken-IsBehind t next_digest found after = rw t.last_digest at after

  -- Behind a digest that is before the one that a file waits with.
  pub waiting-IsBehind :
      (g : FileState E) (digest other : Bytes)
      → peek parse_digest g ≡ ready other
      → digest_lt digest other ≡ true
      → IsBehind (some digest) g
  unfolding is_after
  waiting-IsBehind g digest other waits before found is_next _ =
      let same : other ≡ found = cc in rw same at before

  pub done-IsBehind :
      (g : FileState E) (last : Option Bytes) → peek parse_digest g ≡ done → IsBehind last g
  done-IsBehind g last is_done digest is_next _ = cc

  module _ (f g : FileState E) (last : Option Bytes) (behind_f : IsBehind last f)
      (behind_g : IsBehind last g) where
    pub failing_first :
        (e : Error E) (f' : FileState E)
        → next_unfused parse_digest (merging f g) ≡ fail_first (merging f g)
        → take_error f ≡ some (e, f')
        → IsFaultOf parse_digest f e
        → Called f g last
    unfolding next fail_first fuse is_failure
    failing_first e f' is_fail taken fault =
        fails e (failed_merge f' g) (rw (next, is_fail, fail_first, taken)) refl (inl fault)

    pub failing_second :
        (e : Error E) (g' : FileState E)
        → next_unfused parse_digest (merging f g) ≡ fail_second (merging f g)
        → take_error g ≡ some (e, g')
        → IsFaultOf parse_digest g e
        → Called f g last
    unfolding next fail_second fuse is_failure
    failing_second e g' is_fail taken fault =
        fails e (failed_merge f g') (rw (next, is_fail, fail_second, taken)) refl (inr fault)

    pub taking_first :
        (digest line : Bytes) (rest : List (Line E))
        → f.iterator ≡ ok line ∷ rest
        → extract_digest parse_digest line ≡ some digest
        → peek parse_digest f ≡ ready digest
        → next_unfused parse_digest (merging f g) ≡ take_first (merging f g) digest
        → IsBehind (some digest) g
        → Called f g last
    unfolding next take_first fuse is_failure
    taking_first digest line rest is found is_next is_take behind =
        elim (take parse_digest f digest line rest is found) [
          | accepted f' taken t ↦
              yields digest (only_first line) f' g (rw (next, is_take, take_first, taken))
                (behind_f digest is_next t.after) found t refl (IsTaken-IsBehind t) behind
          | refused e f' taken fault ↦
              fails e (failed_merge f' g) (rw (next, is_take, take_first, taken)) refl (inl fault)
        ]

    pub taking_second :
        (digest line : Bytes) (rest : List (Line E))
        → g.iterator ≡ ok line ∷ rest
        → extract_digest parse_digest line ≡ some digest
        → peek parse_digest g ≡ ready digest
        → next_unfused parse_digest (merging f g) ≡ take_second (merging f g) digest
        → IsBehind (some digest) f
        → Called f g last
    unfolding next take_second fuse is_failure
    taking_second digest line rest is found is_next is_take behind =
        elim (take parse_digest g digest line rest is found) [
          | accepted g' taken t ↦
              yields digest (only_second line) f g' (rw (next, is_take, take_second, taken))
                (behind_g digest is_next t.after) found refl t behind (IsTaken-IsBehind t)
          | refused e g' taken fault ↦
              fails e (failed_merge f g') (rw (next, is_take, take_second, taken)) refl (inr fault)
        ]

    pairing :
        (digest line other : Bytes) (f' g' : FileState E)
        → next_unfused parse_digest (merging f g)
          ≡ some (some (ok (pair_lines digest f' g' line other)), merging f' g')
        → IsBehind (some digest) f'
        → is_after last digest ≡ true
        → IsTaken parse_digest f digest line f'
        → IsTaken parse_digest g digest other g'
        → Called f g last
    unfolding next pair_lines fuse is_failure
    pairing digest line other f' g' is_pair behind after t u =
        elim (Bool-cases (bytes_eq line other)) [
          | inl same ↦
              yields digest (matched line) f' g' (rw (next, is_pair, pair_lines, same)) after
                t.found t (rw (bytes_eq_sound line other same) u) behind (IsTaken-IsBehind u)
          | inr differ ↦
              yields digest
                (collided (record {
                  first_value = line;
                  second_value = other;
                  first_line_number = f'.line_number;
                  second_line_number = g'.line_number;
                  digest = digest;
                }))
                f' g' (rw (next, is_pair, pair_lines, differ)) after
                (t.found, u.found, differ, t.line_number, u.line_number, refl) t u behind
                (IsTaken-IsBehind u)
        ]

    pub taking_both :
        (digest line : Bytes) (rest : List (Line E))
        → f.iterator ≡ ok line ∷ rest
        → extract_digest parse_digest line ≡ some digest
        → peek parse_digest f ≡ ready digest
        → (other : Bytes) (more : List (Line E)) → g.iterator ≡ ok other ∷ more
        → extract_digest parse_digest other ≡ some digest
        → next_unfused parse_digest (merging f g) ≡ take_both (merging f g) digest digest
        → Called f g last
    unfolding take_both take_other next fuse is_failure
    taking_both digest line rest is found is_next other more is' found' is_take =
        elim (take parse_digest f digest line rest is found) [
          | refused e f' taken fault ↦
              fails e (failed_merge f' g) (rw (next, is_take, take_both, taken)) refl (inl fault)
          | accepted f' taken t ↦ elim (take parse_digest g digest other more is' found') [
            | refused e g' taken' fault ↦
                fails e (failed_merge f' g')
                  (rw (next, is_take, take_both, taken, take_other, taken')) refl (inr fault)
            | accepted g' taken' u ↦
                pairing digest line other f' g' (rw (is_take, take_both, taken, take_other, taken'))
                  (IsTaken-IsBehind t) (behind_f digest is_next t.after) t u
          ]
        ]
