-- ===== src/Process/Merge/Verdict/Next.antt =====
-- crates/json-processing/src/process/merge.rs: a call of `MergeIter::next` on files that have
-- not failed, by what the next items of both are.
use archivindex_wbm.Common.{false, ◌≡◌, sym, Option, some, Bytes, Bool-cases, inl, inr}
use archivindex_wbm.Process.Merge.Iterator.{next_on, next_unfused, next, fuse, is_failure}
use archivindex_wbm.Process.Merge.Verdict.Call.{
  IsBehind, Called, ends, waiting-IsBehind, done-IsBehind, failing_first, failing_second,
  taking_first, taking_second, taking_both,
}
use archivindex_wbm.Process.Merge.Verdict.Step.{digest_lt-tri, Seen, exhausted, valid, failed, look}
use archivindex_wbm.Process.Merge.{FileState, extract_digest, ready, peek}
use archivindex_wbm.Snapshot.Validation.{digest_lt}

module _ (parse_digest : Bytes → Option Bytes) {E : Type 0} where
  module _ (f g : FileState E) (last : Option Bytes) (behind_f : IsBehind parse_digest last f)
      (behind_g : IsBehind parse_digest last g) where
    call_on : Seen parse_digest f → Seen parse_digest g → Called parse_digest f g last
    unfolding next_unfused next_on next fuse is_failure
    call_on (failed e f' is_bad taken fault) _ =
        failing_first parse_digest f g last behind_f behind_g e f' (rw (next_unfused, is_bad)) taken
          fault
    call_on (exhausted is is_done) (failed e g' is_bad taken fault) =
        failing_second parse_digest f g last behind_f behind_g e g'
          (rw (next_unfused, is_done, is_bad)) taken fault
    call_on (valid a line rest is found is_next) (failed e g' is_bad taken fault) =
        failing_second parse_digest f g last behind_f behind_g e g'
          (rw (next_unfused, is_next, is_bad)) taken fault
    call_on (exhausted is is_done) (exhausted is' is_done') =
        ends is is' (rw (next, next_unfused, is_done, is_done'))
    call_on (valid a line rest is found is_next) (exhausted is' is_done') =
        taking_first parse_digest f g last behind_f behind_g a line rest is found is_next
          (rw (next_unfused, is_next, is_done')) (done-IsBehind parse_digest g (some a) is_done')
    call_on (exhausted is is_done) (valid b other more is' found' is_next') =
        taking_second parse_digest f g last behind_f behind_g b other more is' found' is_next'
          (rw (next_unfused, is_done, is_next')) (done-IsBehind parse_digest f (some b) is_done)
    call_on (valid a line rest is found is_next) (valid b other more is' found' is_next') =
        elim (Bool-cases (digest_lt a b)) [
          | inl less ↦
              taking_first parse_digest f g last behind_f behind_g a line rest is found is_next
                (rw (next_unfused, is_next, is_next', next_on, less))
                (waiting-IsBehind parse_digest g a b is_next' less)
          | inr not_less ↦ elim (Bool-cases (digest_lt b a)) [
            | inl greater ↦
                taking_second parse_digest f g last behind_f behind_g b other more is' found'
                  is_next' (rw (next_unfused, is_next, is_next', next_on, not_less, greater))
                  (waiting-IsBehind parse_digest f b a is_next greater)
            | inr not_greater ↦
                let same : b ≡ a = sym (digest_lt-tri a b not_less not_greater) in
                let found_a : extract_digest parse_digest other ≡ some a = rw same at found' in
                let next_a : peek parse_digest g ≡ ready a = rw same at is_next' in
                let not_before : digest_lt a a ≡ false = rw same at not_less in
                taking_both parse_digest f g last behind_f behind_g a line rest is found is_next
                  other more is' found_a (rw (next_unfused, is_next, next_a, next_on, not_before))
          ]
        ]

    -- What one call does.
    pub call : Called parse_digest f g last
    call = call_on (look parse_digest f) (look parse_digest g)
