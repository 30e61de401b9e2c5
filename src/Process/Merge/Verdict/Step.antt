-- ===== src/Process/Merge/Verdict/Step.antt =====
-- crates/json-processing/src/process/merge.rs: a look at the next item of a file, and taking it.
use archivindex_wbm.Common.{
  ◌+◌, true, false, List, [], ◌∷◌, ◌≡◌, refl, Option, some, ok, err, Bytes, arith, Bool-cases,
  Option-cases, inl, inr,
}
use archivindex_wbm.Process.Merge.Verdict.{IsFaultOf}
use archivindex_wbm.Process.Merge.{
  Error, read_io, order, invalid_line, Line, FileState, extract_digest, take_ok, take_ok_from,
  take_error, take_error_from, done, ready, bad, peek, peek_from,
}
use archivindex_wbm.Snapshot.Validation.{is_after, digest_lt}

pub digest_lt-tri : (a b : Bytes) → digest_lt a b ≡ false → digest_lt b a ≡ false → a ≡ b
unfolding digest_lt
digest_lt-tri [] [] h k = refl
digest_lt-tri [] (y ∷ b) h k = cc
digest_lt-tri (x ∷ a) [] h k = cc
digest_lt-tri (x ∷ a) (y ∷ b) h k = ground (arith, digest_lt-tri a b)

module _ (parse_digest : Bytes → Option Bytes) {E : Type 0} where
  -- `f'` is `f` behind a line with digest `digest`.
  pub record IsTaken (f : FileState E) (digest line : Bytes) (f' : FileState E) : Type 0 where
    pub head : f.iterator ≡ ok line ∷ f'.iterator
    pub found : extract_digest parse_digest line ≡ some digest
    pub after : is_after f.last_digest digest ≡ true
    pub side : f'.side ≡ f.side
    pub line_number : f'.line_number ≡ f.line_number + 1
    pub last_digest : f'.last_digest ≡ some digest

  pub data Seen (f : FileState E) : Type 0 where
    exhausted : f.iterator ≡ [] → peek parse_digest f ≡ done → Seen f
    valid :
        (digest line : Bytes) (rest : List (Line E))
        → f.iterator ≡ ok line ∷ rest
        → extract_digest parse_digest line ≡ some digest
        → peek parse_digest f ≡ ready digest
        → Seen f
    failed :
        (e : Error E) (f' : FileState E)
        → peek parse_digest f ≡ bad
        → take_error f ≡ some (e, f')
        → IsFaultOf parse_digest f e
        → Seen f

  look_from : (f : FileState E) (items : List (Line E)) → f.iterator ≡ items → Seen f
  unfolding peek peek_from take_error take_error_from
  look_from f [] is = exhausted is (rw is)
  look_from f (err e ∷ rest) is =
      failed (read_io f.side (f.line_number + 1) f.last_digest e)
        (record f { iterator = rest; line_number = f.line_number + 1 }) (rw is) (rw is)
        (refl, refl, refl, (rest, is))
  look_from f (ok line ∷ rest) is = elim (Option-cases (extract_digest parse_digest line)) [
    | inl none_found ↦
        failed (invalid_line f.side (f.line_number + 1) line)
          (record f { iterator = rest; line_number = f.line_number + 1 })
          (rw (peek, is, peek_from, none_found)) (rw is) (refl, refl, none_found, (rest, is))
    | inr (digest, found) ↦ valid digest line rest is found (rw (peek, is, peek_from, found))
  ]

  pub look : (f : FileState E) → Seen f
  look f = look_from f f.iterator refl

  pub data Took (f : FileState E) (digest line : Bytes) : Type 0 where
    accepted :
        (f' : FileState E)
        → take_ok f digest ≡ some (ok line, f')
        → IsTaken f digest line f'
        → Took f digest line
    refused :
        (e : Error E) (f' : FileState E)
        → take_ok f digest ≡ some (err e, f')
        → IsFaultOf parse_digest f e
        → Took f digest line

  pub take :
      (f : FileState E) (digest line : Bytes) (rest : List (Line E))
      → f.iterator ≡ ok line ∷ rest
      → extract_digest parse_digest line ≡ some digest
      → Took f digest line
  unfolding take_ok take_ok_from
  take f digest line rest is found = elim (Bool-cases (is_after f.last_digest digest)) [
    | inl after ↦
        accepted
          (record f { iterator = rest; line_number = f.line_number + 1; last_digest = some digest })
          (rw (take_ok, is, take_ok_from, after))
          (record {
            head = is;
            found = found;
            after = after;
            side = refl;
            line_number = refl;
            last_digest = refl;
          })
    | inr early ↦
        refused (order f.side (f.line_number + 1) digest)
          (record f { iterator = rest; line_number = f.line_number + 1 })
          (rw (take_ok, is, take_ok_from, early)) (refl, refl, (line, rest, is, found, early))
  ]
