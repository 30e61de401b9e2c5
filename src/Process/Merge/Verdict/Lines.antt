-- ===== src/Process/Merge/Verdict/Lines.antt =====
-- crates/json-processing/src/process/merge.rs: the lines of a file that entries carry, and what
-- an entry adds to them.
use archivindex_wbm.Common.{
  ℕ, ◌+◌, ◌<◌, true, List, [], ◌∷◌, ◌++◌, ◌≡◌, sym, Option, none, some, ok, Bytes, length, map,
  arith, ◌⊎◌, inl, inr,
}
use archivindex_wbm.Process.Merge.Iterator.{Entry}
use archivindex_wbm.Process.Merge.Verdict.Call.{Takes}
use archivindex_wbm.Process.Merge.Verdict.{
  first_of, second_of, firsts, seconds, IsEntry, IsUnion, last_of, IsFault,
}
use archivindex_wbm.Process.Merge.{
  SourceLine, Error, io, read_io, order, invalid_line, Line, FileState,
}
use archivindex_wbm.Snapshot.Validation.{is_after}

module _ (parse_digest : Bytes → Option Bytes) {E : Type 0} where
  -- The entries carry the lines of both files that stand before `rest` and `more`, which are nothing,
  -- or begin with the fault that the error tells of.
  abbrev pub IsEnd :
      FileState E
      → FileState E
      → List Entry
      → List (Line E)
      → List (Line E)
      → Option (Error E)
      → Type 0
  IsEnd f g entries rest more none = (rest ≡ []) × (more ≡ [])
  IsEnd f g entries rest more (some e) =
      IsFault parse_digest f.side (f.line_number + length (firsts entries))
        (last_of parse_digest f.last_digest (firsts entries)) rest e
      ⊎ IsFault parse_digest g.side (g.line_number + length (seconds entries))
          (last_of parse_digest g.last_digest (seconds entries)) more e

  pub record IsVerdict (f g : FileState E) (last : Option Bytes) (entries : List Entry)
      (end : Option (Error E)) : Type 0 where
    pub union : IsUnion parse_digest f.line_number g.line_number last entries
    pub rest : List (Line E)
    pub more : List (Line E)
    pub from_first : f.iterator ≡ map ok (firsts entries) ++ rest
    pub from_second : g.iterator ≡ map ok (seconds entries) ++ more
    pub ended : IsEnd f g entries rest more end

  pub IsFault-nonempty :
      (side : _) (n : ℕ) (last : Option Bytes) (items : List (Line E)) (e : Error E)
      → IsFault parse_digest side n last items e
      → 0 < length items
  IsFault-nonempty side n last items (io e) h = absurd h
  IsFault-nonempty side n last items (read_io at k d e) (_, _, _, (more, is)) = rw is (omega arith)
  IsFault-nonempty side n last items (order at k d) (_, _, (line, more, is, _, _)) =
      rw is (omega arith)
  IsFault-nonempty side n last items (invalid_line at k d) (_, _, _, (more, is)) =
      rw is (omega arith)

  pub Takes-length :
      (f f' : FileState E) (digest : Bytes) (lines : List Bytes)
      → Takes parse_digest f digest lines f'
      → length f.iterator ≡ length lines + length f'.iterator
  Takes-length f f' digest [] t = rw t (omega arith)
  Takes-length f f' digest (line ∷ []) t = rw t.head (omega arith)
  Takes-length f f' digest (line ∷ _ ∷ _) t = absurd t

  Takes-line_number :
      (f f' : FileState E) (digest : Bytes) (lines : List Bytes)
      → Takes parse_digest f digest lines f'
      → f'.line_number ≡ f.line_number + length lines
  Takes-line_number f f' digest [] t = rw t (omega arith)
  Takes-line_number f f' digest (line ∷ []) t = t.line_number
  Takes-line_number f f' digest (line ∷ _ ∷ _) t = absurd t

  Takes-iterator :
      (f f' : FileState E) (digest : Bytes) (lines ls : List Bytes) (rest : List (Line E))
      → Takes parse_digest f digest lines f'
      → f'.iterator ≡ map ok ls ++ rest
      → f.iterator ≡ map ok (lines ++ ls) ++ rest
  Takes-iterator f f' digest [] ls rest t is = rw t is
  Takes-iterator f f' digest (line ∷ []) ls rest t is = rw (t.head, is)
  Takes-iterator f f' digest (line ∷ _ ∷ _) ls rest t is = absurd t

  Takes-IsFault :
      (f f' : FileState E) (digest : Bytes) (lines ls : List Bytes) (rest : List (Line E))
      (e : Error E)
      → Takes parse_digest f digest lines f'
      → IsFault parse_digest f'.side
          (f'.line_number + length ls)
          (last_of parse_digest f'.last_digest ls)
          rest
          e
      → IsFault parse_digest f.side
          (f.line_number + length (lines ++ ls))
          (last_of parse_digest f.last_digest (lines ++ ls))
          rest
          e
  Takes-IsFault f f' digest [] ls rest e t fault = rw t fault
  Takes-IsFault f f' digest (line ∷ []) ls rest e t fault =
      let number : f.line_number + length (line ∷ ls) ≡ f'.line_number + length ls =
        omega (arith, t.line_number) in
      let last : last_of parse_digest f.last_digest (line ∷ ls)
          ≡ last_of parse_digest f'.last_digest ls =
        rw (t.found, t.last_digest) in
      same_fault f.side f'.side _ _ _ _ rest e t.side (sym number) (sym last) fault
    where
      same_fault :
          (s s' : _) (n n' : ℕ) (l l' : Option Bytes) (items : List (Line E)) (e : Error E)
          → s' ≡ s
          → n' ≡ n
          → l' ≡ l
          → IsFault parse_digest s' n' l' items e
          → IsFault parse_digest s n l items e
      same_fault s s' n n' l l' items e hs hn hl h = rw (← hs, ← hn, ← hl) h
  Takes-IsFault f f' digest (line ∷ _ ∷ _) ls rest e t fault = absurd t

  IsEnd-step :
      (f g f' g' : FileState E) (digest : Bytes) (line : SourceLine) (entries : List Entry)
      (rest more : List (Line E)) (end : Option (Error E))
      → Takes parse_digest f digest (first_of line) f'
      → Takes parse_digest g digest (second_of line) g'
      → IsEnd f' g' entries rest more end
      → IsEnd f g ((digest, line) ∷ entries) rest more end
  IsEnd-step f g f' g' digest line entries rest more none t u ended = ended
  IsEnd-step f g f' g' digest line entries rest more (some e) t u (inl fault) =
      inl (Takes-IsFault f f' digest (first_of line) (firsts entries) rest e t fault)
  IsEnd-step f g f' g' digest line entries rest more (some e) t u (inr fault) =
      inr (Takes-IsFault g g' digest (second_of line) (seconds entries) more e u fault)

  pub IsVerdict-step :
      (f g f' g' : FileState E) (last : Option Bytes) (digest : Bytes) (line : SourceLine)
      (entries : List Entry) (end : Option (Error E))
      → is_after last digest ≡ true
      → IsEntry parse_digest f.line_number g.line_number (digest, line)
      → Takes parse_digest f digest (first_of line) f'
      → Takes parse_digest g digest (second_of line) g'
      → IsVerdict f' g' (some digest) entries end
      → IsVerdict f g last ((digest, line) ∷ entries) end
  IsVerdict-step f g f' g' last digest line entries end after entry t u v = record {
    union = (
      after,
      entry,
      rw
          (
            ← Takes-line_number f f' digest (first_of line) t,
            ← Takes-line_number g g' digest (second_of line) u,
          )
          v.union,
    );
    rest = v.rest;
    more = v.more;
    from_first = Takes-iterator f f' digest (first_of line) (firsts entries) v.rest t v.from_first;
    from_second =
        Takes-iterator g g' digest (second_of line) (seconds entries) v.more u v.from_second;
    ended = IsEnd-step f g f' g' digest line entries v.rest v.more end t u v.ended;
  }
