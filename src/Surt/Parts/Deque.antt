-- ===== src/Surt/Parts/Deque.antt =====
-- crates/wbm/src/surt.rs: `DomainNamePartIter` refines the list of the parts, consumed at both ends.
use archivindex_wbm.Common.Options.{◌>>=◌}
use archivindex_wbm.Common.{
  sum, sym, checked_sub, ok, ℕ, ◌+◌, ◌-◌, Bool, true, false, List, [], ◌∷◌, ◌++◌, ◌≡◌, refl, ◌∙◌,
  ap₂, last-cases, inl, inr, Option, none, some, Bytes, length, map, append_assoc, length-append,
  leb, ltb, slice_to_exact, slice_from_past, slice_to_all, slice_from_all, split_last-concat,
  map-append, split_last, arith,
}
use archivindex_wbm.Surt.{comma, close, Surt, SharedSurts, parse_str}
use archivindex_wbm.Surt.Parse.{IsParse, parse_str_sound}
use archivindex_wbm.Surt.Parts.{
  path_start, path, domain_name_parts, DomainNamePartIter, advance, retreat, next_on, next_back_on,
  next, next_back,
}
use archivindex_wbm.Surt.Text.{join_parts, SplitsAs}

-- The iterator stands before the parts `ps`.
abbrev pub at_parts : List Bytes → DomainNamePartIter
at_parts ps = record { source = join_parts ps; lens = map length ps }

advance_last :
    (p : Bytes) (lens : List ℕ)
    → advance p (length p) lens ≡ some (some p, record { source = []; lens = lens })
unfolding advance
advance_last p lens =
    let alone : ltb (length p) (length p) ≡ false = ground arith in
    rw (slice_to_all p, alone, slice_from_all p)

advance_more :
    (p s : Bytes) (lens : List ℕ)
    → advance (p ++ (comma ∷ s)) (length p) lens ≡ some (some p, record { source = s; lens = lens })
unfolding advance
advance_more p s lens =
    let more : ltb (length p) (length (p ++ (comma ∷ s))) ≡ true =
      ground (arith, length-append p (comma ∷ s)) in
    rw (slice_to_exact p (comma ∷ s), more, slice_from_past p comma s)

pub next_cons :
    (p : Bytes) (ps : List Bytes) → next (at_parts (p ∷ ps)) ≡ some (some p, at_parts ps)
unfolding next next_on
next_cons p [] = advance_last p []
next_cons p (q ∷ ps) = advance_more p (join_parts (q ∷ ps)) (map length (q ∷ ps))

pub next_nil : next (at_parts []) ≡ some (none, at_parts [])
unfolding next next_on
next_nil = refl

retreat_first :
    (p : Bytes) (lens : List ℕ)
    → retreat p (length p) lens ≡ some (some p, record { source = []; lens = lens })
unfolding retreat
retreat_first p lens = ground arith

retreat_more :
    (s p : Bytes) (lens : List ℕ)
    → retreat (s ++ (comma ∷ p)) (length p) lens ≡ some (some p, record { source = s; lens = lens })
unfolding retreat
retreat_more s p lens =
    let total = length-append s (comma ∷ p) in
    let room : leb (length p) (length (s ++ (comma ∷ p))) ≡ true = ground (arith, total) in
    let before : length (s ++ (comma ∷ p)) - length p ≡ length s + 1 = omega arith in
    let some_left : ltb 0 (length s + 1) ≡ true = ground arith in
    let less : length s + 1 - 1 ≡ length s = omega arith in
    rw (room, before, slice_from_past s comma p, some_left, less, slice_to_exact s (comma ∷ p))

join-concat :
    (q p : Bytes) (ps : List Bytes)
    → join_parts ((q ∷ ps) ++ p ∷ []) ≡ join_parts (q ∷ ps) ++ (comma ∷ p)
join-concat q p [] = refl
join-concat q p (r ∷ ps) = rw (join-concat r p ps, append_assoc)

pub next_back_concat :
    (ps : List Bytes) (p : Bytes) → next_back (at_parts (ps ++ p ∷ [])) ≡ some (some p, at_parts ps)
unfolding next_back next_back_on
next_back_concat [] p = retreat_first p []
next_back_concat (q ∷ ps) p =
    let lens = map-append length (q ∷ ps) (p ∷ []) in
    ap₂ (λ s l. next_back_on s l (split_last l)) (join-concat q p ps) lens
    ∙ rw (split_last-concat (map length (q ∷ ps)) (length p))
        (retreat_more (join_parts (q ∷ ps)) p (map length (q ∷ ps)))

pub next_back_nil : next_back (at_parts []) ≡ some (none, at_parts [])
unfolding next_back next_back_on
next_back_nil = refl

-- A schedule of calls, `true` for `next` and `false` for `next_back`, and what the calls return.
abbrev pub consume : List Bool → DomainNamePartIter → Option (List (Option Bytes))
consume [] it = some []
consume (true ∷ ends) it = do (part, it') ← next it; parts ← consume ends it'; some (part ∷ parts)
consume (false ∷ ends) it = do
  (part, it') ← next_back it
  parts ← consume ends it'
  some (part ∷ parts)

-- The same calls on the list of the parts.
abbrev pub deal : List Bool → List Bytes → List (Option Bytes)
deal [] ps = []
deal (true ∷ ends) ps = elim ps [ [] ↦ none ∷ deal ends [] | p ∷ rest ↦ some p ∷ deal ends rest ]
deal (false ∷ ends) ps = elim (split_last ps) [
  | none ↦ none ∷ deal ends []
  | some (before, p) ↦ some p ∷ deal ends before
]

consume-deal :
    (ends : List Bool) (ps : List Bytes) → consume ends (at_parts ps) ≡ some (deal ends ps)
consume-deal [] ps = refl
consume-deal (true ∷ ends) [] = rw (next_nil, consume-deal ends [])
consume-deal (true ∷ ends) (p ∷ ps) = rw (next_cons p ps, consume-deal ends ps)
consume-deal (false ∷ ends) ps = elim (last-cases ps) [
  | inl e ↦ rw e (rw (next_back_nil, consume-deal ends []))
  | inr (before, p, e) ↦
      rw e
        (rw (next_back_concat before p, consume-deal ends before, split_last-concat before p, deal))
]

-- Both accessors of a parsed key: no slice is out of range, the iterator stands before the parts of
-- the text, and the path is what follows the terminator.
module _ (lib : SharedSurts) where
  open lib use {SharedSurt}

  length-join :
      (first : Bytes) (others : List Bytes)
      → length (join_parts (first ∷ others)) + 1
        ≡ length (map length (first ∷ others)) + sum (map length (first ∷ others))
  length-join first [] = omega arith
  length-join first (p ∷ ps) =
      omega (arith, length-append first (comma ∷ join_parts (p ∷ ps)), length-join p ps)

  path_start-eq :
      (input : Bytes) (t : Surt SharedSurt) (h : IsParse lib input t)
      → path_start t ≡ length (join_parts (h.first ∷ h.others)) + 1
  unfolding path_start
  path_start-eq input t h = rw h.lens (sym (length-join h.first h.others))

  pub path-IsParse :
      (input : Bytes) (t : Surt SharedSurt) (h : IsParse lib input t) → path lib t ≡ some h.rest
  unfolding path
  path-IsParse input t h =
      rw (path_start-eq input t h, h.text, h.splits.text)
        (slice_from_past (join_parts (h.first ∷ h.others)) close h.rest)

  pub domain_name_parts-IsParse :
      (input : Bytes) (t : Surt SharedSurt) (h : IsParse lib input t)
      → domain_name_parts lib t ≡ some (at_parts (h.first ∷ h.others))
  unfolding domain_name_parts
  domain_name_parts-IsParse input t h =
      let joined = join_parts (h.first ∷ h.others) in
      let start = path_start-eq input t h in
      let room : checked_sub (path_start t) 1 ≡ some (length joined) = ground arith in
      rw (room, h.text, h.splits.text, slice_to_exact joined (close ∷ h.rest), h.lens)

  -- However the two ends of the iterator over a parsed key's parts are interleaved, each call
  -- returns the part that a list of the parts, shortened at that end, would give, and no call
  -- panics; and the path is the rest of the text.
  pub consume-parse_str :
      {ParseError : Type 0} (input : Bytes) (t : Surt SharedSurt) (ends : List Bool)
      → parse_str lib {ParseError = ParseError} input ≡ ok t
      → (first : Bytes) × (others : List Bytes) × (rest : Bytes) × SplitsAs input first others rest
        × ((domain_name_parts lib t >>= consume ends) ≡ some (deal ends (first ∷ others)))
        × (path lib t ≡ some rest)
  consume-parse_str {ParseError} input t ends e =
      let h = parse_str_sound lib {ParseError = ParseError} input t e in
      (
        h.first,
        h.others,
        h.rest,
        h.splits,
        rw (domain_name_parts-IsParse input t h) (consume-deal ends (h.first ∷ h.others)),
        path-IsParse input t h,
      )
