-- ===== src/Surt/Url/Query.antt =====
-- crates/wbm/src/surt.rs: the query of `from_url`, whose parameters are sorted by key.
use archivindex_wbm.Common.{
  Bool, true, false, List, [], ◌∷◌, ◌++◌, ◌≡◌, refl, sym, ap, ◌∙◌, inl, inr, Bytes, All,
  append_assoc, append-nil, bytes_eq, bytes_eq_sound, if◌then◌else◌, Bool-cases, arith,
}
use archivindex_wbm.Surt.Decode.{decode_query_value}
use archivindex_wbm.Surt.Url.{bytes_le, insert_pair, sort_pairs, push_pair, push_pairs, push_query}

abbrev pub Pair : Type 0
Pair = Bytes × Bytes

bytes_le_total : (a b : Bytes) → bytes_le a b ≡ false → bytes_le b a ≡ true
unfolding bytes_le
bytes_le_total [] b h = cc
bytes_le_total (x ∷ a) [] h = refl
bytes_le_total (x ∷ a) (y ∷ b) h = ground (arith, bytes_le_total a b)

bytes_le_trans : (a b c : Bytes) → bytes_le a b ≡ true → bytes_le b c ≡ true → bytes_le a c ≡ true
unfolding bytes_le
bytes_le_trans [] b c h k = refl
bytes_le_trans (x ∷ a) [] c h k = cc
bytes_le_trans (x ∷ a) (y ∷ b) [] h k = cc
bytes_le_trans (x ∷ a) (y ∷ b) (z ∷ c) h k = ground (arith, bytes_le_trans a b c)

bytes_le_refl : (a : Bytes) → bytes_le a a ≡ true
unfolding bytes_le
bytes_le_refl [] = refl
bytes_le_refl (x ∷ a) = ground (arith, bytes_le_refl a)

-- No key stands before the one of `p`.
abbrev AllBehind : Pair → List Pair → Type 0
AllBehind p = All (λ q. bytes_le p.0 q.0 ≡ true)

-- The keys are in ascending order.
abbrev pub IsByKey : List Pair → Type 0
IsByKey [] = Unit {0}
IsByKey (p ∷ ps) = AllBehind p ps × IsByKey ps

-- The parameters under a key, in their order.
abbrev pub under : Bytes → List Pair → List Pair
under k [] = []
under k (p ∷ ps) = if bytes_eq k p.0 then p ∷ under k ps else under k ps

AllBehind-trans :
    (p q : Pair) (ps : List Pair) → bytes_le p.0 q.0 ≡ true → AllBehind q ps → AllBehind p ps
AllBehind-trans p q [] h a = tt
AllBehind-trans p q (r ∷ ps) h (b, a) = (bytes_le_trans p.0 q.0 r.0 h b, AllBehind-trans p q ps h a)

insert_pair-AllBehind :
    (q p : Pair) (ps : List Pair)
    → bytes_le q.0 p.0 ≡ true
    → AllBehind q ps
    → AllBehind q (insert_pair p ps)
unfolding insert_pair
insert_pair-AllBehind q p [] h a = (h, tt)
insert_pair-AllBehind q p (r ∷ ps) h (b, a) = elim (Bool-cases (bytes_le p.0 r.0)) [
  | inl e ↦ rw e (h, (b, a))
  | inr e ↦ rw e (b, insert_pair-AllBehind q p ps h a)
]

insert_pair-IsByKey : (p : Pair) (ps : List Pair) → IsByKey ps → IsByKey (insert_pair p ps)
unfolding insert_pair
insert_pair-IsByKey p [] h = (tt, tt)
insert_pair-IsByKey p (q ∷ ps) (b, h) = elim (Bool-cases (bytes_le p.0 q.0)) [
  | inl e ↦ rw e ((e, AllBehind-trans p q ps e b), (b, h))
  | inr e ↦
      rw e (insert_pair-AllBehind q p ps (bytes_le_total p.0 q.0 e) b, insert_pair-IsByKey p ps h)
]

-- Parameters of one key are not swapped.
under-insert_pair :
    (k : Bytes) (p : Pair) (ps : List Pair) → under k (insert_pair p ps) ≡ under k (p ∷ ps)
unfolding insert_pair
under-insert_pair k p [] = refl
under-insert_pair k p (q ∷ ps) = elim (Bool-cases (bytes_le p.0 q.0)) [
  | inl e ↦ rw e refl
  | inr e ↦ elim (Bool-cases (bytes_eq k q.0)) [
    | inr other ↦ rw (e, other, under-insert_pair k p ps) refl
    | inl at_q ↦ elim (Bool-cases (bytes_eq k p.0)) [
      | inr other ↦ rw (e, at_q, under-insert_pair k p ps, other) refl
      | inl at_p ↦
          let k_q = bytes_eq_sound k q.0 at_q in
          let k_p = bytes_eq_sound k p.0 at_p in
          let same : bytes_le p.0 q.0 ≡ true = rw (← k_q, ← k_p) (bytes_le_refl k) in cc
    ]
  ]
]

sort_pairs-IsByKey : (ps : List Pair) → IsByKey (sort_pairs ps)
unfolding sort_pairs
sort_pairs-IsByKey [] = tt
sort_pairs-IsByKey (p ∷ ps) = insert_pair-IsByKey p (sort_pairs ps) (sort_pairs-IsByKey ps)

under-sort_pairs : (k : Bytes) (ps : List Pair) → under k (sort_pairs ps) ≡ under k ps
unfolding sort_pairs
under-sort_pairs k [] = refl
under-sort_pairs k (p ∷ ps) =
    under-insert_pair k p (sort_pairs ps) ∙ rw (under, under-sort_pairs k ps) refl

-- A parameter as it is shown, and parameters joined.
abbrev pub shown_pair : Pair → Bytes
shown_pair (key, value) = key ++ (b'=' ∷ decode_query_value value)

abbrev pub joined_pairs : List Pair → Bytes
joined_pairs [] = []
joined_pairs (p ∷ []) = shown_pair p
joined_pairs (p ∷ q ∷ ps) = shown_pair p ++ (b'&' ∷ joined_pairs (q ∷ ps))

abbrev pub shown_query : List Pair → Bytes
shown_query [] = []
shown_query (p ∷ ps) = b'?' ∷ joined_pairs (p ∷ ps)

-- The text of a query: its parameters sorted by key, those of one key in the order of the URL.
pub record IsQuery (pairs : List Pair) (text : Bytes) : Type 0 where
  pub sorted : List Pair
  pub by_key : IsByKey sorted
  pub stable : (k : Bytes) → under k sorted ≡ under k pairs
  pub text_is : text ≡ shown_query sorted

push_pair-shown : (p : Pair) (source : Bytes) → push_pair p source ≡ source ++ shown_pair p
unfolding push_pair decode_query_value
push_pair-shown (key, []) source = refl
push_pair-shown (key, c ∷ value) source = refl

push_pairs-joined :
    (first : Bool) (p : Pair) (ps : List Pair) (source : Bytes)
    → push_pairs first (p ∷ ps) source
      ≡ (if first then source else source ++ b'&' ∷ []) ++ joined_pairs (p ∷ ps)
unfolding push_pairs
push_pairs-joined first p [] source = push_pair-shown p _
push_pairs-joined first p (q ∷ ps) source =
    let before = if first then source else source ++ b'&' ∷ [] in
    rw (push_pairs, push_pair-shown p before, push_pairs-joined false q ps (before ++ shown_pair p))
      (ap (λ t. t ++ joined_pairs (q ∷ ps)) (append_assoc before (shown_pair p) (b'&' ∷ []))
        ∙ append_assoc before (shown_pair p ++ b'&' ∷ []) _
        ∙ ap (λ t. before ++ t) (append_assoc (shown_pair p) (b'&' ∷ []) _))

insert_pair-cons :
    (p : Pair) (ps : List Pair) → (q : Pair) × (qs : List Pair) × (insert_pair p ps ≡ q ∷ qs)
unfolding insert_pair
insert_pair-cons p [] = (p, [], refl)
insert_pair-cons p (r ∷ ps) = elim (Bool-cases (bytes_le p.0 r.0)) [
  | inl e ↦ (p, r ∷ ps, rw (insert_pair, e) refl)
  | inr e ↦ (r, insert_pair p ps, rw (insert_pair, e) refl)
]

sort_pairs-cons :
    (p : Pair) (ps : List Pair) → (q : Pair) × (qs : List Pair) × (sort_pairs (p ∷ ps) ≡ q ∷ qs)
unfolding sort_pairs
sort_pairs-cons p ps = insert_pair-cons p (sort_pairs ps)

pub push_query-IsQuery :
    (pairs : List Pair) (source : Bytes)
    → (text : Bytes) × (push_query pairs source ≡ source ++ text) × IsQuery pairs text
unfolding push_query
push_query-IsQuery [] source = (
  [],
  sym (append-nil source),
  record { sorted = []; by_key = tt; stable = λ k. refl; text_is = refl },
)
push_query-IsQuery (p ∷ ps) source =
    let (q, qs, e) = sort_pairs-cons p ps in
    (
      b'?' ∷ joined_pairs (q ∷ qs),
      rw (e, push_pairs-joined true q qs (source ++ b'?' ∷ [])) (append_assoc source (b'?' ∷ []) _),
      record {
        sorted = q ∷ qs;
        by_key = rw e at (sort_pairs-IsByKey (p ∷ ps));
        stable = λ k. rw e at (under-sort_pairs k (p ∷ ps));
        text_is = refl;
      },
    )
