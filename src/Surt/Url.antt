-- ===== src/Surt/Url.antt =====
-- crates/wbm/src/surt.rs: `Surt::from_url`, the canonicalization of a URL, and `canonical_url`, the
-- URL that a key is shown as.
pub mod Host
pub mod Labels
pub mod Query
pub mod Slash
pub mod Key
use archivindex_wbm.Common.Results.{◌>>=◌}
use archivindex_wbm.Common.{
  ℕ, ◌+◌, Bool, true, false, not, ◌&&◌, ◌||◌, List, [], ◌∷◌, ◌++◌, Option, none, some, Result, ok,
  err, Bytes, codes, length, reverse, split_last, bytes_eq, ltb, ◌==◌, if◌then◌else◌,
}
use archivindex_wbm.Surt.Decode.{decode_path, decode_query_value}
use archivindex_wbm.Surt.{
  comma, close, max_part, Error, invalid_domain_part, invalid_url, unexpected_url, SharedSurts,
  Surt, owned, from_validated,
}

-- The package `url`, which is not part of the repository, and `str::to_lowercase` with its Unicode
-- tables.
pub record Urls : Type 1 where
  pub Url : Type 0
  pub ParseError : Type 0
  pub to_lowercase : Bytes → Bytes
  pub parse : Bytes → Result Url ParseError
  pub scheme : Url → Bytes
  pub domain : Url → Option Bytes
  pub port : Url → Option ℕ
  pub path : Url → Bytes
  pub query_pairs : Url → List (Bytes × Bytes)

-- `str::split('.')`: at least one label, the first one being read.
push_front : ℕ → List Bytes → List Bytes
push_front c [] = (c ∷ []) ∷ []
push_front c (l ∷ ls) = (c ∷ l) ∷ ls

pub split_dots : Bytes → List Bytes
split_dots [] = [] ∷ []
split_dots (c ∷ s) = let rest = split_dots s in if c == b'.' then [] ∷ rest else push_front c rest

-- A label that does not enter the key.
pub is_dropped : Bytes → Bool
is_dropped label = bytes_eq label (codes "www") || bytes_eq label []

-- The loop over the labels, with the text and the lengths recorded.
pub push_labels : {E : Type 0} → List Bytes → Bytes → List ℕ → Result (Bytes × List ℕ) (Error E)
push_labels [] source lens = ok (source, lens)
push_labels (l ∷ ls) source lens =
    let skip = push_labels ls source lens in
    let pushed = push_labels ls (source ++ (l ++ comma ∷ [])) (lens ++ length l ∷ []) in
    if is_dropped l
    then skip
    else if ltb max_part (length l)
    then err (invalid_domain_part l)
    else pushed

-- `String::pop`, at a last character of one byte.
pub pop : Bytes → Bytes
pop source = elim (split_last source) [ none ↦ [] | some (before, c) ↦ before ]

pub ends_with : ℕ → Bytes → Bool
ends_with c source = elim (split_last source) [ none ↦ false | some (before, d) ↦ d == c ]

pub pop_slash : Bytes → Bytes
pop_slash source = if ends_with b'/' source then pop source else source

-- `str::cmp` as a test: `a` does not stand behind `b`.
pub bytes_le : Bytes → Bytes → Bool
bytes_le [] b = true
bytes_le (x ∷ a) [] = false
bytes_le (x ∷ a) (y ∷ b) = ltb x y || (x == y && bytes_le a b)

-- `sort_by` on the keys, which is stable.
pub insert_pair : Bytes × Bytes → List (Bytes × Bytes) → List (Bytes × Bytes)
insert_pair p [] = p ∷ []
insert_pair p (q ∷ qs) = if bytes_le p.0 q.0 then p ∷ q ∷ qs else q ∷ insert_pair p qs

pub sort_pairs : List (Bytes × Bytes) → List (Bytes × Bytes)
sort_pairs [] = []
sort_pairs (p ∷ ps) = insert_pair p (sort_pairs ps)

pub push_pair : Bytes × Bytes → Bytes → Bytes
push_pair (key, value) source =
    source ++ (key ++ (b'=' ∷ (if bytes_eq value [] then [] else decode_query_value value)))

-- The loop over the parameters; the flag is `first`.
pub push_pairs : Bool → List (Bytes × Bytes) → Bytes → Bytes
push_pairs first [] source = source
push_pairs first (p ∷ ps) source =
    push_pairs false ps (push_pair p (if first then source else source ++ b'&' ∷ []))

pub push_query : List (Bytes × Bytes) → Bytes → Bytes
push_query [] source = source
push_query (p ∷ ps) source = push_pairs true (sort_pairs (p ∷ ps)) (source ++ b'?' ∷ [])

pub is_web : Bytes → Bool
is_web scheme = bytes_eq scheme (codes "http") || bytes_eq scheme (codes "https")

module _ (lib : SharedSurts) (urls : Urls) where
  open lib use {SharedSurt}
  open urls use {Url, ParseError, to_lowercase, parse, scheme, domain, port, path, query_pairs}

  -- The accepted case of the `match`, with the labels pushed.
  finish_url : Bytes → Url → Bytes × List ℕ → Result (Surt SharedSurt) (Error ParseError)
  finish_url input url (source, []) = err (unexpected_url input)
  finish_url input url (source, len ∷ lens) =
      let hosted = (pop source ++ close ∷ []) ++ decode_path (path url) in
      ok (from_validated lib (owned (push_query (query_pairs url) (pop_slash hosted))) (len ∷ lens))

  match_url : Bytes → Url → Option Bytes → Option ℕ → Result (Surt SharedSurt) (Error ParseError)
  match_url input url (some domain_name) none =
      if is_web (scheme url)
      then (push_labels (reverse (split_dots domain_name)) [] [] >>= finish_url input url)
      else err (unexpected_url input)
  match_url input url _ _ = err (unexpected_url input)

  parse_url : Bytes → Result Url (Error ParseError)
  parse_url input = elim (parse input) [ ok url ↦ ok url | err e ↦ err (invalid_url e) ]

  unfoldable pub from_url : Bytes → Result (Surt SharedSurt) (Error ParseError)
  unfolding parse_url match_url finish_url is_web push_labels is_dropped split_dots push_front pop
      pop_slash ends_with push_query push_pairs push_pair sort_pairs insert_pair bytes_le
  from_url input = do
    url ← parse_url (to_lowercase input)
    match_url input url (domain url) (port url)
