-- ===== src/Surt/Canonical/Shown.antt =====
-- crates/wbm/src/surt.rs: the URL that a parsed key is shown as.
use archivindex_wbm.Common.{
  cons-ne-nil, ℕ, zero, suc, ◌+◌, ◌<◌, List, [], ◌∷◌, ◌++◌, ◌≡◌, refl, ap, ◌∙◌, inl, inr, some, ok,
  Bytes, codes, length, map, length-append, append_assoc, last-cases, reverse, reverse-append,
  arith,
}
use archivindex_wbm.Surt.Canonical.{
  split_port, write_parts, port_text, write_host, or_empty, canonical_url,
}
use archivindex_wbm.Surt.Parse.{parse_str_sound}
use archivindex_wbm.Surt.Parts.Deque.{
  at_parts, next_cons, next_back_nil, next_back_concat, domain_name_parts-IsParse, path-IsParse,
}
use archivindex_wbm.Surt.Parts.{domain_name_parts, path}
use archivindex_wbm.Surt.Text.{SplitsAs}
use archivindex_wbm.Surt.{SharedSurts, Surt, parse_str}

-- Labels separated by dots.
abbrev pub join_dots : List Bytes → Bytes
join_dots [] = []
join_dots (l ∷ []) = l
join_dots (l ∷ k ∷ ls) = l ++ (b'.' ∷ join_dots (k ∷ ls))

-- The host of the parts `init ++ last ∷ []`, the last one being the leftmost label with the port.
abbrev pub shown_url : List Bytes → Bytes → Bytes → Bytes
shown_url init last rest =
    let (label, port) = split_port last in
    codes "https://" ++ (join_dots (label ∷ reverse init) ++ (port_text port ++ rest))

dots : List Bytes → Bytes
dots [] = []
dots (l ∷ ls) = l ++ (b'.' ∷ dots ls)

write_parts-dots :
    (n : ℕ) (ps : List Bytes)
    → length ps < n
    → write_parts n (at_parts ps) ≡ some (dots (reverse ps))
unfolding write_parts dots
write_parts-dots zero ps h = absurd (omega arith)
write_parts-dots (suc n) ps h = elim (last-cases ps) [
  | inl e ↦ rw e (rw next_back_nil refl)
  | inr (init, p, e) ↦
      let shorter : length init < n = omega (arith, length-append init (p ∷ []), ap length e) in
      rw (e, next_back_concat init p, write_parts-dots n init shorter, reverse-append init (p ∷ []))
]

join_dots-dots :
    (label : Bytes) (ls : List Bytes) (last : Bytes)
    → join_dots (label ∷ (ls ++ last ∷ [])) ≡ label ++ (b'.' ∷ (dots ls ++ last))
unfolding dots
join_dots-dots label [] last = refl
join_dots-dots label (l ∷ ls) last = rw (join_dots-dots l ls last, append_assoc)

length-map : (ps : List Bytes) → length (map length ps) ≡ length ps
length-map [] = refl
length-map (p ∷ ps) = ap suc (length-map ps)

-- What `write_host` writes behind a first part, for the parts between it and the leftmost one.
write_host-middle :
    (first last : Bytes) (before : List Bytes)
    → write_host (length (map length before) + 1) (some first) (some last) (at_parts before)
      ≡ some (join_dots ((split_port last).0 ∷ reverse (first ∷ before)), (split_port last).1)
unfolding write_host or_empty
write_host-middle first last before =
    let enough : length before < length (map length before) + 1 =
      omega (arith, length-map before) in
    rw (
      write_parts-dots (length (map length before) + 1) before enough,
      reverse-append (first ∷ []) before,
      join_dots-dots (split_port last).0 (reverse before) first,
    )

module _ (lib : SharedSurts) where
  open lib use {SharedSurt}

  canonical_url-parts :
      (t : Surt SharedSurt) (init : List Bytes) (last rest : Bytes)
      → domain_name_parts lib t ≡ some (at_parts (init ++ last ∷ []))
      → path lib t ≡ some rest
      → canonical_url lib t ≡ some (shown_url init last rest)
  unfolding canonical_url
  canonical_url-parts t [] last rest d p =
      rw (d, next_cons last [], next_back_nil, p) (unfold write_host in refl)
  canonical_url-parts t (first ∷ before) last rest d p = rw (
    d,
    next_cons first (before ++ last ∷ []),
    next_back_concat before last,
    write_host-middle first last before,
    p,
  )

  -- A parsed key is shown as an `https` URL: the labels in host order separated by dots, the port of
  -- the leftmost one behind the host, and the path unchanged.
  pub canonical_url-parse_str :
      {ParseError : Type 0} (input : Bytes) (t : Surt SharedSurt)
      → parse_str lib {ParseError = ParseError} input ≡ ok t
      → (first : Bytes) × (others : List Bytes) × (rest : Bytes) × (init : List Bytes)
        × (last : Bytes) × SplitsAs input first others rest
        × (first ∷ others ≡ init ++ last ∷ [])
        × (canonical_url lib t ≡ some (shown_url init last rest))
  canonical_url-parse_str {ParseError} input t e =
      let h = parse_str_sound lib {ParseError = ParseError} input t e in
      elim (last-cases (h.first ∷ h.others)) [
        | inl empty ↦ absurd (cons-ne-nil h.first h.others empty)
        | inr (init, last, parts) ↦ (
          h.first,
          h.others,
          h.rest,
          init,
          last,
          h.splits,
          parts,
          canonical_url-parts t init last h.rest
              (domain_name_parts-IsParse lib input t h ∙ ap (λ ps. some (at_parts ps)) parts)
              (path-IsParse lib input t h),
        )
      ]
