-- ===== src/Surt/Parse.antt =====
-- crates/wbm/src/surt.rs: what `parse_str` accepts, and what it records.
use native.Mathlib.Nat.{zero-add}
use archivindex_wbm.Common.Results.{◌>>=◌}
use archivindex_wbm.Common.{
  ℕ, ◌+◌, ◌≤◌, true, false, List, [], ◌∷◌, ◌++◌, ◌≡◌, ◌≢◌, refl, sym, ap, ◌∙◌, ◌⊎◌, inl, inr, ok,
  err, Bytes, All, length, map, append_assoc, length-append, arith, Bool-cases, Option-cases,
  >>=-ok,
}
use archivindex_wbm.Surt.{
  is_part_byte, comma, close, max_part, Error, invalid_surt, scan_parts, SharedSurts, Surt, as_str,
  represent, representation_str, borrowed, owned, from_validated, parse_str,
}
use archivindex_wbm.Surt.Text.{IsPart, join_parts, SplitsAs}

module _ {ParseError : Type 0} (input : Bytes) where
  -- The loop over the bytes of one part.
  scan_part :
      (p s : Bytes) (len : ℕ) (lens : List ℕ)
      → All (λ c. is_part_byte c ≡ true) p
      → len + length p ≤ max_part
      → scan_parts {ParseError = ParseError} input (p ++ s) len lens
        ≡ scan_parts input s (len + length p) lens
  unfolding scan_parts
  scan_part [] s len lens h fits = ap (λ k. scan_parts input s k lens) (omega arith)
  scan_part (c ∷ p) s len lens h fits = ground (arith, scan_part p s (len + 1) lens h.1)

  scan_comma :
      (s : Bytes) (len : ℕ) (lens : List ℕ)
      → 1 ≤ len
      → scan_parts {ParseError = ParseError} input (comma ∷ s) len lens
        ≡ scan_parts input s 0 (lens ++ len ∷ [])
  unfolding scan_parts is_part_byte
  scan_comma s len lens h = ground arith

  scan_close :
      (s : Bytes) (len : ℕ) (lens : List ℕ)
      → 1 ≤ len
      → scan_parts {ParseError = ParseError} input (close ∷ s) len lens ≡ ok (lens ++ len ∷ [])
  unfolding scan_parts is_part_byte
  scan_close s len lens h = ground arith

  scan_text :
      (first : Bytes) (others : List Bytes) (rest : Bytes) (lens : List ℕ)
      → All IsPart (first ∷ others)
      → scan_parts {ParseError = ParseError} input
          (join_parts (first ∷ others) ++ (close ∷ rest))
          0
          lens
        ≡ ok (lens ++ map length (first ∷ others))
  scan_text first [] rest lens (h, _) =
      scan_part first (close ∷ rest) 0 lens h.bytes (omega (arith, h.fits))
      ∙ rw zero-add (scan_close rest (length first) lens h.nonempty)
  scan_text first (p ∷ ps) rest lens (h, hs) = rw append_assoc (
      scan_part first _ 0 lens h.bytes (omega (arith, h.fits))
      ∙ rw zero-add (scan_comma _ (length first) lens h.nonempty)
      ∙ scan_text p ps rest (lens ++ length first ∷ []) hs
      ∙ rw append_assoc)

-- The loop stopped with success, `cur` being what it had read of the current part.
record Reads (cur s : Bytes) (lens out : List ℕ) : Type 0 where
  first : Bytes
  others : List Bytes
  rest : Bytes
  splits : SplitsAs (cur ++ s) first others rest
  lengths : out ≡ lens ++ map length (first ∷ others)

abbrev AllParts : Bytes → Type 0
AllParts = All (λ c. is_part_byte c ≡ true)

Reads-part :
    (c : ℕ) (cur s : Bytes) (lens out : List ℕ)
    → Reads (cur ++ c ∷ []) s lens out
    → Reads cur (c ∷ s) lens out
Reads-part c cur s lens out r = record {
  first = r.first;
  others = r.others;
  rest = r.rest;
  splits = record {
    text = sym (append_assoc cur (c ∷ []) s) ∙ r.splits.text;
    parts = r.splits.parts;
  };
  lengths = r.lengths;
}

Reads-comma :
    (cur s : Bytes) (lens out : List ℕ)
    → IsPart cur
    → Reads [] s (lens ++ length cur ∷ []) out
    → Reads cur (comma ∷ s) lens out
Reads-comma cur s lens out h r = record {
  first = cur;
  others = r.first ∷ r.others;
  rest = r.rest;
  splits = record {
    text = rw r.splits.text (sym (append_assoc cur _ _));
    parts = (h, r.splits.parts);
  };
  lengths = r.lengths ∙ append_assoc lens _ _;
}

Reads-close :
    (cur s : Bytes) (lens : List ℕ)
    → IsPart cur
    → Reads cur (close ∷ s) lens (lens ++ length cur ∷ [])
Reads-close cur s lens h = record {
  first = cur;
  others = [];
  rest = s;
  splits = record { text = refl; parts = (h, tt) };
  lengths = refl;
}

AllParts-concat :
    (c : ℕ) (cur : Bytes) → AllParts cur → is_part_byte c ≡ true → AllParts (cur ++ c ∷ [])
AllParts-concat c [] h hc = (hc, tt)
AllParts-concat c (x ∷ cur) h hc = (h.0, AllParts-concat c cur h.1 hc)

module _ {ParseError : Type 0} (input : Bytes) where
  scan_part_byte :
      (c : ℕ) (s : Bytes) (len : ℕ) (lens out : List ℕ)
      → is_part_byte c ≡ true
      → scan_parts {ParseError = ParseError} input (c ∷ s) len lens ≡ ok out
      → (len ≢ max_part) × (scan_parts {ParseError = ParseError} input s (len + 1) lens ≡ ok out)
  unfolding scan_parts
  scan_part_byte c s len lens out h e = ground arith

  scan_separator :
      (c : ℕ) (s : Bytes) (len : ℕ) (lens out : List ℕ)
      → is_part_byte c ≡ false
      → scan_parts {ParseError = ParseError} input (c ∷ s) len lens ≡ ok out
      → (1 ≤ len)
        × (((c ≡ comma)
              × (scan_parts {ParseError = ParseError} input s 0 (lens ++ len ∷ []) ≡ ok out))
            ⊎ ((c ≡ close) × (out ≡ lens ++ len ∷ [])))
  unfolding scan_parts
  scan_separator c s len lens out h e = ground arith

  scan-Reads :
      (s cur : Bytes) (lens out : List ℕ)
      → AllParts cur
      → length cur ≤ max_part
      → scan_parts {ParseError = ParseError} input s (length cur) lens ≡ ok out
      → Reads cur s lens out
  scan-Reads [] cur lens out h fits e = unfold scan_parts in cc
  scan-Reads (c ∷ s) cur lens out h fits e = elim (Bool-cases (is_part_byte c)) [
    | inl part ↦
        let (room, later) = scan_part_byte c s (length cur) lens out part e in
        let longer : length (cur ++ c ∷ []) ≡ length cur + 1 =
          omega (arith, length-append cur (c ∷ [])) in
        Reads-part c cur s lens out (
          scan-Reads s (cur ++ c ∷ []) lens out (AllParts-concat c cur h part) (omega arith)
            (rw longer later))
    | inr other ↦
        let (nonempty, ends) = scan_separator c s (length cur) lens out other e in
        let own : IsPart cur = record { bytes = h; nonempty = nonempty; fits = fits } in
        elim ends [
          | inl (at_comma, later) ↦ rw at_comma (
              Reads-comma cur s lens out own
                (scan-Reads s [] (lens ++ length cur ∷ []) out (tt) (omega arith) later))
          | inr (at_close, done) ↦ rw (at_close, done) (Reads-close cur s lens own)
        ]
  ]

module _ (lib : SharedSurts) where
  open lib use {SharedSurt}

  pub represent_borrowed : (s : Bytes) → representation_str lib (represent lib (borrowed s)) ≡ s
  unfolding representation_str represent
  represent_borrowed s = elim (Option-cases (lib.parse s)) [
    | inl e ↦ rw (e, represent)
    | inr (k, e) ↦ rw (e, represent) (lib.as_str-parse s k e)
  ]

  pub represent_owned : (s : Bytes) → representation_str lib (represent lib (owned s)) ≡ s
  unfolding representation_str represent
  represent_owned s = elim (Option-cases (lib.from_str s)) [
    | inl e ↦ rw (e, represent)
    | inr (k, e) ↦ rw (e, represent) (lib.as_str-from_str s k e)
  ]

  scan_refused :
      {ParseError : Type 0} (input s : Bytes) (len : ℕ) (lens : List ℕ) (e : Error ParseError)
      → scan_parts input s len lens ≡ err e
      → e ≡ invalid_surt input
  unfolding scan_parts
  scan_refused input [] len lens e h = cc
  scan_refused input (c ∷ s) len lens e h =
      ground
        (arith, scan_refused input s (len + 1) lens e, scan_refused input s 0 (lens ++ len ∷ []) e)

  -- The key `t` is a parse of `input`: it keeps the text, and records the lengths of its parts.
  pub record IsParse (input : Bytes) (t : Surt SharedSurt) : Type 0 where
    pub first : Bytes
    pub others : List Bytes
    pub rest : Bytes
    pub splits : SplitsAs input first others rest
    pub text : as_str lib t ≡ input
    pub lens : t.domain_name_part_lens ≡ map length (first ∷ others)

  -- A key that the parser accepts is a text of well-formed parts, joined by commas and closed by a
  -- parenthesis, with a rest; its text is the input, and its lengths are those of the parts.
  pub parse_str_sound :
      {ParseError : Type 0} (input : Bytes) (t : Surt SharedSurt)
      → parse_str lib {ParseError = ParseError} input ≡ ok t
      → IsParse input t
  unfolding parse_str from_validated as_str
  parse_str_sound {ParseError} input t e =
      let (lens, made, scanned) =
        >>=-ok _ (scan_parts {ParseError = ParseError} input input 0 []) e in
      let r = scan-Reads input input [] [] lens (tt) (omega arith) scanned in
      let same : from_validated lib (borrowed input) lens ≡ t = cc in
      rw (← same) (record {
        first = r.first;
        others = r.others;
        rest = r.rest;
        splits = r.splits;
        text = represent_borrowed input;
        lens = r.lengths;
      })

  -- Every text of well-formed parts, joined by commas and closed by a parenthesis, whatever follows,
  -- is accepted, with the lengths of its parts.
  pub parse_str_complete :
      {ParseError : Type 0} (input first : Bytes) (others : List Bytes) (rest : Bytes)
      → SplitsAs input first others rest
      → parse_str lib {ParseError = ParseError} input
        ≡ ok (from_validated lib (borrowed input) (map length (first ∷ others)))
  unfolding parse_str
  parse_str_complete input first others rest h =
      ap (λ m. m >>= λ lens. ok (from_validated lib (borrowed input) lens))
        (ap (λ s. scan_parts input s 0 []) h.text ∙ scan_text input first others rest [] h.parts)

  -- A refusal carries the input, and the input is no text of well-formed parts.
  pub parse_str_refuses :
      {ParseError : Type 0} (input : Bytes) (e : Error ParseError)
      → parse_str lib input ≡ err e
      → (e ≡ invalid_surt input)
        × ((first : Bytes) (others : List Bytes) (rest : Bytes)
            → ¬ (SplitsAs input first others rest))
  parse_str_refuses {ParseError} input e h = (
    unfold parse_str in ground (arith, scan_refused input input 0 [] e),
    λ first others rest split.
        let accepted = parse_str_complete {ParseError = ParseError} input first others rest split in
        cc,
  )
