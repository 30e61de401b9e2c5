-- ===== src/Surt/Text.antt =====
-- The texts that are well-formed SURTs, described without the parser: parts joined by commas, the
-- terminator, and anything behind it.
use archivindex_wbm.Common.{◌++◌, ◌≤◌, ◌≡◌, true, List, [], ◌∷◌, Bytes, All, length}
use archivindex_wbm.Surt.{is_part_byte, comma, close, max_part}

pub record IsPart (p : Bytes) : Type 0 where
  pub bytes : All (λ c. is_part_byte c ≡ true) p
  pub nonempty : 1 ≤ length p
  pub fits : length p ≤ max_part

abbrev pub join_parts : List Bytes → Bytes
join_parts [] = []
join_parts (p ∷ []) = p
join_parts (p ∷ q ∷ ps) = p ++ (comma ∷ join_parts (q ∷ ps))

-- The text `s` reads as the parts `first ∷ others`, then `rest`.
pub record SplitsAs (s first : Bytes) (others : List Bytes) (rest : Bytes) : Type 0 where
  pub text : s ≡ join_parts (first ∷ others) ++ (close ∷ rest)
  pub parts : All IsPart (first ∷ others)
