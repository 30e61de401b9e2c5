-- ===== src/Surt/Canonical.antt =====
-- crates/wbm/src/surt.rs: `canonical_url`, and the `Display` of `SurtCanonicalUrl`. The model returns
-- the text that is written; a sink that refuses a write is left out. `none` is a panic of the
-- iterator.
pub mod Shown
use archivindex_wbm.Common.Options.{◌>>=◌}
use archivindex_wbm.Common.{
  ℕ, zero, suc, ◌+◌, [], ◌∷◌, ◌++◌, Option, none, some, Bytes, codes, length, ◌==◌, if◌then◌else◌,
}
use archivindex_wbm.Surt.Parts.{DomainNamePartIter, next, next_back, domain_name_parts, path}
use archivindex_wbm.Surt.{SharedSurts, Surt}

-- `str::split_once`, at a byte.
unfoldable pub split_once : ℕ → Bytes → Option (Bytes × Bytes)
split_once b [] = none
split_once b (c ∷ s) =
    if c == b
    then some ([], s)
    else elim (split_once b s) [ none ↦ none | some (before, after) ↦ some (c ∷ before, after) ]

-- A part's label, and its port if it carries one.
pub split_port : Bytes → Bytes × Option Bytes
split_port part = elim (split_once b':' part) [
  | some (label, port) ↦ (label, some port)
  | none ↦ (part, none)
]

-- `for domain_part in parts`, over the reversed iterator. A round takes one part: the fuel is the
-- number of parts, and out of fuel the loop would be `none`.
write_parts : ℕ → DomainNamePartIter → Option Bytes
write_parts zero it = none
write_parts (suc fuel) it = do
  (part, rest) ← next_back it
  elim part [
    | none ↦ some []
    | some p ↦ do written ← write_parts fuel rest; some (p ++ (b'.' ∷ written))
  ]

pub port_text : Option Bytes → Bytes
port_text none = []
port_text (some port) = b':' ∷ port

or_empty : Option Bytes → Bytes
or_empty none = []
or_empty (some s) = s

-- The host with its port, by the first part and the leftmost one.
write_host : ℕ → Option Bytes → Option Bytes → DomainNamePartIter → Option (Bytes × Option Bytes)
write_host fuel first (some leftmost) parts = do
  let (label, port) = split_port leftmost
  middle ← write_parts fuel parts
  some (label ++ (b'.' ∷ (middle ++ or_empty first)), port)
write_host fuel (some only) none parts = some (split_port only)
write_host fuel none none parts = some ([], none)

module _ (lib : SharedSurts) where
  open lib use {SharedSurt}

  unfoldable pub canonical_url : Surt SharedSurt → Option Bytes
  unfolding write_host write_parts split_port split_once or_empty port_text
  canonical_url t = do
    parts ← domain_name_parts lib t
    (first, parts') ← next parts
    (leftmost, parts'') ← next_back parts'
    (host, port) ← write_host (length parts''.lens + 1) first leftmost parts''
    rest ← path lib t
    some (codes "https://" ++ (host ++ (port_text port ++ rest)))
