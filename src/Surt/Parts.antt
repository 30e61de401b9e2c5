-- ===== src/Surt/Parts.antt =====
-- crates/wbm/src/surt.rs: `domain_name_parts`, `path` and the double-ended iterator
-- `DomainNamePartIter` over the parts. A slice out of range or a subtraction below 0 would panic in
-- the source: the functions return `none` there.
pub mod Deque
use archivindex_wbm.Common.Options.{◌>>=◌}
use archivindex_wbm.Common.{
  ℕ, ◌+◌, ◌-◌, List, [], ◌∷◌, Option, none, some, Bytes, length, slice_to, slice_from, sum,
  split_last, checked_sub, ltb, if◌then◌else◌,
}
use archivindex_wbm.Surt.{SharedSurts, Surt, as_str}

pub path_start : {SharedSurt : Type 0} → Surt SharedSurt → ℕ
path_start t = length t.domain_name_part_lens + sum t.domain_name_part_lens

-- `DomainNamePartIter`: the text not yet passed, and the lengths of the parts in it.
pub record DomainNamePartIter : Type 0 where
  pub source : Bytes
  pub lens : List ℕ

advance : Bytes → ℕ → List ℕ → Option (Option Bytes × DomainNamePartIter)
advance source len lens = do
  part ← slice_to len source
  rest ← if ltb len (length source) then slice_from (len + 1) source else slice_from len source
  some (some part, record { source = rest; lens = lens })

retreat : Bytes → ℕ → List ℕ → Option (Option Bytes × DomainNamePartIter)
retreat source len lens = do
  new_len ← checked_sub (length source) len
  part ← slice_from new_len source
  rest ← if ltb 0 new_len then slice_to (new_len - 1) source else slice_to new_len source
  some (some part, record { source = rest; lens = lens })

next_on : Bytes → List ℕ → Option (Option Bytes × DomainNamePartIter)
next_on source [] = some (none, record { source = source; lens = [] })
next_on source (len ∷ lens) = advance source len lens

next_back_on : Bytes → List ℕ → Option (List ℕ × ℕ) → Option (Option Bytes × DomainNamePartIter)
next_back_on source lens none = some (none, record { source = source; lens = lens })
next_back_on source lens (some (before, len)) = retreat source len before

-- `next`. A slice out of range would panic: that is `none`; `some (none, _)` is the end.
unfoldable pub next : DomainNamePartIter → Option (Option Bytes × DomainNamePartIter)
unfolding next_on advance
next it = next_on it.source it.lens

-- `next_back`.
unfoldable pub next_back : DomainNamePartIter → Option (Option Bytes × DomainNamePartIter)
unfolding next_back_on retreat
next_back it = next_back_on it.source it.lens (split_last it.lens)

module _ (lib : SharedSurts) where
  open lib use {SharedSurt}

  -- `&self.as_str()[..self.path_start() - 1]` and `&self.as_str()[self.path_start()..]`.
  unfoldable pub domain_name_parts : Surt SharedSurt → Option DomainNamePartIter
  unfolding path_start
  domain_name_parts t = do
    end ← checked_sub (path_start t) 1
    source ← slice_to end (as_str lib t)
    some (record { source = source; lens = t.domain_name_part_lens })

  unfoldable pub path : Surt SharedSurt → Option Bytes
  unfolding path_start
  path t = slice_from (path_start t) (as_str lib t)
