-- ===== src/Process/Resolver/Scan/Tests.antt =====
-- A scan of one file, with a target under its own digest and one under a declared digest.
use archivindex_wbm.Common.{
  ℕ, true, false, not, ◌||◌, ◌&&◌, ◌≡◌, refl, List, [], ◌∷◌, none, some, Result, ok, codes, length,
  map, ltb, arith, ◌⊎◌, inr, cons-ne-nil,
}
use archivindex_wbm.Digest.Orders.{byte_order}
use archivindex_wbm.Digest.{valid_digest, invalid_digest}
use archivindex_wbm.Process.Resolver.Candidates.Ranked.{
  of_ranked, add_all, insert_all, add_all-Permᴰ,
}
use archivindex_wbm.Process.Resolver.Candidates.Resolved.{IsResolution, to_resolution-IsResolution}
use archivindex_wbm.Process.Resolver.Candidates.{Group, to_resolution}
use archivindex_wbm.Process.Resolver.Scan.Hits.{any, has, is_hit}
use archivindex_wbm.Process.Resolver.Scan.Lookups.{
  Reached, fresh, loaded, known, resolved, IsLookup, AreFound, Reached-lookup,
}
use archivindex_wbm.Process.Resolver.Scan.Missing.{resolve-missing}
use archivindex_wbm.Process.Resolver.Scan.{
  Resolver, no_digests, CdxItem, load_digests, read_invalid_digests, resolve, lookup, found,
  missing,
}
use archivindex_wbm.Process.Resolver.{
  ResolvedMetadata, ResolvedMetadataSet, Resolution, ResolutionWarnings, metadata_order,
}
use archivindex_wbm.Process.Sorted.Sets.{IsAscending}
use archivindex_wbm.Process.Sorted.{Order, contains, get}
use mathlib.Core.List.Permᴰ

-- Timestamps as seconds.
second_irreflexive : (a : ℕ) → ltb a a ≡ false
second_irreflexive a = ground arith

second_trans : (a b c : ℕ) → ltb a b ≡ true → ltb b c ≡ true → ltb a c ≡ true
second_trans a b c h k = ground arith

second_total : (a b : ℕ) → ltb a b ≡ false → ltb b a ≡ false → a ≡ b
second_total a b h k = ground arith

abbrev seconds : Order
seconds = record {
  Key = ℕ;
  lt = ltb;
  irreflexive = second_irreflexive;
  transitive = second_trans;
  total = second_total;
}

abbrev earlier : ResolvedMetadata seconds
earlier = record { timestamp = 1000; url = codes "http://example.com/1" }

abbrev later : ResolvedMetadata seconds
later = record { timestamp = 2000; url = codes "http://example.com/2" }

abbrev declared : Group seconds
declared = (invalid_digest (codes "3I42H3S6NNFQ2MSVX7XZKYAYSCX5QBYJ="), earlier ∷ [])

abbrev own : CdxItem seconds
own = record { digest = valid_digest (1 ∷ 2 ∷ []); timestamp = 1000; original = codes "http://a/" }

abbrev other : CdxItem seconds
other = record {
  digest = invalid_digest (codes "X");
  timestamp = 2000;
  original = codes "http://b/";
}

abbrev files : List (List (CdxItem seconds))
files = (own ∷ other ∷ []) ∷ []

abbrev targets : Resolver seconds
targets = record {
  todo_digests = (1 ∷ 2 ∷ []) ∷ (3 ∷ 4 ∷ []) ∷ (5 ∷ 6 ∷ []) ∷ [];
  known_invalid_digests = (invalid_digest (codes "X"), (3 ∷ 4 ∷ []) ∷ []) ∷ [];
  done = [];
}

abbrev scanned : Resolver seconds
scanned =
    (resolve seconds {E = ℕ}
      (read_invalid_digests seconds
        (load_digests seconds (no_digests seconds) ((1 ∷ 2 ∷ []) ∷ (3 ∷ 4 ∷ []) ∷ [])).1
        ((3 ∷ 4 ∷ [], invalid_digest (codes "X")) ∷ [])).1
      (map ok files)).1

scanned-Reached : Reached seconds scanned
scanned-Reached = resolved (map ok files) (known _ (loaded _ fresh))

add_all-Permᴰ_example :
    (add_all seconds (of_ranked seconds [] []) (later ∷ earlier ∷ [])
      ≡ of_ranked seconds (insert_all seconds [] (later ∷ earlier ∷ [])) [])
    × (add_all seconds (of_ranked seconds [] []) (earlier ∷ later ∷ [])
        ≡ add_all seconds (of_ranked seconds [] []) (later ∷ earlier ∷ []))
    × IsAscending (metadata_order seconds) (insert_all seconds [] (later ∷ earlier ∷ []))
add_all-Permᴰ_example =
    add_all-Permᴰ seconds [] [] (later ∷ earlier ∷ []) (earlier ∷ later ∷ []) tt
      (Permᴰ.swap refl refl)

to_resolution-IsResolution_example :
    (r : Resolution seconds) × (w : ResolutionWarnings seconds) × (to_resolution seconds
        (of_ranked seconds [] (declared ∷ []))
        (1 ∷ 2 ∷ [])
      ≡ some (r, w))
    × IsResolution seconds (1 ∷ 2 ∷ []) [] (declared ∷ []) r w
to_resolution-IsResolution_example =
    to_resolution-IsResolution seconds (1 ∷ 2 ∷ []) [] (declared ∷ []) ((earlier, [], refl, tt), tt)
      (inr (cons-ne-nil _ _))

resolve-missing_example :
    (r' : Resolver seconds) × (resolve seconds {E = ℕ} targets (map ok files)
      ≡ (ok (length (map {B = Result (List (CdxItem seconds)) ℕ} ok files)), r'))
    × (contains byte_order (5 ∷ 6 ∷ []) (missing seconds r') ≡ (
        contains byte_order (5 ∷ 6 ∷ []) targets.todo_digests
        && not (
            has seconds (5 ∷ 6 ∷ []) targets.done
            || any (λ items. any (is_hit seconds targets (5 ∷ 6 ∷ [])) items) files)))
resolve-missing_example = resolve-missing seconds {E = ℕ} files targets (5 ∷ 6 ∷ [])

Reached-lookup_example :
    ((all : List (Resolution seconds × ResolutionWarnings seconds)) × (found seconds scanned.done
        ≡ some all)
      × AreFound seconds scanned.done all)
    × (((get byte_order (3 ∷ 4 ∷ []) scanned.done ≡ none)
          × (lookup seconds scanned (3 ∷ 4 ∷ []) ≡ some none))
        ⊎ ((s : ResolvedMetadataSet seconds) × (r : Resolution seconds) × (w : ResolutionWarnings
              seconds)
            × (get byte_order (3 ∷ 4 ∷ []) scanned.done ≡ some s)
            × (lookup seconds scanned (3 ∷ 4 ∷ []) ≡ some (some (r, w)))
            × IsLookup seconds (3 ∷ 4 ∷ []) s r w))
Reached-lookup_example = Reached-lookup seconds (3 ∷ 4 ∷ []) scanned-Reached
