-- ===== src/Snapshot/Inference/Tests.antt =====
-- A context made, and one inferred from a line.
use archivindex_wbm.Common.{
  ℕ, List, [], ◌∷◌, ◌≡◌, ◌≢◌, refl, some, Result, ok, Bytes, codes, length,
}
use archivindex_wbm.Snapshot.Inference.First.{new-IsWhitespace, IsFirst, infer-IsFirst}
use archivindex_wbm.Snapshot.Inference.{
  new_unchecked, new, candidates, is_ok, add_sample, collect, all_verify, try_candidates, infer,
}
use archivindex_wbm.Snapshot.Exact.{
  expect, slice, parse_expected, parse_url, parse_content, default_format, parse_stamp,
  parse_format, parse,
}
use archivindex_wbm.Snapshot.Recovery.Encoding.{
  verify, feed, update_whitespace, invalid_closing_whitespace,
}
use archivindex_wbm.Snapshot.Recovery.Whitespace.{IsWhitespace}
use archivindex_wbm.Snapshot.Samples.{sample_fields, sample_sha1, sample-IsStreaming}
use archivindex_wbm.Snapshot.Validation.{Location}
use archivindex_wbm.Snapshot.{
  Snapshot, is_json_whitespace, has_explicit_closing_whitespace, closing_whitespace,
}

abbrev sample_lines : List (Result Location Bytes)
sample_lines =
    ok (1, codes "nonsense")
    ∷ ok (2, codes "{\"digest\":\"{\"id\":1}\r\nBBBBBBBBBBAAAAAAAAAAAA\",\"content\":{\"id\":1}}")
    ∷ []

made : new {Metadata = Unit {0}} (codes "\r\n") ≡ ok (new_unchecked (codes "\r\n"))
unfolding new invalid_closing_whitespace is_json_whitespace
made = refl

inferred : infer sample_fields sample_sha1 sample_lines 1 ≡ ok (some (new_unchecked (codes "\r\n")))
unfolding infer collect add_sample all_verify try_candidates is_ok verify feed update_whitespace
    invalid_closing_whitespace is_json_whitespace closing_whitespace has_explicit_closing_whitespace
    parse expect slice parse_expected parse_url parse_content default_format parse_stamp
    parse_format new_unchecked
inferred = refl

new-IsWhitespace_example :
    IsWhitespace ((new_unchecked {Metadata = Unit {0}} (codes "\r\n")).default_closing_whitespace)
    × ((new_unchecked {Metadata = Unit {0}} (codes "\r\n")).default_closing_whitespace
        ≡ codes "\r\n")
new-IsWhitespace_example =
    new-IsWhitespace (codes "\r\n") (new_unchecked {Metadata = Unit {0}} (codes "\r\n")) made

infer-IsFirst_example :
    (◌≢◌ {A = ℕ} 1 0)
    × ((samples : List (Snapshot sample_fields.Timestamp sample_fields.Metadata)) × (collect
            sample_fields sample_sha1 1 sample_lines []
          ≡ ok samples)
        × (length samples ≡ 1)
        × IsFirst sample_fields sample_sha1 sample-IsStreaming candidates samples
            (new_unchecked (codes "\r\n")))
infer-IsFirst_example =
    infer-IsFirst sample_fields sample_sha1 sample-IsStreaming sample_lines 1
      (new_unchecked (codes "\r\n")) inferred
