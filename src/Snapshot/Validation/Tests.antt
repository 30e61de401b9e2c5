-- ===== src/Snapshot/Validation/Tests.antt =====
-- Two lines validated.
use archivindex_wbm.Common.{true, List, [], ◌∷◌, ◌≡◌, ◌↔◌, none, ok, Bytes, codes, length, map}
use archivindex_wbm.Snapshot.Samples.{
  sample_fields, sample_sha1, sample-IsStreaming, sample_context,
}
use archivindex_wbm.Snapshot.Validation.Order.{total, IsInOrder, validate_lines-IsInOrder}
use archivindex_wbm.Snapshot.Validation.{
  SnapshotLineValidation, Location, is_successful, validate_lines,
}

abbrev lines : List Location
lines =
    (1, codes "{\"digest\":\"{\"id\":1}\r\nBBBBBBBBBBAAAAAAAAAAAA\",\"content\":{\"id\":1}}")
    ∷ (2, codes "nonsense")
    ∷ []

validate_lines-IsInOrder_example :
    (v : SnapshotLineValidation) × (validate_lines sample_fields sample_sha1 {E = Bytes}
        sample_context
        (map ok lines)
      ≡ ok v)
    × (total v ≡ length lines)
    × (is_successful v ≡ true
        ↔ IsInOrder sample_fields sample_sha1 sample-IsStreaming sample_context none lines)
validate_lines-IsInOrder_example =
    validate_lines-IsInOrder sample_fields sample_sha1 sample-IsStreaming {E = Bytes} sample_context
      lines
