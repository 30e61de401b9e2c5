-- ===== src/Snapshot/Exact/Display/Tests.antt =====
-- A snapshot shown and read back, and an object read.
use archivindex_wbm.Common.{◌++◌, ◌≡◌, ok, codes}
use archivindex_wbm.Snapshot.Exact.Display.RoundTrip.{stored, parse-display}
use archivindex_wbm.Snapshot.Exact.Display.Samples.{sample_line, sample_shown, sample-IsStorable}
use archivindex_wbm.Snapshot.Exact.Object.{read_object_value-IsObject}
use archivindex_wbm.Snapshot.Exact.{parse, read_object_value}
use archivindex_wbm.Snapshot.Samples.{
  object_text, object_text-IsObject, sample_fields, sample_laws, sample_context, sample_snapshot,
}
use archivindex_wbm.Snapshot.{closing_whitespace}

parse-display_example :
    (parse sample_fields sample_line
      ≡ ok (stored sample_fields sample_laws sample_context sample_snapshot))
    × (closing_whitespace sample_context
          (stored sample_fields sample_laws sample_context sample_snapshot)
        ≡ closing_whitespace sample_context sample_snapshot)
parse-display_example =
    parse-display sample_fields sample_laws sample_context sample_snapshot sample_line
      sample-IsStorable sample_shown

read_object_value-IsObject_example :
    read_object_value (object_text ++ codes ",\"content\":{}}")
    ≡ ok (object_text, codes ",\"content\":{}}")
read_object_value-IsObject_example =
    read_object_value-IsObject (codes ",\"content\":{}}") object_text-IsObject
