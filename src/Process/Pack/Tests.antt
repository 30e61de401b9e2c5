-- ===== src/Process/Pack/Tests.antt =====
-- Two files, of which one cannot be read.
use archivindex_wbm.Common.{
  ℕ, ◌≡◌, refl, List, [], ◌∷◌, Option, none, some, Result, ok, err, Bytes, codes, bytes_eq, Bool,
  true, if◌then◌else◌,
}
use archivindex_wbm.Io.Samples.{byte_output}
use archivindex_wbm.Io.{SnapshotWriter, open_writer}
use archivindex_wbm.Process.Pack.Names.{IsNamed, prepare-IsNamed}
use archivindex_wbm.Process.Pack.{DataFile, prepare, or_default, declare, with_expected}
use archivindex_wbm.Process.Skip.{read_verified, build_snapshot, built}
use archivindex_wbm.Snapshot.Recovery.Encoding.{
  decode, from_text, strip, has_line_break, is_text, following, len_utf8, unprocessed_snapshot,
}
use archivindex_wbm.Snapshot.Recovery.Whitespace.{IsWhitespace}
use archivindex_wbm.Snapshot.Recovery.{
  non_default_closing_whitespace, walk_default, run_len, walk_whitespace,
}
use archivindex_wbm.Snapshot.Samples.{sample_fields, sample_sha1, sample_context}
use archivindex_wbm.Snapshot.{utf8, FormatInfo, Snapshot, is_json_whitespace}

abbrev fails : Bytes → ℕ × Bytes
fails w = (0, w)

-- What is there under the path `a`.
abbrev file : Bytes
file = codes "{\"id\":1} \n"

abbrev read : Bytes → Result Bytes ℕ
read path = if bytes_eq path (codes "a") then ok file else err 1

abbrev name : Bytes
name = codes "{\"id\":1} \nBBBBBBBBBB"

abbrev expected : Bytes → Option Bytes
expected digest = some (codes "D")

abbrev detect : Bytes → Option (FormatInfo (Unit {0}))
detect bytes = none

abbrev empty_writer : SnapshotWriter sample_fields sample_sha1 byte_output fails
empty_writer = open_writer sample_fields sample_sha1 byte_output fails [] sample_context

abbrev chunks : List (List DataFile)
chunks = ((name, codes "a") ∷ []) ∷ ((name, codes "b") ∷ []) ∷ []

abbrev packed : Snapshot Bool (Unit {0})
packed = record {
  digest = name;
  expected_digest = some (codes "D");
  timestamp = none;
  url = none;
  format = record { name = utf8; closing_whitespace = some (codes " \n"); metadata = tt };
  content = codes "{\"id\":1}";
}

prepared :
    prepare sample_fields sample_sha1 byte_output fails read expected detect sample_context
      (name, codes "a")
    ≡ some (ok (packed, true))
unfolding prepare read_verified build_snapshot built or_default declare with_expected
    unprocessed_snapshot decode from_text strip has_line_break is_text following len_utf8
    non_default_closing_whitespace walk_default is_json_whitespace run_len walk_whitespace
prepared = refl

default-IsWhitespace : IsWhitespace sample_context.default_closing_whitespace
unfolding is_json_whitespace
default-IsWhitespace = (refl, (refl, tt))

prepare-IsNamed_example :
    IsNamed sample_fields sample_sha1 byte_output fails read expected name (codes "a") packed true
prepare-IsNamed_example =
    prepare-IsNamed sample_fields sample_sha1 byte_output fails read expected detect sample_context
      name (codes "a") packed true default-IsWhitespace prepared
