-- ===== src/Snapshot/Recovery/Encoding/Tests.antt =====
-- A file read, encoded and verified, and a codec registered.
use archivindex_wbm.Common.{
  Bool, [], ◌++◌, ◌≡◌, refl, none, some, Result, ok, Bytes, codes, bytes_eq, if◌then◌else◌,
}
use archivindex_wbm.Snapshot.Recovery.Codecs.{IsUnique, codec-register_format}
use archivindex_wbm.Snapshot.Recovery.Encoding.Hashing.{check_digest, verify-encode}
use archivindex_wbm.Snapshot.Recovery.Encoding.Inverse.{
  IsRead, IsRecoded, unprocessed_snapshot-IsRead, encode-unprocessed_snapshot,
}
use archivindex_wbm.Snapshot.Recovery.Encoding.{
  SnapshotError, decode, strip, from_text, unprocessed_snapshot, encode, verify, has_line_break,
  is_text, following, len_utf8,
}
use archivindex_wbm.Snapshot.Recovery.Whitespace.{IsWhitespace, IsTrimmed, non_default-run}
use archivindex_wbm.Snapshot.Recovery.{
  codec, register_format, format_eq, walk_default, run_len, walk_whitespace,
  non_default_closing_whitespace,
}
use archivindex_wbm.Snapshot.Samples.{
  sample_fields, sample_sha1, sample-IsStreaming, sample_context,
}
use archivindex_wbm.Snapshot.{Format, utf8, other, Snapshot, Codec, is_json_whitespace}

-- The line breaks are not the default ones, and the space belongs to them.
abbrev file : Bytes
file = codes "{\"id\":1} \n"

abbrev page : Format
page = other (codes "html")

abbrev page_codec : Codec (Unit {0})
page_codec = record { decode = λ s. some s; encode = λ s m. s }

sample-IsUnique : IsUnique sample_context.formats
unfolding IsUnique
sample-IsUnique = tt

default-IsWhitespace : IsWhitespace sample_context.default_closing_whitespace
unfolding is_json_whitespace
default-IsWhitespace = (refl, (refl, tt))

closing-IsWhitespace : IsWhitespace (codes " \n")
unfolding is_json_whitespace
closing-IsWhitespace = (refl, (refl, tt))

content-IsTrimmed : IsTrimmed (codes "{\"id\":1}")
unfolding is_json_whitespace
content-IsTrimmed = refl

abbrev file_snapshot : Snapshot Bool (Unit {0})
file_snapshot = record {
  digest = codes "{\"id\":1} \nBBBBBBBBBB";
  expected_digest = none;
  timestamp = none;
  url = none;
  format = record { name = utf8; closing_whitespace = some (codes " \n"); metadata = tt };
  content = codes "{\"id\":1}";
}

file_read :
    unprocessed_snapshot sample_fields sample_sha1 sample_context utf8 file
    ≡ some (ok file_snapshot)
unfolding unprocessed_snapshot decode from_text strip has_line_break is_text following
    non_default_closing_whitespace walk_default is_json_whitespace run_len walk_whitespace len_utf8
file_read = refl

non_default-run_example :
    non_default_closing_whitespace (codes "\r\n") (codes "{\"id\":1}" ++ codes " \n")
    ≡ (if bytes_eq (codes " \n") (codes "\r\n") then none else some (codes " \n"))
non_default-run_example =
    non_default-run (codes "\r\n") (codes "{\"id\":1}") (codes " \n") default-IsWhitespace
      closing-IsWhitespace content-IsTrimmed

unprocessed_snapshot-IsRead_example :
    (r : Result (Snapshot Bool (Unit {0})) SnapshotError) × (unprocessed_snapshot sample_fields
        sample_sha1 sample_context utf8 file
      ≡ some r)
    × IsRead sample_fields sample_sha1 sample_context utf8 file r
unprocessed_snapshot-IsRead_example =
    unprocessed_snapshot-IsRead sample_fields sample_sha1 sample_context utf8 file
      default-IsWhitespace

encode-unprocessed_snapshot_example :
    (out : Bytes) × (encode sample_fields sample_sha1 sample_context file_snapshot ≡ ok out)
    × IsRecoded sample_fields sample_sha1 sample_context utf8 file out
encode-unprocessed_snapshot_example =
    encode-unprocessed_snapshot sample_fields sample_sha1 sample_context utf8 file file_snapshot
      default-IsWhitespace file_read

verify-encode_example :
    verify sample_fields sample_sha1 sample_context file_snapshot []
    ≡ check_digest sample_fields sample_sha1 file_snapshot []
        (encode sample_fields sample_sha1 sample_context file_snapshot)
verify-encode_example =
    verify-encode sample_fields sample_sha1 sample-IsStreaming sample_context file_snapshot []

codec-register_format_example :
    (codec (register_format sample_context page page_codec) utf8
      ≡ (if format_eq page utf8 then some page_codec else codec sample_context utf8))
    × IsUnique ((register_format sample_context page page_codec).formats)
codec-register_format_example =
    codec-register_format sample_context page page_codec utf8 sample-IsUnique
