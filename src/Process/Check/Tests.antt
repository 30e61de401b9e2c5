-- ===== src/Process/Check/Tests.antt =====
-- Two lines checked.
use archivindex_wbm.Common.{true, ◌≡◌, ◌↔◌, none, ok, Bytes, map}
use archivindex_wbm.Process.Check.Verdict.{IsWellFormed, check_source-IsWellFormed}
use archivindex_wbm.Process.Check.{Summary, is_successful, check_source}
use archivindex_wbm.Snapshot.Samples.{
  sample_fields, sample_sha1, sample-IsStreaming, sample_context, sample_lines,
}

check_source-IsWellFormed_example :
    (v : Summary) × (check_source sample_fields sample_sha1 {E = Bytes} sample_context
        (map ok sample_lines)
      ≡ ok v)
    × (is_successful v ≡ true
        ↔ IsWellFormed sample_fields sample_sha1 sample-IsStreaming sample_context none
            sample_lines)
check_source-IsWellFormed_example =
    check_source-IsWellFormed sample_fields sample_sha1 sample-IsStreaming {E = Bytes}
      sample_context sample_lines
