-- ===== src/Snapshot/Exact/Display/Samples.antt =====
-- A snapshot with every field, and the line that it is shown as.
use archivindex_wbm.Common.{◌++◌, ◌≡◌, refl, some, Bytes, codes}
use archivindex_wbm.Snapshot.Exact.Display.RoundTrip.{IsStorable}
use archivindex_wbm.Snapshot.Exact.Display.{
  display, show_expected, show_text, needs_json_escaping, starts_control, show_url, shown_url,
  same_text, show_format, is_shown, shown_format, is_some, shown_whitespace, show_object,
  show_stamp,
}
use archivindex_wbm.Snapshot.Samples.{sample_fields, sample_laws, sample_context, sample_snapshot}

abbrev pub sample_line : Bytes
sample_line =
    codes
      "{\"digest\":\"CCCCCCCCCCCCCCCCCCCCAAAAAAAAAAAA\",\"expected_digest\":\"DDDDDDDDDDDDDDDDDDDDDDDDDDDDDDDD\","
    ++ codes
        "\"timestamp\":\"20240102030405\",\"url\":\"http://b/\",\"format\":{\"w\":\"n\"},\"content\":{\"id\":1}}"

pub sample_shown : display sample_fields sample_context sample_snapshot ≡ some sample_line
unfolding display show_expected show_text needs_json_escaping starts_control show_url shown_url
    same_text show_format is_shown shown_format is_some shown_whitespace show_object show_stamp
sample_shown = refl

pub sample-IsStorable : IsStorable sample_fields sample_laws sample_snapshot
sample-IsStorable = record {
  digest_len_is = refl;
  expected_len_is =
      λ d h. let e : codes "DDDDDDDDDDDDDDDDDDDDDDDDDDDDDDDD" ≡ d = cc in rw (← e) refl;
  named = λ e. cc;
  reads = tt;
}
