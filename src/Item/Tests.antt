-- ===== src/Item/Tests.antt =====
-- The URL of a snapshot read back.
use archivindex_wbm.Common.{◌≡◌, true, false, refl, some, ok, Bytes, codes}
use archivindex_wbm.Item.RoundTrip.{IsItem, parse_parts-to_url}
use archivindex_wbm.Item.{
  pos, Times, UrlParts, in_range, is_digit, all_digits, has_newline, parse_parts, to_url,
}

-- Dates that are their texts, at the beginning of 1970.
abbrev sample_times : Times
sample_times = record {
  Time = Bytes;
  from_text = λ s. some s;
  to_text = λ t. t;
  seconds = λ t. pos 0;
}

abbrev sample_parts : UrlParts Bytes
sample_parts = record { url = codes "http://a/b"; timestamp = codes "19700101000000" }

sample-IsItem : IsItem sample_times sample_parts
unfolding in_range is_digit all_digits has_newline
sample-IsItem = record {
  reads = refl;
  long = refl;
  digits = refl;
  bounded = refl;
  filled = refl;
  one_line = refl;
}

parse_parts-to_url_example :
    parse_parts sample_times (to_url sample_times true false sample_parts) ≡ ok sample_parts
parse_parts-to_url_example = parse_parts-to_url sample_times true false sample_parts sample-IsItem
