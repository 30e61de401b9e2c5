-- ===== src/Cdx/StatusCode/Tests.antt =====
-- A status code of a CDX record.
use archivindex_wbm.Cdx.StatusCode.Bounds.{IsTable, value_bounds}
use archivindex_wbm.Cdx.StatusCode.{
  moved_permanently, value, as_str, from_value, from_str, status_code_codec,
}
use archivindex_wbm.Common.{◌+◌, ◌/◌, ◌%◌, ◌≤◌, ◌<◌, ◌≡◌, ◌⊎◌, [], ◌∷◌, codes, length, ok}

status_code_codec_example :
    (from_value (value moved_permanently) ≡ ok moved_permanently)
    × (from_str (as_str moved_permanently) ≡ ok moved_permanently)
    × (from_value 301 ≡ ok moved_permanently → 301 ≡ value moved_permanently)
    × (from_str (codes "301") ≡ ok moved_permanently → codes "301" ≡ as_str moved_permanently)
status_code_codec_example = status_code_codec moved_permanently 301 (codes "301")

value_bounds_example :
    (((value moved_permanently ≡ 0) × (length (as_str moved_permanently) ≡ 1))
      ⊎ ((200 ≤ value moved_permanently)
          × (value moved_permanently < 600)
          × (as_str moved_permanently
              ≡ (48 + value moved_permanently / 100)
                ∷ (48 + value moved_permanently / 10 % 10)
                ∷ (48 + value moved_permanently % 10)
                ∷ [])))
    × IsTable
value_bounds_example = value_bounds moved_permanently
