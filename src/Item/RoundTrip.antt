-- ===== src/Item/RoundTrip.antt =====
-- crates/wbm/src/item.rs: the URL of a snapshot is parsed to its parts.
use archivindex_wbm.Common.{
  Bool, true, false, [], ◌∷◌, ◌++◌, ◌≡◌, refl, some, ok, Bytes, codes, length, drop, take,
  take_exact, drop_exact, length-append, bytes_eq, leb, ◌==◌, arith,
}
use archivindex_wbm.Item.{
  Times, UrlParts, in_range, is_digit, all_digits, has_newline, valid_flag, is_lowercase,
  strip_archive, from_str, parse_capture, parse_parts, to_url,
}
use archivindex_wbm.Surt.Canonical.{split_once}

module _ (times : Times) where
  open times use {Time, from_text, to_text, seconds}

  -- The parts that a snapshot may have: a timestamp in range whose text is fourteen digits that are read
  -- back, and a URL that is not empty and has no newline.
  pub record IsItem (t : UrlParts Time) : Type 0 where
    pub reads : from_text (to_text t.timestamp) ≡ some t.timestamp
    pub long : length (to_text t.timestamp) ≡ 14
    pub digits : all_digits (to_text t.timestamp) ≡ true
    pub bounded : in_range (seconds t.timestamp) ≡ true
    pub filled : bytes_eq t.url [] ≡ false
    pub one_line : has_newline t.url ≡ false

  split_digits :
      (d flag url : Bytes)
      → all_digits d ≡ true
      → split_once b'/' (flag ++ b'/' ∷ url) ≡ some (flag, url)
      → split_once b'/' (d ++ (flag ++ b'/' ∷ url)) ≡ some (d ++ flag, url)
  unfolding split_once all_digits is_digit
  split_digits [] flag url h e = e
  split_digits (c ∷ d) flag url h e =
      let c_digit : is_digit c ≡ true = ground arith in
      let rest : all_digits d ≡ true = ground arith in
      let ih = split_digits d flag url rest e in
      let other : (c == b'/') ≡ false = ground arith in rw (other, ih)

  from_str-item :
      (t : UrlParts Time) → IsItem t → from_str times (to_text t.timestamp) ≡ ok t.timestamp
  unfolding from_str
  from_str-item t h =
      let fourteen : (length (to_text t.timestamp) == 14) ≡ true = ground (arith, h.long) in
      rw (fourteen, h.reads, h.bounded)

  parse_capture-item :
      (input flag : Bytes) (t : UrlParts Time)
      → IsItem t
      → valid_flag flag ≡ true
      → parse_capture times input (to_text t.timestamp ++ flag) t.url ≡ ok t
  unfolding parse_capture
  parse_capture-item input flag t h good =
      let d = to_text t.timestamp in
      let fits : leb 14 (length (d ++ flag)) ≡ true =
        ground (arith, length-append d flag, h.long) in
      let first : take 14 (d ++ flag) ≡ d = rw (← h.long) (take_exact d flag) in
      let behind : drop 14 (d ++ flag) ≡ flag = rw (← h.long) (drop_exact d flag) in
      rw (fits, first, behind, h.digits, good, h.filled, h.one_line, from_str-item t h)

  -- Parts with a timestamp in range, whose text is fourteen digits that are read back, and with a
  -- URL that is not empty and has no newline, are read back from the URL of their snapshot, under
  -- either scheme and either rendering.
  pub parse_parts-to_url :
      (https original : Bool) (t : UrlParts Time)
      → IsItem t
      → parse_parts times (to_url times https original t) ≡ ok t
  unfolding parse_parts to_url strip_archive split_once valid_flag is_lowercase
  parse_parts-to_url true true t h =
      rw (split_digits (to_text t.timestamp) (codes "id_") t.url h.digits refl)
        (parse_capture-item _ (codes "id_") t h refl)
  parse_parts-to_url true false t h =
      rw (split_digits (to_text t.timestamp) [] t.url h.digits refl)
        (parse_capture-item _ [] t h refl)
  parse_parts-to_url false true t h =
      rw (split_digits (to_text t.timestamp) (codes "id_") t.url h.digits refl)
        (parse_capture-item _ (codes "id_") t h refl)
  parse_parts-to_url false false t h =
      rw (split_digits (to_text t.timestamp) [] t.url h.digits refl)
        (parse_capture-item _ [] t h refl)
