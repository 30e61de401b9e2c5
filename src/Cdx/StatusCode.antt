-- ===== src/Cdx/StatusCode.antt =====
-- crates/wbm/src/cdx/status_code.rs: the status codes of CDX records, by the table of the macro
-- `status_codes`. The arms of a `match` on the table are a search in its order.
pub mod Bounds
mod Tests
use archivindex_wbm.Common.{
  ℕ, ◌≤◌, ◌<◌, Bool, true, false, ◌≡◌, refl, List, [], ◌∷◌, Result, ok, err, Bytes, codes, bytes_eq,
  bytes_eq_sound, ◌==◌, if◌then◌else◌, arith, Bool-cases, inl, inr,
}

pub data StatusCode : Type 0 where
  empty_status : StatusCode
  ok_status : StatusCode
  moved_permanently : StatusCode
  found_status : StatusCode
  see_other : StatusCode
  temporary_redirect : StatusCode
  permanent_redirect : StatusCode
  bad_request : StatusCode
  unauthorized : StatusCode
  forbidden : StatusCode
  not_found : StatusCode
  request_timeout : StatusCode
  upgrade_required : StatusCode
  too_many_requests : StatusCode
  request_header_fields_too_large : StatusCode
  internal_server_error : StatusCode
  bad_gateway : StatusCode
  service_unavailable : StatusCode
  gateway_timeout : StatusCode
  cloudflare_unknown_error : StatusCode
  cloudflare_web_server_down : StatusCode
  cloudflare_connection_timeout : StatusCode
  cloudflare_timeout : StatusCode
  cloudflare_ssl_handshake_failed : StatusCode
  cloudflare_origin_dns_error : StatusCode

-- `Error`.
pub data StatusError : Type 0 where
  unsupported : StatusError

-- `STATUS_CODE_VALUES`.
abbrev pub status_code_values : List StatusCode
status_code_values =
    empty_status ∷ ok_status ∷ moved_permanently ∷ found_status ∷ see_other ∷ temporary_redirect
    ∷ permanent_redirect ∷ bad_request ∷ unauthorized ∷ forbidden ∷ not_found ∷ request_timeout
    ∷ upgrade_required ∷ too_many_requests ∷ request_header_fields_too_large ∷ internal_server_error
    ∷ bad_gateway ∷ service_unavailable ∷ gateway_timeout ∷ cloudflare_unknown_error
    ∷ cloudflare_web_server_down ∷ cloudflare_connection_timeout ∷ cloudflare_timeout
    ∷ cloudflare_ssl_handshake_failed ∷ cloudflare_origin_dns_error ∷ []

-- `StatusCode::value`.
unfoldable pub value : StatusCode → ℕ
value empty_status = 0
value ok_status = 200
value moved_permanently = 301
value found_status = 302
value see_other = 303
value temporary_redirect = 307
value permanent_redirect = 308
value bad_request = 400
value unauthorized = 401
value forbidden = 403
value not_found = 404
value request_timeout = 408
value upgrade_required = 426
value too_many_requests = 429
value request_header_fields_too_large = 431
value internal_server_error = 500
value bad_gateway = 502
value service_unavailable = 503
value gateway_timeout = 504
value cloudflare_unknown_error = 520
value cloudflare_web_server_down = 521
value cloudflare_connection_timeout = 522
value cloudflare_timeout = 524
value cloudflare_ssl_handshake_failed = 525
value cloudflare_origin_dns_error = 530

-- `StatusCode::as_str`, which `Display` writes.
unfoldable pub as_str : StatusCode → Bytes
as_str empty_status = codes "-"
as_str ok_status = codes "200"
as_str moved_permanently = codes "301"
as_str found_status = codes "302"
as_str see_other = codes "303"
as_str temporary_redirect = codes "307"
as_str permanent_redirect = codes "308"
as_str bad_request = codes "400"
as_str unauthorized = codes "401"
as_str forbidden = codes "403"
as_str not_found = codes "404"
as_str request_timeout = codes "408"
as_str upgrade_required = codes "426"
as_str too_many_requests = codes "429"
as_str request_header_fields_too_large = codes "431"
as_str internal_server_error = codes "500"
as_str bad_gateway = codes "502"
as_str service_unavailable = codes "503"
as_str gateway_timeout = codes "504"
as_str cloudflare_unknown_error = codes "520"
as_str cloudflare_web_server_down = codes "521"
as_str cloudflare_connection_timeout = codes "522"
as_str cloudflare_timeout = codes "524"
as_str cloudflare_ssl_handshake_failed = codes "525"
as_str cloudflare_origin_dns_error = codes "530"

-- The first code of the table that a test takes.
unfoldable pub search : (StatusCode → Bool) → List StatusCode → Result StatusCode StatusError
search test [] = err unsupported
search test (s ∷ table) = let rest = search test table in if test s then ok s else rest

-- `StatusCode::from_value` and `StatusCode::from_str`.
unfoldable pub from_value : ℕ → Result StatusCode StatusError
from_value v = search (λ s. v == value s) status_code_values

unfoldable pub from_str : Bytes → Result StatusCode StatusError
from_str text = search (λ s. bytes_eq text (as_str s)) status_code_values

abbrev okay : StatusCode → Result StatusCode StatusError
okay s = ok s

search_sound :
    (test : StatusCode → Bool) (table : List StatusCode) (s : StatusCode)
    → search test table ≡ ok s
    → test s ≡ true
unfolding search
search_sound test [] s h = cc
search_sound test (x ∷ table) s h = elim (Bool-cases (test x)) [
  | inl passed ↦
      let found : okay x ≡ ok s = rw (search, passed) at h in
      let same : x ≡ s = cc in rw (← same) passed
  | inr failed ↦ search_sound test table s (rw (search, failed) at h)
]

from_value-value : (s : StatusCode) → from_value (value s) ≡ ok s
unfolding from_value search value
from_value-value empty_status = refl
from_value-value ok_status = refl
from_value-value moved_permanently = refl
from_value-value found_status = refl
from_value-value see_other = refl
from_value-value temporary_redirect = refl
from_value-value permanent_redirect = refl
from_value-value bad_request = refl
from_value-value unauthorized = refl
from_value-value forbidden = refl
from_value-value not_found = refl
from_value-value request_timeout = refl
from_value-value upgrade_required = refl
from_value-value too_many_requests = refl
from_value-value request_header_fields_too_large = refl
from_value-value internal_server_error = refl
from_value-value bad_gateway = refl
from_value-value service_unavailable = refl
from_value-value gateway_timeout = refl
from_value-value cloudflare_unknown_error = refl
from_value-value cloudflare_web_server_down = refl
from_value-value cloudflare_connection_timeout = refl
from_value-value cloudflare_timeout = refl
from_value-value cloudflare_ssl_handshake_failed = refl
from_value-value cloudflare_origin_dns_error = refl

from_str-as_str : (s : StatusCode) → from_str (as_str s) ≡ ok s
unfolding from_str search as_str
from_str-as_str empty_status = refl
from_str-as_str ok_status = refl
from_str-as_str moved_permanently = refl
from_str-as_str found_status = refl
from_str-as_str see_other = refl
from_str-as_str temporary_redirect = refl
from_str-as_str permanent_redirect = refl
from_str-as_str bad_request = refl
from_str-as_str unauthorized = refl
from_str-as_str forbidden = refl
from_str-as_str not_found = refl
from_str-as_str request_timeout = refl
from_str-as_str upgrade_required = refl
from_str-as_str too_many_requests = refl
from_str-as_str request_header_fields_too_large = refl
from_str-as_str internal_server_error = refl
from_str-as_str bad_gateway = refl
from_str-as_str service_unavailable = refl
from_str-as_str gateway_timeout = refl
from_str-as_str cloudflare_unknown_error = refl
from_str-as_str cloudflare_web_server_down = refl
from_str-as_str cloudflare_connection_timeout = refl
from_str-as_str cloudflare_timeout = refl
from_str-as_str cloudflare_ssl_handshake_failed = refl
from_str-as_str cloudflare_origin_dns_error = refl

-- A status code is read back from its value and from its text, and what is read has the value, or the
-- text, that it was read from: no other value and no other text is taken.
pub status_code_codec :
    (s : StatusCode) (v : ℕ) (text : Bytes)
    → (from_value (value s) ≡ ok s)
      × (from_str (as_str s) ≡ ok s)
      × (from_value v ≡ ok s → v ≡ value s)
      × (from_str text ≡ ok s → text ≡ as_str s)
unfolding from_value from_str
status_code_codec s v text = (
  from_value-value s,
  from_str-as_str s,
  (λ h.
      let same : (v == value s) ≡ true = search_sound (λ x. v == value x) status_code_values s h in
      ground arith),
  (λ h.
      bytes_eq_sound text (as_str s)
        (search_sound (λ x. bytes_eq text (as_str x)) status_code_values s h)),
)
