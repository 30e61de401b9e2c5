-- ===== src/Cdx/StatusCode/Bounds.antt =====
-- crates/wbm/src/cdx/status_code.rs: the values of status codes, as `u16`s and as three digits.
use archivindex_wbm.Common.{
  ℕ, ◌≤◌, ◌<◌, ◌+◌, ◌/◌, ◌%◌, ◌≡◌, List, [], ◌∷◌, length, drop, arith, ◌⊎◌, inl, inr, refl,
}
use archivindex_wbm.Cdx.StatusCode.{
  StatusCode, empty_status, ok_status, moved_permanently, found_status, see_other,
  temporary_redirect, permanent_redirect, bad_request, unauthorized, forbidden, not_found,
  request_timeout, upgrade_required, too_many_requests, request_header_fields_too_large,
  internal_server_error, bad_gateway, service_unavailable, gateway_timeout,
  cloudflare_unknown_error, cloudflare_web_server_down, cloudflare_connection_timeout,
  cloudflare_timeout, cloudflare_ssl_handshake_failed, cloudflare_origin_dns_error,
  status_code_values, value, as_str,
}

-- Values in strictly ascending order, behind one.
abbrev pub IsAscending : ℕ → List StatusCode → Type 0
IsAscending last [] = Unit
IsAscending last (s ∷ table) = (last < value s) × IsAscending (value s) table

abbrev pub IsTable : Type 0
IsTable = IsAscending 0 (drop 1 status_code_values)

is_table : IsTable
unfolding value
is_table = (
  omega arith,
  (
    omega arith,
    (
      omega arith,
      (
        omega arith,
        (
          omega arith,
          (
            omega arith,
            (
              omega arith,
              (
                omega arith,
                (
                  omega arith,
                  (
                    omega arith,
                    (
                      omega arith,
                      (
                        omega arith,
                        (
                          omega arith,
                          (
                            omega arith,
                            (
                              omega arith,
                              (
                                omega arith,
                                (
                                  omega arith,
                                  (
                                    omega arith,
                                    (
                                      omega arith,
                                      (
                                        omega arith,
                                        (
                                          omega arith,
                                          (omega arith, (omega arith, (omega arith, tt))),
                                        ),
                                      ),
                                    ),
                                  ),
                                ),
                              ),
                            ),
                          ),
                        ),
                      ),
                    ),
                  ),
                ),
              ),
            ),
          ),
        ),
      ),
    ),
  ),
)

-- A value is 0, which is shown as one byte, or it has three digits, which are the text; and the table,
-- behind the empty code, is in strictly ascending order of the values.
pub value_bounds :
    (s : StatusCode)
    → (((value s ≡ 0) × (length (as_str s) ≡ 1))
        ⊎ ((200 ≤ value s)
            × (value s < 600)
            × (as_str s
                ≡ (48 + value s / 100) ∷ (48 + value s / 10 % 10) ∷ (48 + value s % 10) ∷ [])))
      × IsTable
unfolding value as_str
value_bounds empty_status = (inl (refl, refl), is_table)
value_bounds ok_status = (inr (omega arith, omega arith, refl), is_table)
value_bounds moved_permanently = (inr (omega arith, omega arith, refl), is_table)
value_bounds found_status = (inr (omega arith, omega arith, refl), is_table)
value_bounds see_other = (inr (omega arith, omega arith, refl), is_table)
value_bounds temporary_redirect = (inr (omega arith, omega arith, refl), is_table)
value_bounds permanent_redirect = (inr (omega arith, omega arith, refl), is_table)
value_bounds bad_request = (inr (omega arith, omega arith, refl), is_table)
value_bounds unauthorized = (inr (omega arith, omega arith, refl), is_table)
value_bounds forbidden = (inr (omega arith, omega arith, refl), is_table)
value_bounds not_found = (inr (omega arith, omega arith, refl), is_table)
value_bounds request_timeout = (inr (omega arith, omega arith, refl), is_table)
value_bounds upgrade_required = (inr (omega arith, omega arith, refl), is_table)
value_bounds too_many_requests = (inr (omega arith, omega arith, refl), is_table)
value_bounds request_header_fields_too_large = (inr (omega arith, omega arith, refl), is_table)
value_bounds internal_server_error = (inr (omega arith, omega arith, refl), is_table)
value_bounds bad_gateway = (inr (omega arith, omega arith, refl), is_table)
value_bounds service_unavailable = (inr (omega arith, omega arith, refl), is_table)
value_bounds gateway_timeout = (inr (omega arith, omega arith, refl), is_table)
value_bounds cloudflare_unknown_error = (inr (omega arith, omega arith, refl), is_table)
value_bounds cloudflare_web_server_down = (inr (omega arith, omega arith, refl), is_table)
value_bounds cloudflare_connection_timeout = (inr (omega arith, omega arith, refl), is_table)
value_bounds cloudflare_timeout = (inr (omega arith, omega arith, refl), is_table)
value_bounds cloudflare_ssl_handshake_failed = (inr (omega arith, omega arith, refl), is_table)
value_bounds cloudflare_origin_dns_error = (inr (omega arith, omega arith, refl), is_table)
