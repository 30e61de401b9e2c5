-- ===== src/Surt/Tests.antt =====
-- Runs of the SURT functions, and each theorem about them at a concrete input.
use archivindex_wbm.Common.Options.{◌>>=◌}
use archivindex_wbm.Common.{
  true, false, List, [], ◌∷◌, ◌++◌, ◌≡◌, refl, none, some, ok, err, Bytes, All, codes, length, map,
  arith,
}
use archivindex_wbm.Surt.Canonical.Shown.{shown_url, canonical_url-parse_str}
use archivindex_wbm.Surt.Canonical.{canonical_url}
use archivindex_wbm.Surt.Decode.Path.Idempotent.{decode_path_idem}
use archivindex_wbm.Surt.Decode.Path.Slashes.{NoSlashRun, decode_path-NoSlashRun}
use archivindex_wbm.Surt.Decode.Query.{IsSafe, decode_query_value-IsSafe}
use archivindex_wbm.Surt.Decode.{decode_path, decode_query_value}
use archivindex_wbm.Surt.Parse.{IsParse, parse_str_sound, parse_str_complete, parse_str_refuses}
use archivindex_wbm.Surt.Parts.Deque.{consume, deal, consume-parse_str}
use archivindex_wbm.Surt.Parts.{next, next_back, domain_name_parts, path}
use archivindex_wbm.Surt.Text.{SplitsAs}
use archivindex_wbm.Surt.Url.Host.{IsHost}
use archivindex_wbm.Surt.Url.Key.{IsKeyOf, from_url-IsKeyOf, parse_str-from_url}
use archivindex_wbm.Surt.Url.{Urls, from_url}
use archivindex_wbm.Surt.{
  Error, invalid_surt, SharedSurts, Surt, borrowed, owned, scan_parts, is_part_byte, represent,
  representation_str, as_str, from_validated, parse_str,
}

same_text : (s k : Bytes) → some s ≡ some k → k ≡ s
same_text s k e = cc

-- Every text is a key of the shared package.
abbrev texts : SharedSurts
texts = record {
  SharedSurt = Bytes;
  parse = λ s. some s;
  from_str = λ s. some s;
  as_str = λ s. s;
  as_str-parse = same_text;
  as_str-from_str = same_text;
}

-- A URL package that knows one URL.
abbrev one_url : Urls
one_url = record {
  Url = Bytes;
  ParseError = Bytes;
  to_lowercase = λ s. s;
  parse = λ s. ok s;
  scheme = λ u. codes "https";
  domain = λ u. some (codes "www.api.example.com.");
  port = λ u. none;
  path = λ u. codes "//a%2A/b/";
  query_pairs = λ u. (codes "z", codes "1 2") ∷ (codes "a", []) ∷ [];
}

abbrev key : Bytes
key = codes "com,example,api:8080)/x"

abbrev key_surt : Surt Bytes
key_surt = from_validated texts (borrowed key) (3 ∷ 7 ∷ 8 ∷ [])

parse_key : parse_str texts {ParseError = Bytes} key ≡ ok key_surt
unfolding parse_str scan_parts is_part_byte
parse_key = refl

shown : canonical_url texts key_surt ≡ some (codes "https://api.example.com:8080/x")
unfolding canonical_url domain_name_parts path next next_back as_str representation_str represent
    from_validated
shown = refl

bad_keys :
    (parse_str texts {ParseError = Bytes} (codes "com,)/x") ≡ err (invalid_surt (codes "com,)/x")))
    × (parse_str texts {ParseError = Bytes} (codes "com") ≡ err (invalid_surt (codes "com")))
unfolding parse_str scan_parts is_part_byte
bad_keys = (refl, refl)

decoded_path : decode_path (codes "//a%2A%2F//%7b") ≡ codes "/a*%2f/{"
unfolding decode_path
decoded_path = refl

decoded_value : decode_query_value (codes "a b+c&%5e") ≡ codes "a+b%20c%26^"
unfolding decode_query_value
decoded_value = refl

abbrev url_surt : Surt Bytes
url_surt = from_validated texts (owned (codes "com,example,api)/a*/b?a=&z=1+2")) (3 ∷ 7 ∷ 3 ∷ [])

from_one_url : from_url texts one_url (codes "u") ≡ ok url_surt
unfolding from_url decode_path decode_query_value
from_one_url = refl

parse_str_sound_example : IsParse texts key key_surt
parse_str_sound_example = parse_str_sound texts {ParseError = Bytes} key key_surt parse_key

key-SplitsAs : SplitsAs key (codes "com") (codes "example" ∷ codes "api:8080" ∷ []) (codes "/x")
unfolding is_part_byte
key-SplitsAs = record { text = refl; parts = ground arith }

parse_str_complete_example :
    parse_str texts {ParseError = Bytes} key
    ≡ ok (
        from_validated texts
          (borrowed key)
          (map length (codes "com" ∷ codes "example" ∷ codes "api:8080" ∷ [])))
parse_str_complete_example =
    parse_str_complete texts {ParseError = Bytes} key (codes "com")
      (codes "example" ∷ codes "api:8080" ∷ []) (codes "/x") key-SplitsAs

parse_str_refuses_example :
    (◌≡◌ {A = Error Bytes} (invalid_surt (codes "com,)/x")) (invalid_surt (codes "com,)/x")))
    × ((first : Bytes) (others : List Bytes) (rest : Bytes)
        → ¬ (SplitsAs (codes "com,)/x") first others rest))
parse_str_refuses_example =
    parse_str_refuses texts (codes "com,)/x") (invalid_surt (codes "com,)/x")) bad_keys.0

consume-parse_str_example :
    (first : Bytes) × (others : List Bytes) × (rest : Bytes) × SplitsAs key first others rest
    × ((domain_name_parts texts key_surt >>= consume (false ∷ true ∷ false ∷ true ∷ []))
        ≡ some (deal (false ∷ true ∷ false ∷ true ∷ []) (first ∷ others)))
    × (path texts key_surt ≡ some rest)
consume-parse_str_example =
    consume-parse_str texts {ParseError = Bytes} key key_surt (false ∷ true ∷ false ∷ true ∷ [])
      parse_key

canonical_url-parse_str_example :
    (first : Bytes) × (others : List Bytes) × (rest : Bytes) × (init : List Bytes) × (last : Bytes)
    × SplitsAs key first others rest
    × (first ∷ others ≡ init ++ last ∷ [])
    × (canonical_url texts key_surt ≡ some (shown_url init last rest))
canonical_url-parse_str_example =
    canonical_url-parse_str texts {ParseError = Bytes} key key_surt parse_key

from_url-IsKeyOf_example : IsKeyOf texts one_url (codes "u") url_surt
from_url-IsKeyOf_example = from_url-IsKeyOf texts one_url (codes "u") url_surt from_one_url

one_url-IsHost : (u host : Bytes) → some (codes "www.api.example.com.") ≡ some host → IsHost host
unfolding is_part_byte
one_url-IsHost u host e = rw (← same e) (ground arith)
  where
    same : some (codes "www.api.example.com.") ≡ some host → codes "www.api.example.com." ≡ host
    same e' = cc

parse_str-from_url_example :
    (t' : Surt Bytes) × (parse_str texts {ParseError = Bytes} (as_str texts url_surt) ≡ ok t')
    × (as_str texts t' ≡ as_str texts url_surt)
    × (t'.domain_name_part_lens ≡ url_surt.domain_name_part_lens)
parse_str-from_url_example =
    parse_str-from_url texts one_url (codes "u") url_surt
      (λ u host _ named. one_url-IsHost u host named) from_one_url

decode_path_idem_example :
    decode_path (decode_path (codes "//a%2A%2F")) ≡ decode_path (codes "//a%2A%2F")
decode_path_idem_example = decode_path_idem (codes "//a%2A%2F")

decode_path-NoSlashRun_example : NoSlashRun false (decode_path (codes "//a%2A%2F"))
decode_path-NoSlashRun_example = decode_path-NoSlashRun (codes "//a%2A%2F")

decode_query_value-IsSafe_example : All IsSafe (decode_query_value (codes "a b+c&#"))
decode_query_value-IsSafe_example = decode_query_value-IsSafe (codes "a b+c&#")
