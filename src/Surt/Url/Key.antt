-- ===== src/Surt/Url/Key.antt =====
-- crates/wbm/src/surt.rs: the key that `from_url` makes is read back by `parse_str`.
use archivindex_wbm.Common.Results.{◌>>=◌}
use archivindex_wbm.Common.{
  ◌≢◌, cons-ne-nil, Option, Result-cases, ℕ, true, List, [], ◌∷◌, ◌++◌, ◌≡◌, refl, sym, ap, ◌∙◌,
  inl, inr, none, some, ok, Bytes, map, length, append_assoc, >>=-ok, Bool-cases, reverse,
}
use archivindex_wbm.Surt.Decode.{decode_path}
use archivindex_wbm.Surt.Parse.{parse_str_complete, represent_owned, represent_borrowed}
use archivindex_wbm.Surt.Text.{join_parts, SplitsAs}
use archivindex_wbm.Surt.Url.Host.{
  IsHost, key_labels, Fits, push_labels-IsHosted, key_labels-IsPart,
}
use archivindex_wbm.Surt.Url.Labels.{IsLabelled, key_labels-IsLabelled}
use archivindex_wbm.Surt.Url.Query.{IsQuery, push_query-IsQuery}
use archivindex_wbm.Surt.Url.Slash.{IsCut, pop_slash-close, pop_slash-IsCut}
use archivindex_wbm.Surt.Url.{
  Urls, split_dots, push_labels, pop, pop_slash, push_query, is_web, finish_url, match_url,
  parse_url, from_url,
}
use archivindex_wbm.Surt.{close, SharedSurts, Surt, as_str, owned, from_validated, parse_str}

module _ (lib : SharedSurts) (urls : Urls) where
  open lib use {SharedSurt}
  open urls use {Url, ParseError}

  -- What stands behind the terminator in the key of a URL: the decoded path, without a slash at its
  -- end, and the query.
  pub record IsTail (url : Url) (tail : Bytes) : Type 0 where
    pub cut : Bytes
    pub cut_is : IsCut (decode_path (urls.path url)) cut
    pub query : Bytes
    pub query_is : IsQuery (urls.query_pairs url) query
    pub tail_is : tail ≡ cut ++ query

  -- The key `t` is that of the URL `url`, whose host is `host`.
  pub record IsKeyOf (input : Bytes) (t : Surt SharedSurt) : Type 0 where
    pub url : Url
    pub host : Bytes
    pub parsed : urls.parse (urls.to_lowercase input) ≡ ok url
    pub scheme_is : is_web (urls.scheme url) ≡ true
    pub port_is : urls.port url ≡ none
    pub host_is : urls.domain url ≡ some host
    pub first : Bytes
    pub others : List Bytes
    pub labels : IsLabelled host (first ∷ others)
    pub computed : key_labels host ≡ first ∷ others
    pub fits : Fits (first ∷ others)
    pub tail : Bytes
    pub tail_is : IsTail url tail
    pub text : as_str lib t ≡ join_parts (first ∷ others) ++ (close ∷ tail)
    pub lens : t.domain_name_part_lens ≡ map length (first ∷ others)

  key_text :
      (url : Url) (source joined : Bytes)
      → pop source ≡ joined
      → (tail : Bytes) × (push_query
            (urls.query_pairs url)
            (pop_slash ((pop source ++ close ∷ []) ++ decode_path (urls.path url)))
          ≡ joined ++ (close ∷ tail))
        × IsTail url tail
  key_text url source joined e =
      let path = decode_path (urls.path url) in
      let hosted = pop_slash ((pop source ++ close ∷ []) ++ path) in
      let (query, pushed, is_query) = push_query-IsQuery (urls.query_pairs url) hosted in
      let hosted_is : hosted ≡ joined ++ (close ∷ pop_slash path) = rw (pop_slash-close, e) refl in
      (
        pop_slash path ++ query,
        pushed
            ∙ ap (λ t. t ++ query) hosted_is
            ∙ append_assoc joined (close ∷ pop_slash path) query,
        record {
          cut = pop_slash path;
          cut_is = pop_slash-IsCut path;
          query = query;
          query_is = is_query;
          tail_is = refl;
        },
      )

  finish_url_accepts :
      (input : Bytes) (url : Url) (source : Bytes) (lens : List ℕ) (t : Surt SharedSurt)
      → finish_url lib urls input url (source, lens) ≡ ok t
      → (as_str lib t
          ≡ push_query
              (urls.query_pairs url)
              (pop_slash ((pop source ++ close ∷ []) ++ decode_path (urls.path url))))
        × (t.domain_name_part_lens ≡ lens)
        × (lens ≢ [])
  unfolding finish_url as_str from_validated
  finish_url_accepts input url source [] t e = cc
  finish_url_accepts input url source (len ∷ lens) t e =
      let text =
        push_query (urls.query_pairs url)
          (pop_slash ((pop source ++ close ∷ []) ++ decode_path (urls.path url))) in
      let made : from_validated lib (owned text) (len ∷ lens) ≡ t = cc in
      rw (← made) (represent_owned lib text, refl, cons-ne-nil len lens)

  accepted-IsKeyOf :
      (input : Bytes) (url : Url) (host source : Bytes) (lens : List ℕ) (t : Surt SharedSurt)
      → urls.parse (urls.to_lowercase input) ≡ ok url
      → is_web (urls.scheme url) ≡ true
      → urls.port url ≡ none
      → urls.domain url ≡ some host
      → push_labels {E = ParseError} (reverse (split_dots host)) [] [] ≡ ok (source, lens)
      → finish_url lib urls input url (source, lens) ≡ ok t
      → IsKeyOf input t
  accepted-IsKeyOf input url host source lens t parsed web no_port named pushed finished =
      let (text, recorded, some_label) = finish_url_accepts input url source lens t finished in
      let h = push_labels-IsHosted {E = ParseError} host source lens some_label pushed in
      let (tail, joined, is_tail) = key_text url source (join_parts (h.first ∷ h.others)) h.text in
      record {
        url = url;
        host = host;
        parsed = parsed;
        scheme_is = web;
        port_is = no_port;
        host_is = named;
        first = h.first;
        others = h.others;
        labels = key_labels-IsLabelled host h.labels;
        computed = h.labels;
        tail = tail;
        tail_is = is_tail;
        fits = h.fits;
        text = text ∙ joined;
        lens = recorded ∙ h.recorded;
      }

  match_url_accepts :
      (input : Bytes) (url : Url) (host : Option Bytes) (port : Option ℕ) (t : Surt SharedSurt)
      → match_url lib urls input url host port ≡ ok t
      → (name : Bytes) × (host ≡ some name)
        × (port ≡ none)
        × (is_web (urls.scheme url) ≡ true)
        × ((push_labels (reverse (split_dots name)) [] [] >>= finish_url lib urls input url) ≡ ok t)
  unfolding match_url
  match_url_accepts input url (some name) none t e = elim (Bool-cases (is_web (urls.scheme url))) [
    | inl web ↦ (name, refl, refl, web, rw web at e)
    | inr other ↦ let refused = rw other at e in cc
  ]
  match_url_accepts input url _ _ t e = cc

  -- A key is made only of an http or https URL without a port, with a host. Its parts are the
  -- labels of the host between its dots, from the last to the first, without those that are empty
  -- or www, of a length that fits, and its lengths are theirs. Behind them stands the decoded
  -- path, without a slash at its end, and, where the URL has parameters, each of them as its key,
  -- an equals sign and its re-encoded value, in ascending order of the keys, with those of one key
  -- in the order of the URL.
  pub from_url-IsKeyOf :
      (input : Bytes) (t : Surt SharedSurt) → from_url lib urls input ≡ ok t → IsKeyOf input t
  unfolding from_url parse_url
  from_url-IsKeyOf input t e = elim (Result-cases (urls.parse (urls.to_lowercase input))) [
    | inl (url, parsed) ↦
        let (host, named, no_port, web, later) =
          match_url_accepts input url (urls.domain url) (urls.port url) t
            (rw (parsed, parse_url) at e) in
        let ((source, lens), finished, pushed) =
          >>=-ok (finish_url lib urls input url)
            (push_labels {E = ParseError} (reverse (split_dots host)) [] []) later in
        accepted-IsKeyOf input url host source lens t parsed web no_port named pushed finished
    | inr (error, refused) ↦ let failed = rw (refused, parse_url) at e in cc
  ]

  -- A key made from a URL, where a host that the URL package gives for the lowercased text holds
  -- nothing but part bytes and dots, is read back by the parser, with the same text and the same
  -- lengths.
  pub parse_str-from_url :
      (input : Bytes) (t : Surt SharedSurt)
      → ((url : Url) (host : Bytes)
          → urls.parse (urls.to_lowercase input) ≡ ok url
          → urls.domain url ≡ some host
          → IsHost host)
      → from_url lib urls input ≡ ok t
      → (t' : Surt SharedSurt) × (parse_str lib {ParseError = ParseError} (as_str lib t) ≡ ok t')
        × (as_str lib t' ≡ as_str lib t)
        × (t'.domain_name_part_lens ≡ t.domain_name_part_lens)
  unfolding as_str from_validated
  parse_str-from_url input t hosts e =
      let k = from_url-IsKeyOf input t e in
      let parts =
        key_labels-IsPart k.host (hosts k.url k.host k.parsed k.host_is) k.computed k.fits in
      let split : SplitsAs (as_str lib t) k.first k.others k.tail = record {
        text = k.text;
        parts = parts;
      } in
      (
        _,
        parse_str_complete lib (as_str lib t) k.first k.others k.tail split,
        represent_borrowed lib (as_str lib t),
        sym k.lens,
      )
