-- ===== src/Ech/Query.antt =====
-- ech.go: queryDoH and queryHTTPSRecord, with the functions of net/url that they call.
use ech_tunnel.Base.{
  ℕ, ◌+◌, ◌/◌, ◌%◌, Bool, true, false, List, [], ◌∷◌, ◌++◌, Option, none, some, ltb, ◌==◌,
  if◌then◌else◌, Bytes, codes, Map, insert, erase, bytes_key, is_empty, ◌-◌,
}
use ech_tunnel.Base64.Url.{raw_url_encode, unreserved}
use ech_tunnel.Ech.{build_dns_query, doh_url}
use ech_tunnel.Ech.Cache.{query_result}

-- url.Values, a map from names to the lists of their values
abbrev pub Values : Type 0
Values = Map Bytes (List Bytes)

-- What url.Parse finds: u.Query(), and the rest of the URL as one text.
pub record Url : Type 0 where
  pub base : Bytes
  pub query : Values

-- The request of http.NewRequest, whose URL is written as its base and RawQuery.
pub record Request : Type 0 where
  pub method : Bytes
  pub base : Bytes
  pub raw_query : Bytes
  pub headers : Map Bytes Bytes

-- A response: the status code, and what io.ReadAll gives for its body.
pub record Reply : Type 0 where
  pub status : ℕ
  pub body : Option Bytes

-- url.Parse, whether http.NewRequest takes the URL again, and client.Do; `none` is an error.
pub record Web : Type 0 where
  pub parse_url : Bytes → Option Url
  pub request_ok : Bytes → Bytes → Bool
  pub exchange : Request → Option Reply

-- A hexadecimal digit
abbrev hex : ℕ → ℕ
hex n = if ltb n 10 then b'0' + n else b'A' + (n - 10)

-- url.QueryEscape
unfoldable pub query_escape : Bytes → Bytes
query_escape [] = []
query_escape (c ∷ s) =
    let rest = query_escape s in
    if unreserved c
    then c ∷ rest
    else if c == b' '
    then b'+' ∷ rest
    else b'%' ∷ hex (c / 16) ∷ hex (c % 16) ∷ rest

-- Go's order of strings
unfoldable pub bytes_leb : Bytes → Bytes → Bool
bytes_leb [] t = true
bytes_leb (x ∷ s) [] = false
bytes_leb (x ∷ s) (y ∷ t) = let rest = bytes_leb s t in if x == y then rest else ltb x y

unfoldable pub insert_sorted : Bytes × List Bytes → Values → Values
unfolding bytes_leb
insert_sorted e [] = e ∷ []
insert_sorted e (f ∷ fs) =
    let rest = insert_sorted e fs in if bytes_leb e.0 f.0 then e ∷ f ∷ fs else f ∷ rest

unfoldable pub sort_keys : Values → Values
sort_keys [] = []
sort_keys (e ∷ es) = insert_sorted e (sort_keys es)

-- The `key=value` pairs of one key behind what is written already.
unfoldable pub encode_key : Bytes → List Bytes → Bytes → Bytes
unfolding query_escape
encode_key k [] written = written
encode_key k (v ∷ vs) written = encode_key k vs (
    written
    ++ (if is_empty written then [] else b'&' ∷ [])
    ++ query_escape k
    ++ b'=' ∷ query_escape v)

unfoldable pub encode_keys : Values → Bytes → Bytes
unfolding encode_key
encode_keys [] written = written
encode_keys ((k, vs) ∷ es) written = encode_keys es (encode_key k vs written)

-- q.Encode()
unfoldable pub encode : Values → Bytes
encode q = encode_keys (sort_keys q) []

-- The values behind q.Set and q.Del.
unfoldable pub doh_values : Bytes → Values → Values
doh_values domain q =
    let named =
      insert (codes "type") (codes "HTTPS" ∷ []) (insert (codes "name") (domain ∷ []) q) in
    let asked = insert (codes "dns") (raw_url_encode (build_dns_query domain 65) ∷ []) named in
    erase (codes "type") (erase (codes "name") asked)

unfoldable pub doh_request : Bytes → Url → Request
unfolding doh_values encode
doh_request domain u = record {
  method = codes "GET";
  base = u.base;
  raw_query = encode (doh_values domain u.query);
  headers =
      (codes "Accept", codes "application/dns-message")
      ∷ (codes "Content-Type", codes "application/dns-message")
      ∷ [];
}

-- queryDoH up to the body of the response; `none` stands for its errors.
unfoldable pub doh_body : Web → Bytes → Bytes → Option Bytes
unfolding doh_request
doh_body web domain url = elim (web.parse_url url) [
  | none ↦ none
  | some u ↦
      let r = doh_request domain u in
      if web.request_ok r.base r.raw_query
      then elim (web.exchange r) [
        | none ↦ none
        | some reply ↦ if reply.status == 200 then reply.body else none
      ]
      else none
]

unfoldable pub query_doh : Web → Bytes → Bytes → Option Bytes
query_doh web domain url = query_result (doh_body web domain url)

unfoldable pub query_https_record : Web → Bytes → Bytes → Option Bytes
query_https_record web domain server = query_doh web domain (doh_url server)
