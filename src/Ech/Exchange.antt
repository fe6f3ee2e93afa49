-- ===== src/Ech/Exchange.antt =====
-- The exchange of queryDoH with its server, ech.go.
use ech_tunnel.Base.{
  ℕ, ◌<◌, ◌||◌, List, [], ◌∷◌, ◌++◌, Option, none, some, ◌≡◌, refl, arith, if◌then◌else◌, Bytes,
  AllBytes, codes, lookup, insert, erase, bytes_key, has_prefix, drop, length, split, replicate,
  bytes_eq, lookup-insert, lookup-erase, Bool-cases, inl, inr, true, false, ◌==◌, onto_first,
  bytes_eq_iff,
}
use mathlib.Core.Path.{subst}
use ech_tunnel.Base64.{encode_to_string}
use ech_tunnel.Base64.Url.{
  raw_url_encode, raw_url_decode, AllUnreserved, raw_url_encode-AllUnreserved,
  raw_url_decode-encode,
}
use ech_tunnel.Ech.{build_dns_query, label_bytes, doh_url}
use ech_tunnel.Ech.Cache.{prepare_ech, HttpsAnswer, prepare_ech-response}
use ech_tunnel.Ech.View.{AllLabels}
use ech_tunnel.Ech.Record.{Params, AllParams, first_ech}
use ech_tunnel.Ech.Response.{Answer, Header, AllAnswers, first_https, response}
use ech_tunnel.Ech.Query.{
  Values, Url, Request, Web, query_escape, sort_keys, insert_sorted, encode_key, encode_keys,
  encode, doh_values, doh_request, doh_body,
}
use ech_tunnel.Ech.Cache.{prepare_ech, HttpsAnswer, prepare_ech-response}

query_escape_plain : (s : Bytes) → AllUnreserved s → query_escape s ≡ s
unfolding query_escape
query_escape_plain [] h = refl
query_escape_plain (c ∷ s) (plain, h) = rw plain (rw (query_escape_plain s h) refl)

-- No two of the names are the same.
apart :
    (k : Bytes)
    → bytes_eq (codes "dns") k ≡ true
    → (bytes_eq (codes "name") k ≡ false) × (bytes_eq (codes "type") k ≡ false)
apart k same =
    subst (λ (j : Bytes). (bytes_eq (codes "name") j ≡ false) × (bytes_eq (codes "type") j ≡ false))
      ((bytes_eq_iff (codes "dns") k).0 same) (unfold bytes_eq in (refl, refl))

-- The parameters of the request: `dns` is the message of buildDNSQuery, `name` and `type` are gone,
-- and what else the URL of the server has stays.
doh_values_lem :
    (domain k : Bytes) (q : Values)
    → lookup k (doh_values domain q) ≡ (
        if bytes_eq (codes "dns") k
        then some (raw_url_encode (build_dns_query domain 65) ∷ [])
        else if bytes_eq (codes "name") k || bytes_eq (codes "type") k
        then none
        else lookup k q)
unfolding doh_values
doh_values_lem domain k q =
    let named : Values =
      insert (codes "type") (codes "HTTPS" ∷ []) (insert (codes "name") (domain ∷ []) q) in
    let value = raw_url_encode (build_dns_query domain 65) ∷ [] in
    let asked : Values = insert (codes "dns") value named in
    ground (
      arith,
      lookup-erase (codes "type") k (erase (codes "name") asked),
      lookup-erase (codes "name") k asked,
      lookup-insert (codes "dns") k value named,
      lookup-insert (codes "type") k (codes "HTTPS" ∷ []) (insert (codes "name") (domain ∷ []) q),
      lookup-insert (codes "name") k (domain ∷ []) q,
      apart k,
    )

AllBytes-append : (s t : Bytes) → AllBytes s → AllBytes t → AllBytes (s ++ t)
AllBytes-append [] t a b = b
AllBytes-append (x ∷ s) t (byte, a) b = (byte, AllBytes-append s t a b)

-- Every label's elements are bytes.
abbrev AllLabelBytes : List Bytes → Type 0
AllLabelBytes [] = Unit
AllLabelBytes (l ∷ ls) = AllBytes l × AllLabelBytes ls

onto_first-bytes :
    (x : ℕ) (ps : List Bytes) → x < 256 → AllLabelBytes ps → AllLabelBytes (onto_first x ps)
onto_first-bytes x [] byte h = ((byte, tt), tt)
onto_first-bytes x (p ∷ ps) byte (h, hs) = ((byte, h), hs)

split-bytes : (c : ℕ) (s : Bytes) → AllBytes s → AllLabelBytes (split c s)
unfolding split
split-bytes c [] h = (tt, tt)
split-bytes c (x ∷ s) (byte, h) = elim (Bool-cases (x == c)) [
  | inl same ↦ rw same (tt, split-bytes c s h)
  | inr other ↦ rw other (onto_first-bytes x (split c s) byte (split-bytes c s h))
]

label_bytes-AllBytes : (ls : List Bytes) → AllLabelBytes ls → AllBytes (label_bytes ls)
unfolding label_bytes
label_bytes-AllBytes [] h = tt
label_bytes-AllBytes (l ∷ ls) (h, hs) =
    (omega arith, AllBytes-append l (label_bytes ls) h (label_bytes-AllBytes ls hs))

query-AllBytes : (domain : Bytes) → AllBytes domain → AllBytes (build_dns_query domain 65)
unfolding build_dns_query
query-AllBytes domain h =
    let labels = label_bytes-AllBytes (split b'.' domain) (split-bytes b'.' domain h) in
    let all =
      AllBytes-append (label_bytes (split b'.' domain)) (0 ∷ 0 ∷ 65 ∷ 0 ∷ 1 ∷ []) labels
        (omega arith, (omega arith, (omega arith, (omega arith, (omega arith, tt))))) in
    (
      omega arith,
      (
        omega arith,
        (
          omega arith,
          (
            omega arith,
            (
              omega arith,
              (
                omega arith,
                (
                  omega arith,
                  (omega arith, (omega arith, (omega arith, (omega arith, (omega arith, all))))),
                ),
              ),
            ),
          ),
        ),
      ),
    )

module _ (domain : Bytes) (bytes : AllBytes domain) where
  abbrev message : Bytes
  message = build_dns_query domain 65

  raw_query_lem : encode (doh_values domain []) ≡ codes "dns=" ++ raw_url_encode message
  unfolding encode doh_values encode_keys encode_key sort_keys insert_sorted
  raw_query_lem =
      let plain =
        query_escape_plain (raw_url_encode message)
          (raw_url_encode-AllUnreserved message (query-AllBytes domain bytes)) in
      let only : doh_values domain [] ≡ (codes "dns", raw_url_encode message ∷ []) ∷ [] =
        unfold insert in unfold erase in unfold bytes_eq in refl in
      rw (only, encode) (rw plain (unfold query_escape in refl))

-- The message that a server of RFC 8484 reads from a request whose URL has this one parameter.
abbrev pub asked : Request → Option Bytes
asked r =
    if has_prefix (codes "dns=") r.raw_query then raw_url_decode (drop 4 r.raw_query) else none

request_asks :
    (domain : Bytes) (u : Url)
    → AllBytes domain
    → u.query ≡ []
    → asked (doh_request domain u) ≡ some (build_dns_query domain 65)
unfolding doh_request
request_asks domain u bytes plain =
    let message = build_dns_query domain 65 in
    rw (plain, doh_request)
      (rw (raw_query_lem domain bytes)
        (raw_url_decode-encode message (query-AllBytes domain bytes)))

module _ (web : Web) (domain server : Bytes) (u : Url) (body : Bytes) (bytes : AllBytes domain)
    (parsed : web.parse_url (doh_url server) ≡ some u) (plain : u.query ≡ [])
    (taken : (base raw : Bytes) → web.request_ok base raw ≡ true)
    (serves : (r : Request)
      → asked r ≡ some (build_dns_query domain 65)
      → web.exchange r ≡ some (record { status = 200; body = some body })) where
  -- A server that answers the program's message with a body: the body is what queryDoH gets, since
  -- the server reads exactly the message of buildDNSQuery from the request.
  pub doh_body-served : doh_body web domain (doh_url server) ≡ some body
  unfolding doh_body
  doh_body-served =
      rw (parsed, doh_body)
        (rw (taken (doh_request domain u).base (doh_request domain u).raw_query)
          (rw (serves (doh_request domain u) (request_asks domain u bytes plain)) refl))

module _ (web : Web) (domain server : Bytes) (u : Url) (bytes : AllBytes domain)
    (parsed : web.parse_url (doh_url server) ≡ some u) (plain : u.query ≡ [])
    (taken : (base raw : Bytes) → web.request_ok base raw ≡ true) (a : Answer) (priority : ℕ)
    (target : List Bytes) (ps : Params) (b : ℕ) (config : Bytes)
    (https : HttpsAnswer a priority target ps) (labels : AllLabels target) (params : AllParams ps)
    (config_bytes : AllBytes (b ∷ config)) (holds : first_ech ps ≡ encode_to_string (b ∷ config))
    (h : Header) (earlier later : List Answer) (tail : Bytes)
    (labels_ok : AllLabels (split b'.' domain)) (nothing : first_https earlier ≡ [])
    (answers_ok : AllAnswers (earlier ++ a ∷ later)) (few : length (earlier ++ a ∷ later) < 65536)
    (serves : (r : Request)
      → asked r ≡ some (build_dns_query domain 65)
      → web.exchange r
        ≡ some (record {
          status = 200;
          body = some (response h domain (earlier ++ a ∷ later) tail);
        })) where
  -- From the request to the cache: however many queries fail before it, one query ends prepareECH to
  -- a server that answers the message of buildDNSQuery, as it reads it from the request, with
  -- a response that repeats the question, has any header, TTLs and further sections, and has, behind
  -- answers in which nothing is found, such as a CNAME, an HTTPS record with a non-empty ECH
  -- parameter. The list that it caches is that parameter's value, byte for byte. The URL of the
  -- server has no parameters of its own; the answers are fewer than 65536, and their names are
  -- pointers or labels up to the root, but never labels that go on with a pointer; the labels of
  -- the domain and of the target name are not empty and shorter than 256 bytes.
  pub served_config_cached :
      (failures : ℕ) (bodies : List (Option Bytes))
      → prepare_ech (replicate failures none ++ doh_body web domain (doh_url server) ∷ bodies)
        ≡ some (b ∷ config)
  served_config_cached failures bodies =
      let body = response h domain (earlier ++ a ∷ later) tail in
      rw (doh_body-served web domain server u body bytes parsed plain taken serves) (
        prepare_ech-response a priority target ps b config https labels params config_bytes holds h
          domain earlier later tail bodies labels_ok nothing answers_ok few failures)
