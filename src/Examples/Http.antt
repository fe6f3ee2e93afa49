-- ===== src/Examples/Http.antt =====
-- Requests to the HTTP proxy.
use mathlib.Core.List.{reverse}
use mathlib.Core.List.Permᴰ
use ech_tunnel.Base.{
  true, [], ◌∷◌, ◌++◌, some, ◌≡◌, ◌≢◌, ◌↔◌, inr, refl, Bytes, codes, lookup, bytes_key, bytes_eq,
  contains_byte, cut, split_n, trim_space, trim_right, trim_left, insert, trim_prefix, erase, none,
}
use ech_tunnel.Socks5.Handshake.{ProxyConfig}
use ech_tunnel.Http.{
  Headers, headers, read_line, read_http_headers, validate_proxy_auth, is_authorized,
}
use ech_tunnel.Http.Request.{Url, crlf, request_path, target_address}
use ech_tunnel.Http.Handler.{Env, handle_http_protocol, out_of_fuel, forward}
use ech_tunnel.Http.Fields.{IsField, AllFields, add_fields, field_lines}
use ech_tunnel.Http.Auth.{IsBasic, validate_proxy_auth_lem}
use ech_tunnel.Http.Admission.{opens}
use ech_tunnel.Http.Total.{handle_http_protocol_total}
use ech_tunnel.Http.Forwarding.{passed_on, request_start}
use ech_tunnel.Http.Exchange.{plain_request_arrives}
use ech_tunnel.Base64.{decode_string}

abbrev url : Url
url = record { scheme = codes "http"; host = codes "h"; path = codes "/a"; raw_query = codes "b" }

abbrev pub world : Env
world = record { parse_url = λ _. some url; scan_length = λ _. 0; visit = reverse }

abbrev config : ProxyConfig
config = record { username = codes "u"; password = codes "p"; host = codes ":80" }

abbrev request : Bytes
request =
    codes "CONNECT h:443 HTTP/1.1"
    ++ (crlf ++ (codes "Proxy-Authorization: Basic dTpw" ++ (crlf ++ crlf)))

request-opens : opens (handle_http_protocol world config request) ≡ true
unfolding handle_http_protocol cut split_n trim_space trim_right trim_left bytes_eq
    read_http_headers lookup insert decode_string trim_prefix
request-opens = refl

validate_proxy_auth_lem_example :
    (validate_proxy_auth (codes "Basic dTpw") (codes "u") (codes "p") ≡ true)
    ↔ IsBasic (codes "Basic dTpw") (codes "u") (codes "p")
unfolding contains_byte
validate_proxy_auth_lem_example =
    validate_proxy_auth_lem (codes "Basic dTpw") (codes "u") (codes "p") refl

handle_http_protocol_total_example : handle_http_protocol world config request ≢ out_of_fuel
handle_http_protocol_total_example = handle_http_protocol_total world config request

abbrev pub fields : Headers
fields = (codes "Accept", codes "*/*") ∷ (codes "Proxy-Connection", codes "close") ∷ []

pub fields_fit : AllFields fields
unfolding contains_byte
fields_fit = (
  record {
    key_first = refl;
    key_last = refl;
    no_colon = refl;
    key_line = refl;
    value_line = refl;
    value_ends = inr (refl, refl);
  },
  (
    record {
      key_first = refl;
      key_last = refl;
      no_colon = refl;
      key_line = refl;
      value_line = refl;
      value_ends = inr (refl, refl);
    },
    tt,
  ),
)

host_fits : IsField (codes "Host") (codes "h")
unfolding contains_byte
host_fits = record {
  key_first = refl;
  key_last = refl;
  no_colon = refl;
  key_line = refl;
  value_line = refl;
  value_ends = inr (refl, refl);
}

abbrev public : ProxyConfig
public = record { username = []; password = []; host = codes ":80" }

public_admits : is_authorized public (add_fields fields []) ≡ true
unfolding is_authorized
public_admits = refl

no_length : lookup (codes "Content-Length") (add_fields fields []) ≡ none
unfolding lookup insert erase bytes_eq
no_length = refl

plain_request_arrives_example :
    (first rest : Bytes) × (q : Headers) × (handle_http_protocol world public (
        request_start (codes "GET") (codes "http://h/a?b")
        ++ b'\n' ∷ (field_lines fields ++ (crlf ++ [])))
      ≡ forward (target_address url) first)
    × (read_line first ≡ some (request_start (codes "GET") (request_path url) ++ b'\n' ∷ [], rest))
    × (read_http_headers rest ≡ headers q [])
    × ((j : Bytes) → lookup j q ≡ passed_on url (add_fields fields []) j)
unfolding contains_byte request_path bytes_eq
plain_request_arrives_example =
    plain_request_arrives world public (codes "GET") (codes "http://h/a?b") url fields []
      public_admits refl refl refl refl refl refl refl fields_fit (inr (no_length, refl))
      (Permᴰ.symm (Permᴰ.reverse (add_fields fields []))) refl host_fits
