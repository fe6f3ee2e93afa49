-- ===== src/Http.antt =====
-- http_proxy.go: what the HTTP proxy reads of a request, and its authentication.
pub mod Request
pub mod Handler
pub mod Fields
pub mod Auth
pub mod Admission
pub mod Total
pub mod Kept
pub mod Forwarding
pub mod Exchange
pub mod Tunnelled
pub mod Visited
use ech_tunnel.Base.{
  ℕ, zero, suc, ◌<◌, Bool, true, false, not, ◌&&◌, ◌||◌, List, [], ◌∷◌, ◌++◌, Option, none, some,
  ltb, ◌==◌, if◌then◌else◌, Bytes, codes, Map, lookup, insert, bytes_eq, bytes_key, is_empty,
  is_none, has_prefix, trim_prefix, contains_byte, cut, split_n, trim_space, length, take, drop,
}
use ech_tunnel.Base64.{decode_string}
use ech_tunnel.Socks5.Handshake.{ProxyConfig}

-- reader.ReadString('\n'): the line with its end, and the rest; `none` is its error. The input is
-- all that the client will send.
unfoldable pub read_line : Bytes → Option (Bytes × Bytes)
read_line s = elim (cut b'\n' s) [
  | none ↦ none
  | some (line, rest) ↦ some (line ++ b'\n' ∷ [], rest)
]

abbrev pub Headers : Type 0
Headers = Map Bytes Bytes

-- How reading the headers ends; `stuck` is no error of the code but an end of the fuel.
pub data HeadersRead : Type 0 where
  headers : Headers → Bytes → HeadersRead
  read_failed stuck : HeadersRead

-- `headers[key] = value` for a line of two parts; any other line is skipped.
unfoldable pub add_header : List Bytes → Headers → Headers
add_header (key ∷ value ∷ []) m = insert (trim_space key) (trim_space value) m
add_header parts m = m

-- The loop of readHTTPHeaders; each line takes a byte at least.
unfoldable pub header_rounds : ℕ → Headers → Bytes → HeadersRead
unfolding read_line add_header
header_rounds zero m s = stuck
header_rounds (suc fuel) m s = elim (read_line s) [
  | none ↦ read_failed
  | some (line, rest) ↦ elim (is_empty (trim_space line)) [
    | true ↦ headers m rest
    | false ↦ header_rounds fuel (add_header (split_n b':' (trim_space line) 2) m) rest
  ]
]

unfoldable pub read_http_headers : Bytes → HeadersRead
unfolding header_rounds
read_http_headers s = header_rounds (suc (length s)) [] s

abbrev pub basic_prefix : Bytes
basic_prefix = codes "Basic "

-- The test of a decoded `username:password`.
unfoldable pub same_credentials : List Bytes → Bytes → Bytes → Bool
same_credentials (user ∷ pass ∷ []) username password =
    bytes_eq user username && bytes_eq pass password
same_credentials parts username password = false

unfoldable pub validate_proxy_auth : Bytes → Bytes → Bytes → Bool
unfolding same_credentials
validate_proxy_auth auth_header username password =
    if is_empty auth_header
    then false
    else if has_prefix basic_prefix auth_header
    then elim (decode_string (trim_prefix basic_prefix auth_header)) [
      | none ↦ false
      | some decoded ↦ same_credentials (split_n b':' decoded 2) username password
    ]
    else false

abbrev pub or_empty : Option Bytes → Bytes
or_empty none = []
or_empty (some s) = s

-- Whether the headers may pass: no credentials are configured, or they are the configured ones.
unfoldable pub is_authorized : ProxyConfig → Headers → Bool
unfolding validate_proxy_auth
is_authorized config m =
    if not (is_empty config.username) && not (is_empty config.password)
    then validate_proxy_auth (or_empty (lookup (codes "Proxy-Authorization") m)) config.username
        config.password
    else true
