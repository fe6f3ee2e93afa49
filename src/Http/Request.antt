-- ===== src/Http/Request.antt =====
-- http_proxy.go: the request that the HTTP proxy builds for the target, and its address.
use ech_tunnel.Base.{
  Bool, ◌||◌, [], ◌∷◌, ◌++◌, if◌then◌else◌, Bytes, codes, lookup, bytes_eq, bytes_key, is_empty,
  is_none, contains_byte,
}
use ech_tunnel.Http.{Headers}

-- The parts of a `url.URL` that are used.
pub record Url : Type 0 where
  pub scheme : Bytes
  pub host : Bytes
  pub path : Bytes
  pub raw_query : Bytes

-- The address to dial.
unfoldable pub target_address : Url → Bytes
target_address url =
    if contains_byte b':' url.host
    then url.host
    else if bytes_eq url.scheme (codes "https")
    then url.host ++ codes ":443"
    else url.host ++ codes ":80"

-- The path of the request line, with the query.
unfoldable pub request_path : Url → Bytes
request_path url =
    let path = if is_empty url.path then codes "/" else url.path in
    if is_empty url.raw_query then path else path ++ b'?' ∷ url.raw_query

abbrev pub crlf : Bytes
crlf = b'\r' ∷ b'\n' ∷ []

unfoldable pub is_proxy_header : Bytes → Bool
is_proxy_header key =
    bytes_eq key (codes "Proxy-Authorization") || bytes_eq key (codes "Proxy-Connection")

-- `Key: Value` and the end of the line
abbrev pub header_line : Bytes → Bytes → Bytes
header_line key value = key ++ (b':' ∷ 32 ∷ (value ++ crlf))

-- The headers that are passed on, a line each, in the order in which the map is visited.
unfoldable pub forwarded_lines : Headers → Bytes
unfolding is_proxy_header
forwarded_lines [] = []
forwarded_lines ((key, value) ∷ m) =
    let lines = forwarded_lines m in
    if is_proxy_header key then lines else header_line key value ++ lines

-- The `Host` line, where the client sent none.
unfoldable pub host_line : Url → Headers → Bytes
host_line url m =
    if is_none (lookup (codes "Host") m) then header_line (codes "Host") url.host else []

-- The request as the target gets it; the headers are in the order in which they are visited.
unfoldable pub build_request : Bytes → Url → Headers → Bytes → Bytes
unfolding request_path forwarded_lines host_line
build_request method url m body =
    method
    ++ (32
        ∷ (request_path url
            ++ (codes " HTTP/1.1"
                ++ (crlf ++ (forwarded_lines m ++ (host_line url m ++ (crlf ++ body)))))))
