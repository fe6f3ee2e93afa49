-- ===== src/Http/Handler.antt =====
-- http_proxy.go: `handleHTTPProtocol`, `handleHTTPConnect` and `handleHTTPForward`, up to the
-- connection to the target.
use ech_tunnel.Base.{
  ℕ, ◌&&◌, List, [], ◌∷◌, ◌++◌, Option, none, some, ltb, if◌then◌else◌, Bytes, codes, lookup,
  bytes_eq, bytes_key, split_n, trim_space, length, take,
}
use ech_tunnel.Socks5.Handshake.{ProxyConfig}
use ech_tunnel.Http.{
  Headers, headers, read_failed, stuck, read_line, read_http_headers, is_authorized, HeadersRead,
}
use ech_tunnel.Http.Request.{Url, crlf, target_address, build_request}

-- net/url's Parse, the number that fmt.Sscanf finds with %d, or 0 where it finds none or one
-- below 0, and the order in which a range loop visits the entries of a map, which Go leaves open.
pub record Env : Type 0 where
  pub parse_url : Bytes → Option Url
  pub scan_length : Bytes → ℕ
  pub visit : Headers → Headers

-- How the handler goes on once it has read a request: it returns, it answers and returns, or it
-- opens a connection to a target, for a tunnel or with a first frame.
pub data Decision : Type 0 where
  hang_up : Decision
  answer : Bytes → Decision
  tunnel : Bytes → Decision
  forward : Bytes → Bytes → Decision
  out_of_fuel : Decision

abbrev pub bad_request : Bytes
bad_request = codes "HTTP/1.1 400 Bad Request" ++ (crlf ++ crlf)

abbrev pub auth_required : Bytes
auth_required =
    codes "HTTP/1.1 407 Proxy Authentication Required"
    ++ (crlf ++ (codes "Proxy-Authenticate: Basic realm=\"Proxy\"" ++ (crlf ++ crlf)))

-- 10 MB, which a body has to stay below
abbrev pub body_limit : ℕ
body_limit = 10485760

-- The body; `none` is the error of a body that is cut off.
unfoldable pub read_body : Env → Headers → Bytes → Option Bytes
read_body env m input = elim (lookup (codes "Content-Length") m) [
  | none ↦ some []
  | some text ↦
      let size = env.scan_length text in
      if ltb 0 size && ltb size body_limit
      then if ltb (length input) size then none else some (take size input)
      else some []
]

-- handleHTTPConnect once it has tried to read the headers, and the whole of it.
unfoldable pub connect_with : ProxyConfig → Bytes → HeadersRead → Decision
unfolding is_authorized
connect_with config target (headers m rest) =
    if is_authorized config m then tunnel target else answer auth_required
connect_with config target read_failed = answer bad_request
connect_with config target stuck = out_of_fuel

unfoldable pub handle_connect : ProxyConfig → Bytes → Bytes → Decision
unfolding connect_with
handle_connect config target input = connect_with config target (read_http_headers input)

-- The same for handleHTTPForward.
unfoldable pub forward_with : Env → ProxyConfig → Bytes → Url → HeadersRead → Decision
unfolding is_authorized read_body
forward_with env config method url (headers m rest) =
    if is_authorized config m
    then elim (read_body env m rest) [
      | none ↦ answer bad_request
      | some body ↦ forward (target_address url) (build_request method url (env.visit m) body)
    ]
    else answer auth_required
forward_with env config method url read_failed = answer bad_request
forward_with env config method url stuck = out_of_fuel

unfoldable pub handle_forward : Env → ProxyConfig → Bytes → Bytes → Bytes → Decision
unfolding forward_with
handle_forward env config method request_url input = elim (env.parse_url request_url) [
  | none ↦ answer bad_request
  | some url ↦ forward_with env config method url (read_http_headers input)
]

-- The parts of the request line: the method, the URL and the version.
unfoldable pub dispatch : Env → ProxyConfig → List Bytes → Bytes → Decision
unfolding handle_connect handle_forward
dispatch env config (method ∷ request_url ∷ version ∷ []) input =
    if bytes_eq method (codes "CONNECT")
    then handle_connect config request_url input
    else handle_forward env config method request_url input
dispatch env config parts input = hang_up

-- handleHTTPProtocol; the first byte, which handleProxyConnection has read, is in the input.
unfoldable pub handle_http_protocol : Env → ProxyConfig → Bytes → Decision
unfolding dispatch read_line
handle_http_protocol env config input = elim (read_line input) [
  | none ↦ hang_up
  | some (line, rest) ↦ dispatch env config (split_n 32 (trim_space line) 3) rest
]
