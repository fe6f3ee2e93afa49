-- ===== src/Http/Tunnelled.antt =====
-- A CONNECT request, from the bytes that the client sends to the tunnel, http_proxy.go.
use ech_tunnel.Base.{
  if◌then◌else◌, false, [], ◌∷◌, ◌++◌, ◌≡◌, refl, Bytes, codes, contains_byte, bytes_eq,
}
use ech_tunnel.Socks5.Handshake.{ProxyConfig}
use ech_tunnel.Http.{Headers, is_authorized}
use ech_tunnel.Http.Request.{crlf}
use ech_tunnel.Http.Handler.{
  Env, tunnel, answer, auth_required, connect_with, handle_connect, dispatch, handle_http_protocol,
}
use ech_tunnel.Http.Fields.{
  AllFields, field_lines, add_fields, read_line-append, read_http_headers-fields,
}
use ech_tunnel.Http.Forwarding.{request_start, request_start-plain}
use ech_tunnel.Http.Exchange.{trim_space-request, split_n-request}

-- What the client sends: the request line, its headers and whatever follows.
abbrev pub connect_text : Bytes → Headers → Bytes → Bytes
connect_text target fs rest =
    request_start (codes "CONNECT") target ++ b'\n' ∷ (field_lines fs ++ (crlf ++ rest))

-- A CONNECT request with well-formed headers and a target without a space or a line end is decided by
-- the credentials alone: where the headers, the last value of each name, are accepted, the proxy
-- opens a tunnel to exactly the target that the client has named, and otherwise it asks for
-- credentials.
pub connect_decided :
    (env : Env) (config : ProxyConfig) (target : Bytes) (fs : Headers) (rest : Bytes)
    → contains_byte 32 target ≡ false
    → contains_byte b'\n' target ≡ false
    → AllFields fs
    → handle_http_protocol env config (connect_text target fs rest)
      ≡ (if is_authorized config (add_fields fs []) then tunnel target else answer auth_required)
unfolding handle_http_protocol dispatch handle_connect connect_with bytes_eq contains_byte
connect_decided env config target fs rest word line all =
    rw
      (
        read_line-append (request_start (codes "CONNECT") target) (field_lines fs ++ (crlf ++ rest))
            (request_start-plain (codes "CONNECT") target refl line),
        handle_http_protocol,
      )
      (rw (trim_space-request (codes "CONNECT") target refl) (
        rw (split_n-request (codes "CONNECT") target refl word)
          (rw (read_http_headers-fields fs rest all, dispatch, handle_connect) refl)))
