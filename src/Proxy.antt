-- ===== src/Proxy.antt =====
-- proxy.go: `parseProxyAddr`, and the choice of the protocol in `handleProxyConnection`.
pub mod Connection
pub mod Doors
use ech_tunnel.Base.{
  ℕ, ◌||◌, false, List, [], ◌∷◌, ◌++◌, Option, none, some, ◌≡◌, refl, ◌==◌, if◌then◌else◌, Bytes,
  codes, trim_prefix, contains_byte, split_n, split_n-append_two, contains_byte-middle,
  contains_byte-append,
}
use ech_tunnel.Socks5.Handshake.{ProxyConfig}

-- The name and the password of an authentication part that holds a colon. There are two parts then,
-- so the last clause is never reached.
unfoldable pub name_and_password : List Bytes → Bytes → ProxyConfig
name_and_password (user ∷ pass ∷ []) host = record { username = user; password = pass; host = host }
name_and_password parts host = record { username = []; password = []; host = host }

-- `none` is the error of an address without two parts.
unfoldable pub auth_and_host : List Bytes → Option ProxyConfig
unfolding name_and_password
auth_and_host (auth ∷ host ∷ []) = some (
    if contains_byte b':' auth
    then name_and_password (split_n b':' auth 2) host
    else record { username = []; password = []; host = host })
auth_and_host parts = none

unfoldable pub parse_proxy_addr : Bytes → Option ProxyConfig
unfolding auth_and_host
parse_proxy_addr addr =
    let rest = trim_prefix (codes "proxy://") addr in
    if contains_byte b'@' rest
    then auth_and_host (split_n b'@' rest 2)
    else some (record { username = []; password = []; host = rest })

pub data Protocol : Type 0 where
  socks5 http unknown : Protocol

-- The first byte of a connection: 5, or the first letter of a method.
unfoldable pub protocol_of : ℕ → Protocol
protocol_of b =
    if b == 5
    then socks5
    else if b == b'G' || b == b'P' || b == b'C' || b == b'H' || b == b'D' || b == b'O'
    then http
    else unknown

-- An address with a name, a password and a host is read back: the name holds neither `:` nor `@`,
-- and the password holds no `@`.
pub parse_proxy_addr-auth :
    (user pass host : Bytes)
    → contains_byte b':' user ≡ false
    → contains_byte b'@' user ≡ false
    → contains_byte b'@' pass ≡ false
    → parse_proxy_addr (codes "proxy://" ++ ((user ++ b':' ∷ pass) ++ b'@' ∷ host))
      ≡ some (record { username = user; password = pass; host = host })
unfolding parse_proxy_addr trim_prefix
parse_proxy_addr-auth user pass host colon at at2 =
    let auth : Bytes = user ++ b':' ∷ pass in
    let plain : contains_byte b'@' auth ≡ false =
      contains_byte-append b'@' user (b':' ∷ pass) at (unfold contains_byte in at2) in
    rw (contains_byte-middle b'@' auth host, parse_proxy_addr)
      (rw (split_n-append_two b'@' auth host plain) (
        rw (contains_byte-middle b':' user pass, auth_and_host)
          (rw (split_n-append_two b':' user pass colon) (unfold name_and_password in refl))))
