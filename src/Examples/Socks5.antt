-- ===== src/Examples/Socks5.antt =====
-- socks5.go on a small datagram and on a conversation with authentication, and proxy.go on one address.
use ech_tunnel.Proxy.{parse_proxy_addr, parse_proxy_addr-auth}
use ech_tunnel.Base.{
  true, [], ◌∷◌, Option, none, some, ◌≡◌, refl, arith, Bytes, codes, length, bytes_eq, decimal,
  contains_byte, ◌++◌,
}
use ech_tunnel.Socks5.{
  ok, parse_socks5_udp_packet, build_socks5_udp_packet, reply_address, target_text,
}
use ech_tunnel.Socks5.RoundTrip.{sender_text, parse-build}
use ech_tunnel.Socks5.Handshake.{
  ProxyConfig, go, connect, handle_socks5_protocol, handle_user_pass_auth, handle_request,
  choose_method, read_full, write,
}

abbrev no_addresses : Bytes → Option Bytes
no_addresses host = none

no_addresses_long : (h ip : Bytes) → no_addresses h ≡ some ip → length ip ≡ 16
no_addresses_long h ip e = cc

abbrev datagram : Bytes
datagram = 0 ∷ 0 ∷ 0 ∷ 3 ∷ 2 ∷ b'a' ∷ b'b' ∷ 0 ∷ 53 ∷ b'!' ∷ []

parse-build_example :
    parse_socks5_udp_packet datagram ≡ ok (sender_text no_addresses (codes "ab") 53, codes "!")
unfolding build_socks5_udp_packet reply_address
parse-build_example =
    parse-build no_addresses no_addresses_long (codes "ab") (codes "!") 53 (omega arith) refl
      (omega arith)

abbrev pub config : ProxyConfig
config = record { username = codes "u"; password = codes "p"; host = codes "127.0.0.1:1080" }

-- Methods 0 and 2, the name `u`, the password `p`, and CONNECT to `a:80`.
abbrev pub conversation : Bytes
conversation = 2 ∷ 0 ∷ 2 ∷ 1 ∷ 1 ∷ b'u' ∷ 1 ∷ b'p' ∷ 5 ∷ 1 ∷ 0 ∷ 3 ∷ 1 ∷ b'a' ∷ 0 ∷ 80 ∷ []

conversation_runs :
    handle_socks5_protocol (λ _. true) config conversation
    ≡ go ((5 ∷ 2 ∷ []) ∷ (1 ∷ 0 ∷ []) ∷ []) (connect (codes "a:80")) []
unfolding handle_socks5_protocol handle_user_pass_auth handle_request choose_method read_full write
    bytes_eq target_text decimal
conversation_runs = refl

parse_proxy_addr-auth_example :
    parse_proxy_addr
      (codes "proxy://" ++ ((codes "u" ++ b':' ∷ codes "p:q") ++ b'@' ∷ codes "127.0.0.1:1080"))
    ≡ some (record { username = codes "u"; password = codes "p:q"; host = codes "127.0.0.1:1080" })
unfolding contains_byte
parse_proxy_addr-auth_example =
    parse_proxy_addr-auth (codes "u") (codes "p:q") (codes "127.0.0.1:1080") refl refl refl
