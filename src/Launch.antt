-- ===== src/Launch.antt =====
-- main.go, and how its three modes begin: runTCPClient of tcp_client.go and runProxyServer of
-- proxy.go. The server's part is in Server/Access.antt.
pub mod Rules
pub mod Ech
use ech_tunnel.Base.{
  ℕ, Bool, true, false, not, ◌||◌, List, [], ◌∷◌, Option, none, some, if◌then◌else◌, Bytes, codes,
  bytes_eq, is_empty, has_prefix, trim_prefix, trim_space, split,
}
use ech_tunnel.Pool.{Pool, new_ech_pool}
use ech_tunnel.Socks5.Handshake.{ProxyConfig}
use ech_tunnel.Proxy.{parse_proxy_addr}
use ech_tunnel.Http.Request.{Url}
use ech_tunnel.Ech.Cache.{prepare_ech}

-- A listener of the forwarder.
pub record Rule : Type 0 where
  pub listen : Bytes
  pub target : Bytes

-- `strings.Split(rule, "/")` of a rule, in front of the rules behind it; `none` is a fatal error.
unfoldable pub add_rule : List Bytes → Option (List Rule) → Option (List Rule)
add_rule (listen ∷ target ∷ []) (some rules) =
    some (record { listen = trim_space listen; target = trim_space target } ∷ rules)
add_rule parts rules = none

unfoldable pub rules_of : List Bytes → Option (List Rule)
unfolding add_rule
rules_of [] = some []
rules_of (text ∷ texts) =
    let later = rules_of texts in
    let rule = trim_space text in if is_empty rule then later else add_rule (split b'/' rule) later

unfoldable pub parse_rules : Bytes → Option (List Rule)
unfolding rules_of
parse_rules addr = rules_of (split b',' (trim_prefix (codes "tcp://") addr))

-- The flags that the modes read.
pub record Flags : Type 0 where
  pub listen_addr : Bytes
  pub forward_addr : Bytes
  pub connection_num : ℕ

-- `url.Parse`, which addresses can be listened on, and the bodies that prepareECH gets.
pub record Env : Type 0 where
  pub parse_url : Bytes → Option Url
  pub listen_ok : Bytes → Bool
  pub responses : List (Option Bytes)

-- How the program begins: it ends at once, it is still asking for the ECH list, or it serves, as a
-- server at an address, or as a client that has a pool and an ECH list.
pub data Start : Type 0 where
  fatal preparing : Start
  server : Bytes → Start
  forwarder : Bytes → Pool → List Rule → Start
  proxy : Bytes → Pool → ProxyConfig → Start

-- The checks of the server's address that the two client modes share.
unfoldable pub is_wss : Env → Bytes → Bool
is_wss env addr =
    if is_empty addr
    then false
    else elim (env.parse_url addr) [ none ↦ false | some url ↦ bytes_eq url.scheme (codes "wss") ]

unfoldable pub run_tcp_client : Env → Flags → Bytes → Start
unfolding is_wss parse_rules
run_tcp_client env flags ech =
    if is_wss env flags.forward_addr
    then elim (parse_rules flags.listen_addr) [
      | none ↦ fatal
      | some rules ↦ forwarder ech (new_ech_pool flags.forward_addr flags.connection_num) rules
    ]
    else fatal

unfoldable pub run_proxy_server : Env → Flags → Bytes → Start
unfolding is_wss parse_proxy_addr
run_proxy_server env flags ech =
    if is_wss env flags.forward_addr
    then elim (parse_proxy_addr flags.listen_addr) [
      | none ↦ fatal
      | some config ↦
          if env.listen_ok config.host
          then proxy ech (new_ech_pool flags.forward_addr flags.connection_num) config
          else fatal
    ]
    else fatal

-- `run` once prepareECH has returned, which it does only with a list.
unfoldable pub with_ech : Option Bytes → (Bytes → Start) → Start
with_ech none run = preparing
with_ech (some ech) run = run ech

unfoldable pub main : Env → Flags → Start
unfolding run_tcp_client run_proxy_server with_ech
main env flags =
    if has_prefix (codes "ws://") flags.listen_addr || has_prefix (codes "wss://") flags.listen_addr
    then server flags.listen_addr
    else if has_prefix (codes "tcp://") flags.listen_addr
    then with_ech (prepare_ech env.responses) (run_tcp_client env flags)
    else if has_prefix (codes "proxy://") flags.listen_addr
    then with_ech (prepare_ech env.responses) (run_proxy_server env flags)
    else fatal
