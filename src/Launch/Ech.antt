-- ===== src/Launch/Ech.antt =====
-- A client starts only with an ECH list and a server behind TLS.
use ech_tunnel.Base.{
  Bool, true, false, some, ◌≡◌, arith, Bytes, codes, bytes_eq_iff, has_prefix, Bool-cases,
  Option-cases, inl, inr, if◌then◌else◌, refl, ◌||◌,
}
use mathlib.Core.Path.{subst}
use ech_tunnel.Pool.{Pool, new_ech_pool}
use ech_tunnel.Http.Request.{Url}
use ech_tunnel.Ech.Cache.{prepare_ech}
use ech_tunnel.Launch.{
  Flags, Env, Start, fatal, preparing, server, forwarder, proxy, is_wss, run_tcp_client,
  run_proxy_server, with_ech, main, parse_rules,
}
use ech_tunnel.Proxy.{parse_proxy_addr}

-- `ech` is what prepareECH has got, the server's URL has the scheme wss, and the pool is a new one
-- for this server.
pub record IsBehindTls (env : Env) (flags : Flags) (ech : Bytes) (p : Pool) : Type 0 where
  pub asked : prepare_ech env.responses ≡ some ech
  pub url : Url
  pub parsed : env.parse_url flags.forward_addr ≡ some url
  pub tls : url.scheme ≡ codes "wss"
  pub fresh : p ≡ new_ech_pool flags.forward_addr flags.connection_num

-- A client of this start is behind TLS and does what the listen address says.
abbrev pub IsSecured : Env → Flags → Start → Type 0
IsSecured env flags (forwarder ech p rules) =
    IsBehindTls env flags ech p × (parse_rules flags.listen_addr ≡ some rules)
IsSecured env flags (proxy ech p config) =
    IsBehindTls env flags ech p × (parse_proxy_addr flags.listen_addr ≡ some config)
IsSecured env flags fatal = Unit
IsSecured env flags preparing = Unit
IsSecured env flags (server addr) = Unit

is_wss_lem :
    (env : Env) (addr : Bytes)
    → is_wss env addr ≡ true
    → (url : Url) × (env.parse_url addr ≡ some url) × (url.scheme ≡ codes "wss")
unfolding is_wss
is_wss_lem env addr h = elim (Option-cases (env.parse_url addr)) [
  | inl missing ↦ absurd (ground (arith, h, missing))
  | inr (url, found) ↦
      (url, found, (bytes_eq_iff url.scheme (codes "wss")).0 (ground (arith, h, found)))
]

behind :
    (env : Env) (flags : Flags) (ech : Bytes)
    → prepare_ech env.responses ≡ some ech
    → is_wss env flags.forward_addr ≡ true
    → IsBehindTls env flags ech (new_ech_pool flags.forward_addr flags.connection_num)
behind env flags ech asked h =
    let (url, parsed, tls) = is_wss_lem env flags.forward_addr h in
    record { asked = asked; url = url; parsed = parsed; tls = tls; fresh = refl }

module _ (env : Env) (flags : Flags) where
  tcp_client-IsSecured :
      (ech : Bytes)
      → prepare_ech env.responses ≡ some ech
      → IsSecured env flags (run_tcp_client env flags ech)
  unfolding run_tcp_client
  tcp_client-IsSecured ech asked = elim (Bool-cases (is_wss env flags.forward_addr)) [
    | inr plain ↦ rw plain tt
    | inl tls ↦ rw tls (elim (Option-cases (parse_rules flags.listen_addr)) [
      | inl missing ↦ rw missing tt
      | inr (rules, found) ↦ rw found (behind env flags ech asked tls, found)
    ])
  ]

  proxy-IsSecured :
      (ech : Bytes)
      → prepare_ech env.responses ≡ some ech
      → IsSecured env flags (run_proxy_server env flags ech)
  unfolding run_proxy_server
  proxy-IsSecured ech asked = elim (Bool-cases (is_wss env flags.forward_addr)) [
    | inr plain ↦ rw plain tt
    | inl tls ↦ rw tls (elim (Option-cases (parse_proxy_addr flags.listen_addr)) [
      | inl missing ↦ rw missing tt
      | inr (config, found) ↦ rw found (elim (Bool-cases (env.listen_ok config.host)) [
        | inr busy ↦ rw busy tt
        | inl bound ↦ rw bound (behind env flags ech asked tls, found)
      ])
    ])
  ]

  with_ech-IsSecured :
      (run : Bytes → Start)
      → ((ech : Bytes) → prepare_ech env.responses ≡ some ech → IsSecured env flags (run ech))
      → IsSecured env flags (with_ech (prepare_ech env.responses) run)
  unfolding with_ech
  with_ech-IsSecured run all = elim (Option-cases (prepare_ech env.responses)) [
    | inl missing ↦ rw missing tt
    | inr (ech, found) ↦ rw found (all ech found)
  ]

  IsSecured-if :
      (b : Bool) (x y : Start)
      → IsSecured env flags x
      → IsSecured env flags y
      → IsSecured env flags (if b then x else y)
  IsSecured-if true x y hx hy = hx
  IsSecured-if false x y hx hy = hy

  main_lem : IsSecured env flags (main env flags)
  unfolding main
  main_lem =
      let client = with_ech (prepare_ech env.responses) (run_tcp_client env flags) in
      let proxied = with_ech (prepare_ech env.responses) (run_proxy_server env flags) in
      let is_proxy = has_prefix (codes "proxy://") flags.listen_addr in
      let is_client = has_prefix (codes "tcp://") flags.listen_addr in
      let is_server =
        has_prefix (codes "ws://") flags.listen_addr
        || has_prefix (codes "wss://") flags.listen_addr in
      let last = if is_proxy then proxied else fatal in
      let other = if is_client then client else last in
      IsSecured-if is_server (server flags.listen_addr) other tt (
        IsSecured-if is_client client last
          (with_ech-IsSecured (run_tcp_client env flags) tcp_client-IsSecured)
          (IsSecured-if is_proxy proxied fatal
            (with_ech-IsSecured (run_proxy_server env flags) proxy-IsSecured) tt))

  -- However the program is started: when it serves as a client, forwarder or proxy, it has an ECH
  -- list that prepareECH has got from a response, the URL of its server has the scheme wss, its pool
  -- is new and dials that server, and its rules or its configuration are those of the listen
  -- address. It never serves as a client without them.
  pub main-IsSecured : (start : Start) → main env flags ≡ start → IsSecured env flags start
  main-IsSecured start begun = subst (IsSecured env flags) begun main_lem
