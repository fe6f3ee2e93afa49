-- ===== src/Examples/Launch.antt =====
-- The program as it is started, and the requests of its clients.
use ech_tunnel.Base.{
  true, false, [], ◌∷◌, ◌++◌, none, some, ◌≡◌, ◌↔◌, refl, Bytes, AllBytes, codes, length,
  contains_byte, trim_prefix, bytes_key, ◌≤◌, ◌+◌, ◌*◌, arith, ℕ, bytes_eq, split, trim_space,
  trim_left, trim_right,
}
use ech_tunnel.Http.Request.{Url}
use ech_tunnel.Socks5.Associate.{udp_response, udp_response_bounds}
use ech_tunnel.Launch
use ech_tunnel.Pool.{new_ech_pool}
use ech_tunnel.Proxy.{parse_proxy_addr}
use ech_tunnel.Examples.Ech.{served_body, served_list}
use ech_tunnel.Launch.{
  Rule, Flags, Start, proxy, main, parse_rules, with_ech, run_proxy_server, is_wss,
}
use ech_tunnel.Launch.Rules.{IsAddress, rules_text, parse_rules-text}
use ech_tunnel.Launch.Ech.{IsBehindTls, main-IsSecured}
use ech_tunnel.Server.Access
use ech_tunnel.Server.Access.{Request, Verdict, upgrade, serve, allowed_nets, nets_of, verdict}
use ech_tunnel.Server.Access.Admission.{IsAdmitted, upgrades-IsAdmitted}

abbrev server_url : Url
server_url = record { scheme = codes "wss"; host = codes "s"; path = []; raw_query = [] }

-- The first query fails, and the second one brings a response with an HTTPS record.
abbrev world : Launch.Env
world = record {
  parse_url = λ _. some server_url;
  listen_ok = λ _. true;
  responses = none ∷ some served_body ∷ [];
}

abbrev proxy_flags : Flags
proxy_flags = record {
  listen_addr = codes "proxy://:1080";
  forward_addr = codes "wss://s";
  connection_num = 3;
}

-- The proxy serves with the list of the record.
abbrev serving : Start
serving =
    proxy (1 ∷ 2 ∷ 3 ∷ []) (new_ech_pool (codes "wss://s") 3)
      (record { username = []; password = []; host = codes ":1080" })

proxy_starts : main world proxy_flags ≡ serving
unfolding main with_ech run_proxy_server is_wss parse_proxy_addr bytes_eq contains_byte trim_prefix
proxy_starts = rw served_list refl

main-IsSecured_example :
    IsBehindTls world proxy_flags (1 ∷ 2 ∷ 3 ∷ []) (new_ech_pool (codes "wss://s") 3)
    × (parse_proxy_addr (codes "proxy://:1080")
        ≡ some (record { username = []; password = []; host = codes ":1080" }))
main-IsSecured_example = main-IsSecured world proxy_flags serving proxy_starts

abbrev web : Rule
web = record { listen = codes ":80"; target = codes "w:80" }

abbrev tls : Rule
tls = record { listen = codes ":443"; target = codes "w:443" }

web_fits : IsAddress web.listen × IsAddress web.target
unfolding contains_byte
web_fits = (
  record { starts = refl; ends = refl; no_comma = refl; no_slash = refl },
  record { starts = refl; ends = refl; no_comma = refl; no_slash = refl },
)

tls_fits : IsAddress tls.listen × IsAddress tls.target
unfolding contains_byte
tls_fits = (
  record { starts = refl; ends = refl; no_comma = refl; no_slash = refl },
  record { starts = refl; ends = refl; no_comma = refl; no_slash = refl },
)

parse_rules-text_example :
    parse_rules (codes "tcp://" ++ rules_text web (tls ∷ [])) ≡ some (web ∷ tls ∷ [])
parse_rules-text_example =
    parse_rules-text web (tls ∷ []) (web_fits.0, web_fits.1, (tls_fits.0, tls_fits.1, tt))

-- A network is the first byte of an address, which its text begins with.
abbrev networks : Access.Env ℕ
networks = record {
  parse_url = λ _. some server_url;
  parse_cidr = λ s. elim s [ [] ↦ none | x ∷ _ ↦ some x ];
  contains = λ net ip. elim ip [ none ↦ false | some a ↦ bytes_eq a (net ∷ []) ];
  parse_ip = λ s. elim s [ [] ↦ none | x ∷ _ ↦ some (x ∷ []) ];
  split_host = λ s. some s;
}

abbrev guarded : Access.Flags
guarded = record { cidrs = codes "1,2"; token = codes "secret" }

abbrev from_2 : Request
from_2 = record { remote_addr = codes "2:99"; protocol = codes "secret" }

guarded_serves :
    serve networks guarded (codes "wss://s")
    ≡ some (codes "/", verdict networks guarded (b'1' ∷ b'2' ∷ []))
unfolding serve allowed_nets split trim_space trim_right trim_left bytes_eq
guarded_serves = refl

upgrades-IsAdmitted_example :
    (verdict networks guarded (b'1' ∷ b'2' ∷ []) from_2 ≡ upgrade)
    ↔ IsAdmitted networks guarded from_2
upgrades-IsAdmitted_example =
    upgrades-IsAdmitted networks guarded (codes "wss://s") (codes "/")
      (verdict networks guarded (b'1' ∷ b'2' ∷ [])) from_2 guarded_serves

udp_response_bounds_example :
    AllBytes (udp_response (127 ∷ 0 ∷ 0 ∷ 1 ∷ []) 4660)
    × (length (udp_response (127 ∷ 0 ∷ 0 ∷ 1 ∷ []) 4660) ≤ 22)
    × ((front : Bytes) × (high low : ℕ) × (udp_response (127 ∷ 0 ∷ 0 ∷ 1 ∷ []) 4660
          ≡ front ++ high ∷ low ∷ [])
        × (high * 256 + low ≡ 4660))
udp_response_bounds_example =
    udp_response_bounds (127 ∷ 0 ∷ 0 ∷ 1 ∷ []) 4660
      (omega arith, (omega arith, (omega arith, (omega arith, tt)))) (omega arith) (omega arith)
