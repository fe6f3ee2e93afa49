-- ===== src/Socks5/Association.antt =====
-- socks5.go: `UDPAssociation`, from the datagrams of the client to the pool and back.
pub mod Datagrams
pub mod World
pub mod Talk
pub mod Spoken
pub mod Shared
pub mod Signals
pub mod Others
use ech_tunnel.Base.{
  ℕ, Bool, true, false, List, [], ◌∷◌, ◌++◌, Option, none, some, if◌then◌else◌, Bytes, bytes_eq,
  split, not,
}
use ech_tunnel.Pool
use ech_tunnel.Pool.{Pool}
use ech_tunnel.Pool.Send.{Error, send_udp_connect, send_udp_data, send_udp_close}
use ech_tunnel.Socks5.{ok, err, parse_socks5_udp_packet, build_socks5_udp_packet}

-- The fields that change, and the identifier. An address of a client is its printed form. The pool
-- and the listener are never nil.
pub record Association : Type 0 where
  pub conn_id : Bytes
  pub client_udp_addr : Option Bytes
  pub closed : Bool
  pub receiving : Bool

-- What an operation does, in order: what the pool does, a datagram to the client, the start of the
-- goroutine that waits for UDP_CONNECTED, the end of the listener, and a value for `done`.
pub data Effect : Type 0 where
  of_pool : Pool.Effect → Effect
  to_client : Bytes → Bytes → Effect
  go_wait : Bytes → Effect
  listener_close : Effect
  signal_done : Effect

-- `net.ParseIP`, the low 16 bits of the number that `fmt.Sscanf` finds with %d (0 if there is
-- none), and which datagrams to the client are sent.
pub record Env : Type 0 where
  pub pool : Pool.Env
  pub parse_ip : Bytes → Option Bytes
  pub scan_port : Bytes → ℕ
  pub udp_ok : Bytes → Bool

abbrev pub State : Type 0
State = Association × Pool

abbrev pub of_pools : List Pool.Effect → List Effect
of_pools [] = []
of_pools (e ∷ es) = of_pool e ∷ of_pools es

-- assoc.pool.SendUDPData, the last part of sendUDPData
unfoldable pub forward : Env → Bytes → Association → Pool → State × List Effect
forward env payload a p = ((a, p), of_pools (send_udp_data env.pool a.conn_id payload p).1)

-- The first part, when no UDP_CONNECT has been tried before.
unfoldable pub connect_first : Env → Bytes → Bytes → Association → Pool → State × List Effect
unfolding forward
connect_first env target payload a p =
    let b = record a { receiving = true } in
    let (q, error, es) = send_udp_connect env.pool a.conn_id target p in
    elim error [
      | some e ↦ ((b, q), of_pools es)
      | none ↦ let (s, fs) = forward env payload b q in (s, of_pools es ++ go_wait a.conn_id ∷ fs)
    ]

-- The caller only logs the error.
unfoldable pub send_data : Env → Bytes → Bytes → State → State × List Effect
unfolding connect_first forward
send_data env target payload (a, p) =
    if a.closed
    then ((a, p), [])
    else if a.receiving
    then forward env payload a p
    else connect_first env target payload a p

unfoldable pub handle_udp_packet : Env → Bytes → State → State × List Effect
unfolding send_data
handle_udp_packet env packet s = elim (parse_socks5_udp_packet packet) [
  | err e ↦ (s, [])
  | ok (target, payload) ↦ send_data env target payload s
]

-- One round of handleUDPRelay on a datagram from `src`: the first sender is the client, and the
-- others are ignored.
unfoldable pub handle_udp_relay : Env → Bytes → Bytes → State → State × List Effect
unfolding handle_udp_packet
handle_udp_relay env src packet (a, p) = elim a.client_udp_addr [
  | none ↦ handle_udp_packet env packet (record a { client_udp_addr = some src }, p)
  | some addr ↦ if bytes_eq addr src then handle_udp_packet env packet (a, p) else ((a, p), [])
]

-- The reply to the client, if it has sent something before.
unfoldable pub reply : Env → Bytes → Association → List Effect
reply env packet a = elim a.client_udp_addr [
  | none ↦ []
  | some addr ↦
      if env.udp_ok packet
      then to_client addr packet ∷ []
      else to_client addr packet ∷ signal_done ∷ []
]

unfoldable pub respond : Env → List Bytes → Bytes → Association → List Effect
unfolding reply
respond env (host ∷ port ∷ []) payload a =
    elim (build_socks5_udp_packet env.parse_ip host (env.scan_port port) payload) [
      | err e ↦ []
      | ok packet ↦ reply env packet a
    ]
respond env parts payload a = []

unfoldable pub handle_udp_response : Env → Bytes → Bytes → Association → List Effect
unfolding respond
handle_udp_response env addr payload a = respond env (split b':' addr) payload a

unfoldable pub close : Env → State → State × List Effect
close env (a, p) =
    if a.closed
    then ((a, p), [])
    else (let (q, error, es) = send_udp_close env.pool a.conn_id p in
        ((record a { closed = true }, q), of_pools es ++ listener_close ∷ []))
