-- ===== src/Server.antt =====
-- websocket_server.go: the state that `handleWebSocket` keeps for one WebSocket, what it does
-- outside that state, and the cleanup when the WebSocket ends.
pub mod Dispatch
pub mod Tcp
pub mod Udp
pub mod Messages
pub mod Paired
pub mod Steps
pub mod Access
pub mod Lifecycle
pub mod Life
use ech_tunnel.Base.{ℕ, Bool, List, [], ◌∷◌, ◌++◌, Option, Bytes, Map}
use ech_tunnel.Wire.{MsgType}

abbrev pub Conn : Type 0
Conn = ℕ

abbrev pub UdpConn : Type 0
UdpConn = ℕ

-- A resolved address, `*net.UDPAddr`.
abbrev pub UdpAddr : Type 0
UdpAddr = ℕ

-- The three maps; `connMu` guards each access.
pub record Session : Type 0 where
  pub conns : Map Bytes Conn
  pub udp_conns : Map Bytes UdpConn
  pub udp_targets : Map Bytes UdpAddr

-- What a step does outside the maps, in order. `go_tcp` starts `handleTCPConnection` with the
-- connection, the target and the first frame; `go_udp` starts the loop that reads a UDP socket.
pub data Effect : Type 0 where
  ws_write : MsgType → Bytes → Effect
  ws_close : Effect
  conn_write : Conn → Bytes → Effect
  conn_close : Conn → Effect
  udp_write : UdpConn → Bytes → UdpAddr → Effect
  udp_close : UdpConn → Effect
  go_tcp : Bytes → Bytes → Bytes → Effect
  go_udp : Bytes → UdpConn → Effect

-- The outside world during one step: address resolution, the next UDP socket, dials, and which
-- writes succeed.
pub record Env : Type 0 where
  pub resolve : Bytes → Option UdpAddr
  pub listen_udp : Option UdpConn
  pub dial : Bytes → Option Conn
  pub conn_ok : Conn → Bytes → Bool
  pub ws_ok : Bytes → Bool

abbrev pub Outcome : Type 0
Outcome = Session × List Effect

abbrev pub new_session : Session
new_session = record { conns = []; udp_conns = []; udp_targets = [] }

close_conns : Map Bytes Conn → List Effect
close_conns [] = []
close_conns ((id, c) ∷ m) = conn_close c ∷ close_conns m

close_udp_conns : Map Bytes UdpConn → List Effect
close_udp_conns [] = []
close_udp_conns ((id, c) ∷ m) = udp_close c ∷ close_udp_conns m

-- The deferred function of handleWebSocket. The context is cancelled first, which the loops of the
-- connections see as an event of their own.
unfoldable pub clean_up : Session → Outcome
unfolding close_conns close_udp_conns
clean_up s = (new_session, close_conns s.conns ++ (close_udp_conns s.udp_conns ++ ws_close ∷ []))
