-- ===== src/Pool.antt =====
-- pool.go: the state of `ECHPool`, its creation, the dialling of its channels and the registration
-- of connections. A connection, an association and a WebSocket are handles: the pool stores them
-- and never looks inside.
pub mod Send
pub mod Receive
pub mod Messages
pub mod Valid
pub mod Steps
pub mod Race
pub mod Delivery
pub mod Signals
pub mod Announced
pub mod Phases
pub mod Channel
use ech_tunnel.Base.{
  ℕ, zero, suc, ◌+◌, Bool, true, false, List, [], ◌∷◌, ◌++◌, Option, none, some, Bytes, Map, lookup,
  insert, is_none, length, get_elem?, set, replicate, if◌then◌else◌, bytes_key, nat_eq,
}
use ech_tunnel.Wire.{MsgType, text, claim_message}

abbrev pub Conn : Type 0
Conn = ℕ

abbrev pub AssocId : Type 0
AssocId = ℕ

abbrev pub Ws : Type 0
Ws = ℕ

-- The value type of the map `connInfo`.
pub record Info : Type 0 where
  pub target_addr : Bytes
  pub first_frame_data : Bytes

-- A `chan bool` of capacity 1 is the number of values in it: `true` when it is full. The maps are
-- guarded by `mu`, and every operation reads and writes them in critical sections.
-- `pendingByChannel` is created and never read or written, and is left out.
pub record Pool : Type 0 where
  pub ws_server_addr : Bytes
  pub connection_num : ℕ
  pub ws_conns : List (Option Ws)
  pub tcp_map : Map Bytes Conn
  pub udp_map : Map Bytes AssocId
  pub channel_map : Map Bytes ℕ
  pub conn_info : Map Bytes Info
  pub claim_times : Map Bytes (Map ℕ ℕ)
  pub connected : Map Bytes Bool
  pub bound_by_channel : Map ℕ Bytes

-- What an operation does outside the pool, in order. `go_send_close` starts `go p.SendClose(id)`;
-- `udp_response` calls `assoc.handleUDPResponse(addr, data)`.
pub data Effect : Type 0 where
  ws_write : Ws → MsgType → Bytes → Effect
  conn_write : Conn → Bytes → Effect
  conn_close : Conn → Effect
  go_send_close : Bytes → Effect
  udp_response : AssocId → Bytes → Bytes → Effect

-- The outside world during one operation: which writes succeed, and the clock at each channel.
pub record Env : Type 0 where
  pub ws_ok : Ws → Bytes → Bool
  pub conn_ok : Conn → Bytes → Bool
  pub now : ℕ → ℕ

unfoldable pub new_ech_pool : Bytes → ℕ → Pool
new_ech_pool addr n = record {
  ws_server_addr = addr;
  connection_num = n;
  ws_conns = replicate n none;
  tcp_map = [];
  udp_map = [];
  channel_map = [];
  conn_info = [];
  claim_times = [];
  connected = [];
  bound_by_channel = [];
}

-- dialOnce and redialChannel: the outcomes of the dials are given in order, `none` for a failure,
-- after which the loop sleeps and dials again. The result is the pool and the WebSocket that
-- `handleChannel` is started with, or `none` while every dial so far has failed.
unfoldable pub dial_once : ℕ → List (Option Ws) → Pool → Option (Pool × Ws)
dial_once index [] p = none
dial_once index (none ∷ dials) p = dial_once index dials p
dial_once index (some ws ∷ dials) p =
    some (record p { ws_conns = set p.ws_conns index (some ws) }, ws)

-- `if _, ok := p.connected[connID]; !ok { p.connected[connID] = make(chan bool, 1) }`
unfoldable pub make_signal : Bytes → Map Bytes Bool → Map Bytes Bool
make_signal id m = if is_none (lookup id m) then insert id false m else m

-- The first critical section of RegisterAndClaim.
unfoldable pub register : Bytes → Bytes → Bytes → Conn → Pool → Pool
unfolding make_signal
register id target first conn p = record p {
  tcp_map = insert id conn p.tcp_map;
  conn_info = insert id (record { target_addr = target; first_frame_data = first }) p.conn_info;
  claim_times =
      if is_none (lookup id p.claim_times) then insert id [] p.claim_times else p.claim_times;
  connected = make_signal id p.connected;
}

-- One round of the loop of RegisterAndClaim on a channel that is connected: the time is noted, and
-- CLAIM is sent; a failed write is only logged. `none` is the panic of an assignment to an entry of
-- a nil map, when `claimTimes` has no entry for the connection any more.
unfoldable pub claim_channel : Env → Bytes → ℕ → Ws → Pool → Option (Pool × List Effect)
claim_channel env id i ws p = elim (lookup id p.claim_times) [
  | none ↦ none
  | some times ↦ some (
    record p { claim_times = insert id (insert i (env.now i) times) p.claim_times },
    ws_write ws text (claim_message id i) ∷ [],
  )
]

-- The loop itself, over `p.wsConns` from index `i` on.
unfoldable pub claim_loop : Env → Bytes → ℕ → List (Option Ws) → Pool → Option (Pool × List Effect)
claim_loop env id i [] p = some (p, [])
claim_loop env id i (none ∷ conns) p = claim_loop env id (suc i) conns p
claim_loop env id i (some ws ∷ conns) p = elim (claim_channel env id i ws p) [
  | none ↦ none
  | some (q, es) ↦ elim (claim_loop env id (suc i) conns q) [
    | none ↦ none
    | some (r, fs) ↦ some (r, es ++ fs)
  ]
]

-- RegisterAndClaim with nothing else running between its critical sections.
unfoldable pub register_and_claim :
    Env → Bytes → Bytes → Bytes → Conn → Pool → Option (Pool × List Effect)
register_and_claim env id target first conn p =
    claim_loop env id 0 p.ws_conns (register id target first conn p)

unfoldable pub register_udp : Bytes → AssocId → Pool → Pool
unfolding make_signal
register_udp id assoc p = record p {
  udp_map = insert id assoc p.udp_map;
  connected = make_signal id p.connected;
}
