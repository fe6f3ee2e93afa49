-- ===== src/Pool/Receive.antt =====
-- pool.go: `handleChannel`, the messages that a channel receives from the server.
use ech_tunnel.Base.{
  ℕ, true, ◌&&◌, List, [], ◌∷◌, Option, none, some, Bytes, codes, Map, lookup, insert, erase,
  is_none, is_empty, drop, length, ltb, if◌then◌else◌, has_prefix, trim_prefix, split_n, bytes_key,
  nat_eq,
}
use ech_tunnel.Wire.{MsgType, text, binary, tcp_message}
use ech_tunnel.Pool.{
  Conn, Ws, Pool, Env, Effect, ws_write, conn_write, conn_close, go_send_close, udp_response,
}

abbrev pub Outcome : Type 0
Outcome = Pool × List Effect

-- `UDP_DATA:<connID>|<host>:<port>|<data>` behind its prefix, split
unfoldable pub udp_data_received : List Bytes → Pool → Outcome
udp_data_received (id ∷ addr ∷ payload ∷ []) p = elim (lookup id p.udp_map) [
  | none ↦ (p, [])
  | some assoc ↦ (p, udp_response assoc addr payload ∷ [])
]
udp_data_received parts p = (p, [])

-- A write to the local connection `c` of `id`. If it fails the connection is closed and forgotten.
unfoldable pub write_local : Env → Bytes → Conn → Bytes → Pool → Outcome
write_local env id c payload p = if env.conn_ok c payload then (p, conn_write c payload ∷ []) else (
  record p { tcp_map = erase id p.tcp_map },
  conn_write c payload ∷ go_send_close id ∷ conn_close c ∷ [],
)

-- `DATA:<id>|<payload>` with both parts
unfoldable pub data_received : Env → Bytes → Bytes → Pool → Outcome
unfolding write_local
data_received env id payload p = elim (lookup id p.tcp_map) [
  | none ↦ (p, go_send_close id ∷ [])
  | some c ↦ write_local env id c payload p
]

-- A map read of a missing key gives the empty string.
abbrev pub or_empty : Option Bytes → Bytes
or_empty none = []
or_empty (some s) = s

-- A binary message without a known form goes to the connection bound to the channel.
unfoldable pub raw_received : Env → ℕ → Bytes → Pool → Outcome
unfolding write_local
raw_received env channel msg p =
    let id = or_empty (lookup channel p.bound_by_channel) in
    if is_empty id
    then (p, [])
    else elim (lookup id p.tcp_map) [ none ↦ (p, []) | some c ↦ write_local env id c msg p ]

unfoldable pub data_or_raw : Env → ℕ → Bytes → List Bytes → Pool → Outcome
data_or_raw env channel msg (id ∷ payload ∷ []) p = data_received env id payload p
data_or_raw env channel msg parts p = raw_received env channel msg p

unfoldable pub handle_binary : Env → ℕ → Bytes → Pool → Outcome
handle_binary env channel msg p =
    if ltb 9 (length msg) && has_prefix (codes "UDP_DATA:") msg
    then udp_data_received (split_n b'|' (drop 9 msg) 3) p
    else if ltb 5 (length msg) && has_prefix (codes "DATA:") msg
    then data_or_raw env channel msg (split_n b'|' (drop 5 msg) 2) p
    else raw_received env channel msg p

-- `select { case ch <- true: default: }` on the channel of `id`
unfoldable pub signal : Bytes → Pool → Pool
signal id p =
    if is_none (lookup id p.connected)
    then p
    else record p { connected = insert id true p.connected }

-- The winner's entry leaves the claim times, and the last one takes the map of `id` along. The
-- latency is computed for the log alone.
unfoldable pub take_claim : Bytes → ℕ → Map Bytes (Map ℕ ℕ) → Map Bytes (Map ℕ ℕ)
take_claim id channel m = elim (lookup id m) [
  | none ↦ m
  | some times ↦
      if is_none (lookup channel times)
      then m
      else let left = erase channel times in if is_empty left then erase id m else insert id left m
]

-- The state after the critical section in which the channel wins the connection.
unfoldable pub win_claim : Bytes → ℕ → Pool → Pool
unfolding take_claim
win_claim id channel p = record p {
  claim_times = take_claim id channel p.claim_times;
  channel_map = insert id channel p.channel_map;
  bound_by_channel = insert channel id p.bound_by_channel;
  conn_info = erase id p.conn_info;
}

-- `if c, ok := p.tcpMap[connID]; ok { c.Close() }`
unfoldable pub close_local : Bytes → Pool → List Effect
close_local id p = elim (lookup id p.tcp_map) [ none ↦ [] | some c ↦ conn_close c ∷ [] ]

-- Everything that the pool knows of the connection is deleted, and the channel's binding.
unfoldable pub forget : Bytes → ℕ → Pool → Pool
forget id channel p = record p {
  tcp_map = erase id p.tcp_map;
  channel_map = erase id p.channel_map;
  conn_info = erase id p.conn_info;
  claim_times = erase id p.claim_times;
  bound_by_channel = erase channel p.bound_by_channel;
}

-- `CLAIM_ACK:<connID>|…`: the first acknowledgement wins, and the connection request is sent.
unfoldable pub claim_acked : Env → ℕ → Ws → Bytes → Pool → Outcome
unfolding win_claim close_local forget
claim_acked env channel ws id p =
    if is_none (lookup id p.channel_map)
    then elim (lookup id p.conn_info) [
      | none ↦ (p, [])
      | some info ↦
          let won = win_claim id channel p in
          let msg = tcp_message id info.target_addr info.first_frame_data in
          if env.ws_ok ws msg
          then (won, ws_write ws text msg ∷ [])
          else (forget id channel won, ws_write ws text msg ∷ close_local id won)
    ]
    else (p, [])

unfoldable pub claim_ack_received : Env → ℕ → Ws → List Bytes → Pool → Outcome
claim_ack_received env channel ws (id ∷ rest ∷ []) p = claim_acked env channel ws id p
claim_ack_received env channel ws parts p = (p, [])

unfoldable pub close_received : ℕ → Bytes → Pool → Outcome
unfolding close_local forget
close_received channel id p = (forget id channel p, close_local id p)

-- UDP_ERROR and ERROR are logged; any other text is ignored.
unfoldable pub handle_text : Env → ℕ → Ws → Bytes → Pool → Outcome
handle_text env channel ws msg p =
    if has_prefix (codes "UDP_CONNECTED:") msg
    then (signal (trim_prefix (codes "UDP_CONNECTED:") msg) p, [])
    else if has_prefix (codes "UDP_ERROR:") msg
    then (p, [])
    else if has_prefix (codes "CLAIM_ACK:") msg
    then claim_ack_received env channel ws (split_n b'|' (drop 10 msg) 2) p
    else if has_prefix (codes "CONNECTED:") msg
    then (signal (trim_prefix (codes "CONNECTED:") msg) p, [])
    else if has_prefix (codes "ERROR:") msg
    then (p, [])
    else if has_prefix (codes "CLOSE:") msg
    then close_received channel (trim_prefix (codes "CLOSE:") msg) p
    else (p, [])

-- One round of the loop of handleChannel, on a message that was read.
unfoldable pub handle_channel : Env → ℕ → Ws → MsgType → Bytes → Pool → Outcome
handle_channel env channel ws binary msg p = handle_binary env channel msg p
handle_channel env channel ws text msg p = handle_text env channel ws msg p
