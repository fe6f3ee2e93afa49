-- ===== src/Pool/Send.antt =====
-- pool.go: the operations that send on the channel of a connection, and WaitConnected.
use ech_tunnel.Base.{
  ℕ, suc, Bool, true, false, List, [], ◌∷◌, Option, none, some, Bytes, lookup, insert, erase,
  get_elem?, if◌then◌else◌, bytes_key, nat_eq,
}
use ech_tunnel.Wire.{
  text, binary, udp_connect_message, udp_data_message, udp_close_message, data_message,
  close_message,
}
use ech_tunnel.Pool.{Pool, Ws, Env, Effect, ws_write}

-- The errors that the operations return; a nil error is `none`.
pub data Error : Type 0 where
  no_ws no_channel write_failed : Error

-- `err` of a WriteMessage
abbrev pub write_error : Bool → Option Error
write_error true = none
write_error false = some write_failed

-- `p.wsConns[chID]` behind the test `chID < len(p.wsConns)`; `none` is a nil connection.
unfoldable pub ws_at : List (Option Ws) → ℕ → Option Ws
ws_at conns c = elim (get_elem? conns c) [ none ↦ none | some w ↦ w ]

-- The channel of a connection and its WebSocket, where there are both: the read section with which
-- SendData, SendClose, SendUDPData and SendUDPClose begin.
unfoldable pub bound_ws : Bytes → Pool → Option (ℕ × Ws)
unfolding ws_at
bound_ws id p = elim (lookup id p.channel_map) [
  | none ↦ none
  | some c ↦ elim (ws_at p.ws_conns c) [ none ↦ none | some ws ↦ some (c, ws) ]
]

unfoldable pub send_data : Env → Bytes → Bytes → Pool → Option Error × List Effect
send_data env id b p = elim (bound_ws id p) [
  | none ↦ (some no_channel, [])
  | some (c, ws) ↦
      let msg = data_message id b in (write_error (env.ws_ok ws msg), ws_write ws text msg ∷ [])
]

unfoldable pub send_close : Env → Bytes → Pool → Option Error × List Effect
send_close env id p = elim (bound_ws id p) [
  | none ↦ (none, [])
  | some (c, ws) ↦
      let msg = close_message id in (write_error (env.ws_ok ws msg), ws_write ws text msg ∷ [])
]

-- The first index from `i` on that holds a connection.
unfoldable pub first_ws : ℕ → List (Option Ws) → Option (ℕ × Ws)
first_ws i [] = none
first_ws i (none ∷ conns) = first_ws (suc i) conns
first_ws i (some ws ∷ conns) = some (i, ws)

unfoldable pub send_udp_connect : Env → Bytes → Bytes → Pool → Pool × Option Error × List Effect
send_udp_connect env id target p = elim (first_ws 0 p.ws_conns) [
  | none ↦ (p, some no_ws, [])
  | some (c, ws) ↦
      let msg = udp_connect_message id target in
      (
        record p {
          channel_map = insert id c p.channel_map;
          bound_by_channel = insert c id p.bound_by_channel;
        },
        write_error (env.ws_ok ws msg),
        ws_write ws text msg ∷ [],
      )
]

unfoldable pub send_udp_data : Env → Bytes → Bytes → Pool → Option Error × List Effect
send_udp_data env id payload p = elim (bound_ws id p) [
  | none ↦ (some no_channel, [])
  | some (c, ws) ↦
      let msg = udp_data_message id payload in
      (write_error (env.ws_ok ws msg), ws_write ws binary msg ∷ [])
]

unfoldable pub send_udp_close : Env → Bytes → Pool → Pool × Option Error × List Effect
send_udp_close env id p = elim (bound_ws id p) [
  | none ↦ (p, none, [])
  | some (c, ws) ↦
      let msg = udp_close_message id in
      (
        record p {
          channel_map = erase id p.channel_map;
          bound_by_channel = erase c p.bound_by_channel;
          udp_map = erase id p.udp_map;
        },
        write_error (env.ws_ok ws msg),
        ws_write ws text msg ∷ [],
      )
]

-- WaitConnected: `by_timer` tells that the `select` takes the case of its timer, which it may do as
-- soon as the timer has fired, also where the value is there too. `none` means that the call still
-- waits.
unfoldable pub wait_connected : Bool → Bytes → Pool → Option (Pool × Bool)
wait_connected by_timer id p = elim (lookup id p.connected) [
  | none ↦ some (p, false)
  | some full ↦
      if by_timer
      then some (p, false)
      else if full
      then some (record p { connected = insert id false p.connected }, true)
      else none
]
