-- ===== src/Server/Tcp.antt =====
-- websocket_server.go: `handleTCPConnection`, which dials a target and copies what it reads from
-- the target to the WebSocket.
use ech_tunnel.Base.{
  Bool, true, false, List, [], ◌∷◌, ◌++◌, none, some, Bytes, insert, erase, is_empty, if◌then◌else◌,
  bytes_key,
}
use ech_tunnel.Wire.{text, binary, data_message, close_message, connected_message}
use ech_tunnel.Server.{Conn, Session, Effect, ws_write, conn_write, conn_close, Env, Outcome}

-- What one round of the reading loop meets: the context is cancelled, the read times out, it fails,
-- or it returns bytes.
pub data ReadEvent : Type 0 where
  cancelled timed_out failed : ReadEvent
  chunk : Bytes → ReadEvent

-- The reading loop over its rounds. The flag tells whether it has returned; it has not when the
-- events run out first.
unfoldable pub read_loop : Env → Bytes → Conn → List ReadEvent → Bool × List Effect
read_loop env id c [] = (false, [])
read_loop env id c (cancelled ∷ events) = (true, conn_close c ∷ [])
read_loop env id c (timed_out ∷ events) = read_loop env id c events
read_loop env id c (failed ∷ events) = (true, ws_write text (close_message id) ∷ [])
read_loop env id c (chunk b ∷ events) =
    let (ended, es) = read_loop env id c events in
    let msg = data_message id b in
    if env.ws_ok msg then (ended, ws_write binary msg ∷ es) else (true, ws_write binary msg ∷ [])

-- The deferred function: the connection is closed, and deleted from the map under its name.
unfoldable pub end_tcp : Bytes → Conn → Session → Outcome
end_tcp id c s = (record s { conns = erase id s.conns }, conn_close c ∷ [])

-- The part behind the first frame: CONNECTED, the loop, and the deferred function if it has ended.
unfoldable pub serve_tcp : Env → Bytes → Conn → List ReadEvent → Session → Outcome
unfolding end_tcp
serve_tcp env id c events s =
    let (ended, es) = read_loop env id c events in
    let head = ws_write text (connected_message id) ∷ es in
    if ended then ((end_tcp id c s).0, head ++ (end_tcp id c s).1) else (s, head)

unfoldable pub handle_tcp_connection :
    Env → Bytes → Bytes → Bytes → List ReadEvent → Session → Outcome
unfolding serve_tcp
handle_tcp_connection env id target first events s = elim (env.dial target) [
  | none ↦ (s, ws_write text (close_message id) ∷ [])
  | some c ↦
      let s1 = record s { conns = insert id c s.conns } in
      let served = serve_tcp env id c events s1 in
      if is_empty first
      then served
      else if env.conn_ok c first
      then (served.0, conn_write c first ∷ served.1)
      else (
        (end_tcp id c s1).0,
        conn_write c first ∷ ws_write text (close_message id) ∷ (end_tcp id c s1).1,
      )
]
