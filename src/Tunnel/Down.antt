-- ===== src/Tunnel/Down.antt =====
-- From the server to the client: what a target sends, up to its end.
use ech_tunnel.Base.{
  ℕ, true, false, List, [], ◌∷◌, ◌++◌, map, some, ◌≡◌, refl, Bytes, lookup, bytes_key,
  contains_byte,
}
use ech_tunnel.Wire.{text, binary, data_message, close_message}
use ech_tunnel.Pool
use ech_tunnel.Pool.{Pool, Ws}
use ech_tunnel.Pool.Receive.{
  handle_channel, data_received, write_local, forget, close_received, close_local,
}
use ech_tunnel.Server
use ech_tunnel.Server.{Session}
use ech_tunnel.Server.Tcp.{ReadEvent, timed_out, failed, chunk, read_loop}
use ech_tunnel.Tunnel.{to_client}
use ech_tunnel.Server.Lifecycle.{AllOpen, chunks}

module _ (penv : Pool.Env) (senv : Server.Env) (c : ℕ) (ws : Ws) (id : Bytes) (local : Pool.Conn)
    (target : Server.Conn) (p : Pool) (plain : contains_byte b'|' id ≡ false)
    (known : lookup id p.tcp_map ≡ some local) (writes : (b : Bytes) → penv.conn_ok local b ≡ true)
    (sends : (msg : Bytes) → senv.ws_ok msg ≡ true) where
  chunk_delivered :
      (b : Bytes)
      → handle_channel penv c ws binary (data_message id b) p ≡ (p, Pool.conn_write local b ∷ [])
  unfolding data_received write_local
  chunk_delivered b =
      rw (Pool.Messages.handle-data penv c ws id plain p b)
        (rw (known, data_received) (rw (writes b)))

  close_delivered :
      handle_channel penv c ws text (close_message id) p
      ≡ (forget id c p, Pool.conn_close local ∷ [])
  unfolding close_received close_local
  close_delivered = rw (Pool.Messages.handle-close penv c ws id p) (rw (known, close_local))

  -- While the server's loop reads from a target, every piece that it reads arrives at the client's
  -- local connection, whole and in order, and the pool does not change; and when the read fails,
  -- the local connection is closed after the last piece and the pool forgets the connection. The
  -- identifier holds no `|`, the connection is registered, and writes succeed.
  pub stream_reaches_client :
      (events more : List ReadEvent)
      → AllOpen events
      → (to_client penv c ws (read_loop senv id target events).1 p
          ≡ (p, map (Pool.conn_write local) (chunks events)))
        × (to_client penv c ws (read_loop senv id target (events ++ failed ∷ more)).1 p ≡ (
          forget id c p,
          map (Pool.conn_write local) (chunks events) ++ Pool.conn_close local ∷ [],
        ))
  unfolding read_loop to_client
  stream_reaches_client [] more h = (refl, rw close_delivered)
  stream_reaches_client (chunk b ∷ events) more h =
      let (run, stop) = stream_reaches_client events more h in
      (
        rw (sends (data_message id b)) (rw (chunk_delivered b) (rw run)),
        rw (sends (data_message id b)) (rw (chunk_delivered b) (rw stop)),
      )
  stream_reaches_client (timed_out ∷ events) more h = stream_reaches_client events more h
  stream_reaches_client (_ ∷ events) more h = absurd h
