-- ===== src/Local/Refusal.antt =====
-- A local connection whose WaitConnected ran into its timer.
use ech_tunnel.Base.{
  ℕ, true, false, [], ◌∷◌, some, none, ◌≡◌, refl, ◌∙◌, Bytes, lookup, bytes_key, contains_byte,
  decimal,
}
use ech_tunnel.Wire.{text, claim_ack_message, tcp_message}
use ech_tunnel.Pool
use ech_tunnel.Pool.{Pool, Ws, Info}
use ech_tunnel.Pool.Delivery.{wait_empty}
use ech_tunnel.Server
use ech_tunnel.Server.{Session}
use ech_tunnel.Tunnel.{to_server, to_client}
use ech_tunnel.Tunnel.Up.{to_server_one, request_sent}
use ech_tunnel.Local.{FrontEnd, refused, refuse_client, await_connection}

await_expired :
    (f : FrontEnd) (env : Pool.Env) (id : Bytes) (local : Pool.Conn) (p : Pool)
    → lookup id p.connected ≡ some false
    → await_connection f env true id local p ≡ some (refused, p, refuse_client f local)
unfolding await_connection
await_expired f env id local p empty = rw (wait_empty true id p empty, await_connection) refl

-- A handler whose timer fires before any answer refuses its client, and the pool still has the
-- request: the acknowledgement that comes late, from any channel, makes the client send it, and the
-- server then starts a connection to the target with the first frame. Neither identifier nor
-- target holds a `|`, and the write of the request succeeds.
pub refused_request_still_sent :
    (f : FrontEnd) (penv : Pool.Env) (senv : Server.Env) (c : ℕ) (ws : Ws) (id : Bytes)
    (info : Info) (local : Pool.Conn) (p : Pool) (s : Session)
    → contains_byte b'|' id ≡ false
    → contains_byte b'|' info.target_addr ≡ false
    → lookup id p.connected ≡ some false
    → lookup id p.conn_info ≡ some info
    → lookup id p.channel_map ≡ none
    → penv.ws_ok ws (tcp_message id info.target_addr info.first_frame_data) ≡ true
    → (q : Pool) × (await_connection f penv true id local p
        ≡ some (refused, q, refuse_client f local))
      × (to_server senv ws
            (to_client penv c ws (Server.ws_write text (claim_ack_message id (decimal c)) ∷ []) q).1
            s
          ≡ (s, Server.go_tcp id info.target_addr info.first_frame_data ∷ []))
refused_request_still_sent f penv senv c ws id info local p s plain_id plain_target empty waiting
      free sent =
    (
      p,
      await_expired f penv id local p empty,
      rw (request_sent penv senv c ws id info p s plain_id plain_target waiting free sent) (
          to_server_one senv ws text _ s
          ∙ Server.Messages.handle-tcp senv id plain_id s info.target_addr info.first_frame_data
              plain_target),
    )
