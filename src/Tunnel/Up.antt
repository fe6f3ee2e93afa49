-- ===== src/Tunnel/Up.antt =====
-- From the client to the server: the handshake of a connection, its data and its end.
use ech_tunnel.Base.{
  ℕ, true, false, [], ◌∷◌, some, none, ◌≡◌, refl, Bytes, lookup, bytes_key, contains_byte, ==_iff,
  append-nil, erase, decimal, ◌∙◌,
}
use ech_tunnel.Wire.{MsgType, text, claim_message, tcp_message, claim_ack_message}
use ech_tunnel.Pool
use ech_tunnel.Pool.{Pool, Ws, Info}
use ech_tunnel.Pool.Send.{bound_ws, send_data, send_close}
use ech_tunnel.Server
use ech_tunnel.Server.{Session, Conn}
use ech_tunnel.Server.Dispatch.{handle_web_socket, forward_tcp, close_received}
use ech_tunnel.Tunnel.{to_server, to_client}
use ech_tunnel.Pool.Receive.{handle_channel, win_claim}
use ech_tunnel.Pool.Race.{acked_sent, win_claim_lem}

-- One message on the session's own WebSocket.
pub to_server_one :
    (env : Server.Env) (ws : Ws) (m : MsgType) (msg : Bytes) (s : Session)
    → to_server env ws (Pool.ws_write ws m msg ∷ []) s ≡ handle_web_socket env m msg s
unfolding to_server
to_server_one env ws m msg s =
    rw ((==_iff ws ws).1 refl) (rw (append-nil (handle_web_socket env m msg s).1))

-- One message of the server to the channel.
pub to_client_one :
    (env : Pool.Env) (c : ℕ) (ws : Ws) (m : MsgType) (msg : Bytes) (p : Pool)
    → to_client env c ws (Server.ws_write m msg ∷ []) p ≡ handle_channel env c ws m msg p
unfolding to_client
to_client_one env c ws m msg p = rw (append-nil (handle_channel env c ws m msg p).1)

module _ (penv : Pool.Env) (senv : Server.Env) (c : ℕ) (ws : Ws) (id : Bytes) (info : Info)
    (p : Pool) (s : Session) (plain_id : contains_byte b'|' id ≡ false)
    (plain_target : contains_byte b'|' info.target_addr ≡ false)
    (waiting : lookup id p.conn_info ≡ some info) (free : lookup id p.channel_map ≡ none)
    (sent : penv.ws_ok ws (tcp_message id info.target_addr info.first_frame_data) ≡ true) where
  pub claim_answered :
      to_server senv ws (Pool.ws_write ws text (claim_message id c) ∷ []) s
      ≡ (s, Server.ws_write text (claim_ack_message id (decimal c)) ∷ [])
  claim_answered = rw to_server_one (Server.Messages.handle-claim senv id plain_id s c)

  pub request_sent :
      to_client penv c ws (Server.ws_write text (claim_ack_message id (decimal c)) ∷ []) p ≡ (
        win_claim id c p,
        Pool.ws_write ws text (tcp_message id info.target_addr info.first_frame_data) ∷ [],
      )
  request_sent = rw to_client_one (
      rw (Pool.Messages.handle-claim_ack penv c ws id plain_id p (decimal c))
        (acked_sent penv c ws id info p waiting free sent))

  -- The handshake: the claim of a waiting connection goes to the server, its answer to the client,
  -- and the client's answer to the server again, which then starts the connection to exactly the
  -- registered target with exactly the registered first frame, and nothing else. The server's maps
  -- stay as they were, and the client has bound the connection to the channel. Neither identifier
  -- nor target holds a `|`.
  pub handshake_starts_target :
      let (s1, ack) = to_server senv ws (Pool.ws_write ws text (claim_message id c) ∷ []) s in
      let (q, request) = to_client penv c ws ack p in
      (to_server senv ws request s1
        ≡ (s, Server.go_tcp id info.target_addr info.first_frame_data ∷ []))
      × (lookup id q.channel_map ≡ some c)
  handshake_starts_target =
      rw (claim_answered, request_sent)
        (
          to_server_one senv ws text _ s
              ∙ Server.Messages.handle-tcp senv id plain_id s info.target_addr info.first_frame_data
                  plain_target,
          (win_claim_lem penv c ws id info p waiting free).0,
        )

module _ (penv : Pool.Env) (senv : Server.Env) (c : ℕ) (ws : Ws) (id b : Bytes) (conn : Conn)
    (p : Pool) (s : Session) (bound : bound_ws id p ≡ some (c, ws))
    (open_conn : lookup id s.conns ≡ some conn) where
  -- What the client sends for a bound connection, whose identifier holds no `|`, is written to the
  -- server's connection of that identifier, byte for byte, whatever the bytes are.
  pub data_reaches_target :
      contains_byte b'|' id ≡ false
      → to_server senv ws (send_data penv id b p).1 s ≡ (s, Server.conn_write conn b ∷ [])
  unfolding send_data forward_tcp
  data_reaches_target plain =
      rw (bound, send_data)
        (rw to_server_one
          (rw (Server.Messages.handle-data senv id plain s b) (rw (open_conn, forward_tcp))))

  -- The client's CLOSE closes the server's connection and removes it from the session.
  pub close_reaches_target :
      to_server senv ws (send_close penv id p).1 s
      ≡ (record s { conns = erase id s.conns }, Server.conn_close conn ∷ [])
  unfolding send_close close_received
  close_reaches_target =
      rw (bound, send_close)
        (rw to_server_one
          (rw (Server.Messages.handle-close senv id s) (rw (open_conn, close_received))))
