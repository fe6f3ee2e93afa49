-- ===== src/Tunnel/Datagrams.antt =====
-- The datagrams of an association that is connected, from the client's packet to the server's socket.
use ech_tunnel.Base.{
  ℕ, true, false, [], ◌∷◌, some, ◌≡◌, refl, ◌∙◌, Bytes, lookup, bytes_key, bytes_eq_refl,
  contains_byte,
}
use ech_tunnel.Wire.{binary, udp_data_message}
use ech_tunnel.Pool
use ech_tunnel.Pool.{Pool, Ws, ws_write}
use ech_tunnel.Pool.Send.{bound_ws, send_udp_data}
use ech_tunnel.Server
use ech_tunnel.Server.{Session, UdpConn, UdpAddr}
use ech_tunnel.Server.Dispatch.{forward_udp}
use ech_tunnel.Socks5.{ok, parse_socks5_udp_packet}
use ech_tunnel.Socks5.Association
use ech_tunnel.Socks5.Association.{
  Association, of_pool, handle_udp_relay, handle_udp_packet, send_data, forward,
}
use ech_tunnel.Tunnel.{to_server}
use ech_tunnel.Tunnel.Up.{to_server_one}

module _ (env : Association.Env) (src packet target payload : Bytes) (a : Association) (p : Pool)
    (c : ℕ) (ws : Ws) (parsed : parse_socks5_udp_packet packet ≡ ok (target, payload))
    (known : a.client_udp_addr ≡ some src) (live : a.closed ≡ false)
    (connected : a.receiving ≡ true) (bound : bound_ws a.conn_id p ≡ some (c, ws)) where
  relayed :
      (handle_udp_relay env src packet (a, p)).1
      ≡ of_pool (ws_write ws binary (udp_data_message a.conn_id payload)) ∷ []
  unfolding handle_udp_relay handle_udp_packet send_data forward send_udp_data
  relayed =
      rw (known, handle_udp_relay)
        (rw (bytes_eq_refl src)
          (rw (parsed, handle_udp_packet) (rw (live, connected) (rw (bound, send_udp_data) refl))))

  -- Once an association has sent its first datagram, the target that a datagram names plays no part:
  -- from packet to socket, its payload is written to the address that the server has stored for the
  -- association, once and whole. The association is open, the datagram comes from its client, the
  -- association is bound to a channel, its identifier holds no `|`, and the server has a socket for it.
  pub later_target_ignored :
      (senv : Server.Env) (s : Session) (uc : UdpConn) (addr : UdpAddr)
      → contains_byte b'|' a.conn_id ≡ false
      → lookup a.conn_id s.udp_conns ≡ some uc
      → lookup a.conn_id s.udp_targets ≡ some addr
      → (e : Pool.Effect) × ((handle_udp_relay env src packet (a, p)).1 ≡ of_pool e ∷ [])
        × (to_server senv ws (e ∷ []) s ≡ (s, Server.udp_write uc payload addr ∷ []))
  unfolding forward_udp
  later_target_ignored senv s uc addr plain socket fixed = (
    ws_write ws binary (udp_data_message a.conn_id payload),
    relayed,
    to_server_one senv ws binary (udp_data_message a.conn_id payload) s
        ∙ Server.Messages.handle-udp_data senv a.conn_id plain s payload
        ∙ rw (socket, forward_udp) (rw fixed refl),
  )
