-- ===== src/Examples/Server.antt =====
-- websocket_server.go on a session with one UDP association, and on one TCP connection.
use ech_tunnel.Base.{
  true, [], ◌∷◌, none, some, ◌≡◌, refl, Bytes, codes, lookup, insert, bytes_key, if◌then◌else◌,
  bytes_eq, inl, contains_byte, split_n,
}
use ech_tunnel.Wire.{
  text, binary, udp_data_message, udp_connect_message, data_message, close_message,
  connected_message,
}
use ech_tunnel.Server.{
  Session, new_session, Env, ws_write, conn_write, conn_close, udp_write, UdpAddr,
}
use ech_tunnel.Server.Dispatch.{handle_web_socket, handle_text, udp_connect_received, open_udp}
use ech_tunnel.Server.Tcp.{chunk, timed_out, failed, cancelled, read_loop, handle_tcp_connection}
use ech_tunnel.Server.Steps.{Reach, start, next, message, datagram_forwarded}
use ech_tunnel.Server.Lifecycle.{HasEnded, tcp_ends_closed, tcp_transcript}

abbrev id_u : Bytes
id_u = codes "u"

abbrev world : Env
world = record {
  resolve = λ _. some 5;
  listen_udp = some 3;
  dial = λ _. some 7;
  conn_ok = λ _ _. true;
  ws_ok = λ _. true;
}

abbrev with_udp : Session
with_udp = (handle_web_socket world text (udp_connect_message id_u (codes "dns:53")) new_session).0

with_udp-Reach : Reach with_udp
with_udp-Reach = next start (message world text (udp_connect_message id_u (codes "dns:53")))

datagram_forwarded_example :
    (addr : UdpAddr) × (lookup id_u with_udp.udp_targets ≡ some addr)
    × (handle_web_socket world binary (udp_data_message id_u (codes "?")) with_udp
        ≡ (with_udp, udp_write 3 (codes "?") addr ∷ []))
unfolding contains_byte split_n lookup insert bytes_eq handle_web_socket handle_text
    udp_connect_received open_udp
datagram_forwarded_example =
    datagram_forwarded world with_udp id_u (codes "?") 3 with_udp-Reach refl refl

tcp_ends_closed_example :
    HasEnded id_u 7
      (handle_tcp_connection world id_u (codes "host:80") [] (cancelled ∷ []) new_session)
unfolding read_loop
tcp_ends_closed_example =
    tcp_ends_closed world id_u (codes "host:80") [] 7 (cancelled ∷ []) new_session refl (inl refl)

tcp_transcript_example :
    ((handle_tcp_connection world id_u
        (codes "host:80")
        (codes "GET")
        (chunk (codes "200") ∷ timed_out ∷ failed ∷ [])
        new_session).1
      ≡ conn_write 7 (codes "GET")
        ∷ ws_write text (connected_message id_u)
        ∷ ws_write binary (data_message id_u (codes "200"))
        ∷ ws_write text (close_message id_u)
        ∷ conn_close 7
        ∷ [])
    × ((j : Bytes)
        → lookup j
            (handle_tcp_connection world id_u
              (codes "host:80")
              (codes "GET")
              (chunk (codes "200") ∷ timed_out ∷ failed ∷ [])
              new_session).0.conns
          ≡ (if bytes_eq id_u j then none else lookup j new_session.conns))
tcp_transcript_example =
    tcp_transcript world id_u (codes "host:80") (codes "GET") 7
      (chunk (codes "200") ∷ timed_out ∷ []) [] new_session refl refl (λ _. refl) tt
