-- ===== src/Examples/Handlers.antt =====
-- The accept loops, the handlers and the sessions on a few events.
use ech_tunnel.Base.{
  true, false, List, map, [], ◌∷◌, ◌++◌, none, some, ◌≡◌, refl, codes, Bytes, lookup, bytes_key,
  bytes_eq, if◌then◌else◌, decimal, contains_byte,
}
use ech_tunnel.Wire.{text, close_message}
use ech_tunnel.Local.{socks5_connect}
use ech_tunnel.Local.Listener.{Arrival, Accepted, accepted}
use ech_tunnel.Local.Handler.{Visit, ClosedIfReturned, handle_connection, returned_closes}
use ech_tunnel.Server
use ech_tunnel.Server.{Session, Conn, UdpConn, new_session, ws_close, udp_close}
use ech_tunnel.Server.Life.{
  Read, message, meanwhile, read_failed, session_loop, Has, session_end_closes_all,
}
use ech_tunnel.Socks5.Handshake.{
  handle_socks5_protocol, handle_user_pass_auth, handle_request, choose_method, read_full, write,
}
use ech_tunnel.Socks5.{target_text}
use ech_tunnel.Proxy.{protocol_of}
use ech_tunnel.Proxy.Connection.{
  admits, by_protocol, handle_proxy_connection, Presented, proxy_no_bypass,
}
use ech_tunnel.Examples.Tunnel.{id_t, client_world, server_world, one_channel, bound, serving}
use ech_tunnel.Examples.Socks5.{config, conversation}
use ech_tunnel.Examples.Http.{world, fields, fields_fit}
use ech_tunnel.Socks5.Handshake.{go, connect}
use ech_tunnel.Socks5.Handshake.Accepted
use ech_tunnel.Http.{is_authorized}
use ech_tunnel.Http.Handler.{tunnel, answer, auth_required}
use ech_tunnel.Http.Fields.{add_fields}
use ech_tunnel.Http.Tunnelled.{connect_text}
use ech_tunnel.Proxy.Connection.{socks, http_request}
use ech_tunnel.Proxy.Doors.{doors_open}

-- Three connections: the wait of the first one times out, the second one is reported, and the third
-- one is not answered; a fourth one comes behind them.
abbrev arrival : Arrival
arrival = record {
  id = id_t;
  conn = 7;
  first = codes "GET";
  env = client_world;
  pool = one_channel;
  later = record one_channel { connected = (id_t, false) ∷ [] };
  by_timer = true;
}

abbrev reported : Arrival
reported = record arrival {
  conn = 8;
  by_timer = false;
  later = record one_channel { connected = (id_t, true) ∷ [] };
}

abbrev silent : Arrival
silent = record arrival { conn = 9; by_timer = false }

abbrev arrivals : List Accepted
arrivals = map accepted (arrival ∷ reported ∷ silent ∷ arrival ∷ [])

abbrev visit : Visit
visit = record {
  id = id_t;
  conn = 7;
  target = codes "host:80";
  first = codes "GET";
  env = client_world;
  pool = one_channel;
  by_timer = false;
  at_wait = record one_channel { connected = (id_t, true) ∷ [] };
  rounds = record { read = none; env = client_world; pool = bound } ∷ [];
  end_env = client_world;
  at_end = bound;
}

returned_closes_example : ClosedIfReturned 7 (handle_connection socks5_connect visit)
returned_closes_example = returned_closes socks5_connect visit

-- A message for a connection of the session, and the end of the WebSocket.
abbrev reads : List Read
reads = meanwhile serving ∷ message server_world text (close_message (codes "x")) ∷ []

session_end_closes_all_example :
    ((session_loop (reads ++ read_failed ∷ []) new_session).0 ≡ new_session)
    × ((id : Bytes) (c : Conn)
        → lookup id (session_loop reads new_session).0.conns ≡ some c
        → Has (Server.conn_close c) (session_loop (reads ++ read_failed ∷ []) new_session).1)
    × ((id : Bytes) (c : UdpConn)
        → lookup id (session_loop reads new_session).0.udp_conns ≡ some c
        → Has (udp_close c) (session_loop (reads ++ read_failed ∷ []) new_session).1)
    × ((es : List Server.Effect) × ((session_loop (reads ++ read_failed ∷ []) new_session).1
          ≡ es ++ ws_close ∷ []))
session_end_closes_all_example = session_end_closes_all reads [] new_session tt

conversation_admitted :
    admits (handle_proxy_connection (λ _. true) world config (5 ∷ conversation)) ≡ true
unfolding handle_proxy_connection by_protocol protocol_of handle_socks5_protocol
    handle_user_pass_auth handle_request choose_method read_full write bytes_eq target_text decimal
conversation_admitted = refl

proxy_no_bypass_example : Presented config (5 ∷ conversation)
proxy_no_bypass_example =
    proxy_no_bypass (λ _. true) world config (5 ∷ conversation) refl refl conversation_admitted

doors_open_example :
    (handle_proxy_connection
        (λ _. true)
        world
        config
        (5 ∷ Accepted.conversation (0 ∷ 2 ∷ []) config (codes "a") 0 80 [])
      ≡ socks (go ((5 ∷ 2 ∷ []) ∷ (1 ∷ 0 ∷ []) ∷ []) (connect (target_text 3 (codes "a") 80)) []))
    × (handle_proxy_connection (λ _. true) world config (connect_text (codes "h:443") fields [])
        ≡ http_request (
            if is_authorized config (add_fields fields [])
            then tunnel (codes "h:443")
            else answer auth_required))
unfolding contains_byte
doors_open_example =
    doors_open (λ _. true) world config (0 ∷ 2 ∷ []) (codes "a") 0 80 (codes "h:443") fields [] refl
      refl refl refl refl refl refl fields_fit
