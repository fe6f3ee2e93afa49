-- ===== src/Examples/Tunnel.antt =====
-- The two ends of one WebSocket on one connection.
use ech_tunnel.Base.{
  true, [], ◌∷◌, none, some, ◌≡◌, refl, Bytes, codes, lookup, bytes_key, bytes_eq, contains_byte,
}
use ech_tunnel.Wire.{text, claim_message}
use ech_tunnel.Pool
use ech_tunnel.Pool.{Pool, Info, dial_once}
use ech_tunnel.Pool.Send.{bound_ws, ws_at, send_data}
use ech_tunnel.Pool.Receive.{forget}
use ech_tunnel.Server
use ech_tunnel.Server.{Session}
use ech_tunnel.Server.Tcp.{chunk, timed_out, failed, read_loop}
use ech_tunnel.Tunnel.{to_server, to_client}
use ech_tunnel.Tunnel.Up.{handshake_starts_target}
use ech_tunnel.Tunnel.Down.{stream_reaches_client}
use ech_tunnel.Tunnel.Redial.{redialled_data_lost}

abbrev pub id_t : Bytes
id_t = codes "t"

abbrev pub info : Info
info = record { target_addr = codes "host:80"; first_frame_data = codes "GET" }

abbrev pub client_world : Pool.Env
client_world = record { ws_ok = λ _ _. true; conn_ok = λ _ _. true; now = λ i. i }

abbrev pub server_world : Server.Env
server_world = record {
  resolve = λ _. none;
  listen_udp = none;
  dial = λ _. some 9;
  conn_ok = λ _ _. true;
  ws_ok = λ _. true;
}

abbrev pub one_channel : Pool
one_channel = record {
  ws_server_addr = codes "wss://server";
  connection_num = 1;
  ws_conns = some 11 ∷ [];
  tcp_map = (id_t, 7) ∷ [];
  udp_map = [];
  channel_map = [];
  conn_info = (id_t, info) ∷ [];
  claim_times = [];
  connected = [];
  bound_by_channel = [];
}

abbrev pub bound : Pool
bound = record one_channel { channel_map = (id_t, 0) ∷ []; conn_info = [] }

abbrev pub serving : Session
serving = record { conns = (id_t, 9) ∷ []; udp_conns = []; udp_targets = [] }

handshake_starts_target_example :
    let (s1, ack) =
      to_server server_world 11
        (Pool.ws_write 11 text (claim_message id_t 0) ∷ [])
        Server.new_session in
    let (q, request) = to_client client_world 0 11 ack one_channel in
    (to_server server_world 11 request s1
      ≡ (Server.new_session, Server.go_tcp id_t (codes "host:80") (codes "GET") ∷ []))
    × (lookup id_t q.channel_map ≡ some 0)
unfolding lookup contains_byte bytes_eq
handshake_starts_target_example =
    handshake_starts_target client_world server_world 0 11 id_t info one_channel Server.new_session
      refl refl refl refl refl

pub bound_to_0 : bound_ws id_t bound ≡ some (0, 11)
unfolding bound_ws ws_at lookup bytes_eq
bound_to_0 = refl

pub served_by_9 : lookup id_t serving.conns ≡ some 9
unfolding lookup bytes_eq
served_by_9 = refl

stream_reaches_client_example :
    (to_client client_world 0 11
        (read_loop server_world id_t 9 (chunk (codes "200") ∷ timed_out ∷ [])).1
        bound
      ≡ (bound, Pool.conn_write 7 (codes "200") ∷ []))
    × (to_client client_world 0 11
          (read_loop server_world id_t 9 (chunk (codes "200") ∷ timed_out ∷ failed ∷ [])).1
          bound
        ≡ (forget id_t 0 bound, Pool.conn_write 7 (codes "200") ∷ Pool.conn_close 7 ∷ []))
unfolding lookup contains_byte bytes_eq
stream_reaches_client_example =
    stream_reaches_client client_world server_world 0 11 id_t 7 9 bound refl refl (λ _. refl)
      (λ _. refl) (chunk (codes "200") ∷ timed_out ∷ []) [] tt

-- The channel is dialled again, at the second try.
abbrev redialled : Pool
redialled = record bound { ws_conns = some 12 ∷ [] }

redialled_data_lost_example :
    ((send_data client_world id_t (codes "x") redialled).0 ≡ none)
    × (to_server server_world 12
          (send_data client_world id_t (codes "x") redialled).1
          Server.new_session
        ≡ (Server.new_session, []))
    × (lookup id_t redialled.tcp_map ≡ lookup id_t bound.tcp_map)
unfolding contains_byte dial_once
redialled_data_lost_example =
    redialled_data_lost id_t 0 11 12 (none ∷ some 12 ∷ []) bound redialled bound_to_0 refl
      client_world server_world (codes "x") refl (λ _. refl)
