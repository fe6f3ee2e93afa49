-- ===== src/Examples/Local.antt =====
-- One local connection, from its registration to its end.
use ech_tunnel.Base.{
  true, false, List, [], ◌∷◌, ◌++◌, none, some, ◌≡◌, refl, inr, codes, lookup, bytes_key, bytes_eq,
  contains_byte, erase, decimal, arith, insert, trim_prefix, ◌<◌,
}
use ech_tunnel.Wire.{text, claim_message, claim_ack_message, connected_message}
use ech_tunnel.Pool
use ech_tunnel.Pool.{Pool, new_ech_pool, register, register_and_claim, make_signal}
use ech_tunnel.Pool.Receive.{handle_channel, handle_text, signal}
use ech_tunnel.Pool.Send.{wait_connected}
use ech_tunnel.Pool.Steps.{Reach, here, next, registered, received}
use ech_tunnel.Pool.Announced.{Reported, wait_succeeds-Reported}
use ech_tunnel.Pool.Phases.{phase, unknown, Move}
use ech_tunnel.Pool.Phases.Refines.{pool_implements}
use ech_tunnel.Server
use ech_tunnel.Server.Tcp.{handle_tcp_connection}
use ech_tunnel.Tunnel.{to_server, to_client}
use ech_tunnel.Local.{
  socks5_connect, http_connect, tcp_forwarder, Round, relaying, refused, read_ended, refuse_client,
  success, await_connection, upload, finish,
}
use ech_tunnel.Local.Opening.{connection_opens, greeting, IsRelayed}
use ech_tunnel.Local.Upload.{client_ended, sent, upload_delivered}
use ech_tunnel.Local.Refusal.{refused_request_still_sent}
use ech_tunnel.Examples.Tunnel.{
  id_t, info, client_world, server_world, one_channel, bound, serving, bound_to_0, served_by_9,
}

connection_opens_example :
    (ready_pool : Pool) × (before after : List Pool.Effect) × (relayed late : Pool)
    × (register_and_claim client_world id_t (codes "host:80") (codes "GET") 7 one_channel
        ≡ some (ready_pool, before ++ Pool.ws_write 11 text (claim_message id_t 0) ∷ after))
    × (let (s1, ack) =
          to_server server_world 11
            (Pool.ws_write 11 text (claim_message id_t 0) ∷ [])
            Server.new_session in
        let (won, request) = to_client client_world 0 11 ack ready_pool in
        let (s2, started) = to_server server_world 11 request s1 in
        let (s3, answers) =
          handle_tcp_connection server_world id_t (codes "host:80") (codes "GET") [] s2 in
        let (ready, replies) = to_client client_world 0 11 answers won in
        (started ≡ Server.go_tcp id_t (codes "host:80") (codes "GET") ∷ [])
        × (lookup id_t s3.conns ≡ some 9)
        × (await_connection http_connect client_world false id_t 7 ready
            ≡ some (relaying, relayed, greeting 7 (success http_connect))))
    × IsRelayed id_t 0 11 7 relayed
    × IsRelayed id_t 0 11 7 late
unfolding lookup contains_byte bytes_eq
connection_opens_example =
    connection_opens http_connect client_world server_world 0 11 id_t (codes "host:80")
      (codes "GET") 7 9 one_channel Server.new_session refl refl refl refl refl (λ _. refl) refl
      (inr refl) false

-- Two pieces and the end of the client.
abbrev rounds : List Round
rounds =
    record { read = some (codes "GET /"); env = client_world; pool = bound }
    ∷ record { read = some (codes "|x"); env = client_world; pool = bound }
    ∷ record { read = none; env = client_world; pool = bound }
    ∷ []

upload_delivered_example :
    ((upload id_t rounds).0 ≡ read_ended)
    × (to_server server_world 11
          ((upload id_t rounds).1 ++ (finish socks5_connect client_world id_t 7 bound).1)
          serving
        ≡ (
          record serving { conns = erase id_t serving.conns },
          Server.conn_write 9 (codes "GET /")
              ∷ Server.conn_write 9 (codes "|x")
              ∷ Server.conn_close 9
              ∷ [],
        ))
unfolding contains_byte
upload_delivered_example =
    upload_delivered socks5_connect client_world server_world 0 11 id_t 7 9 bound serving refl
      bound_to_0 served_by_9
      (sent _ _ refl bound_to_0 refl (sent _ _ refl bound_to_0 refl (client_ended _ [] refl)))

-- The connection waits, and nothing has been reported.
abbrev silent : Pool
silent = record one_channel { connected = (id_t, false) ∷ [] }

refused_request_still_sent_example :
    (q : Pool) × (await_connection tcp_forwarder client_world true id_t 7 silent
      ≡ some (refused, q, refuse_client tcp_forwarder 7))
    × (to_server server_world 11
          (to_client client_world 0 11
            (Server.ws_write text (claim_ack_message id_t (decimal 0)) ∷ [])
            q).1
          Server.new_session
        ≡ (Server.new_session, Server.go_tcp id_t (codes "host:80") (codes "GET") ∷ []))
unfolding lookup contains_byte bytes_eq
refused_request_still_sent_example =
    refused_request_still_sent tcp_forwarder client_world server_world 0 11 id_t info 7 silent
      Server.new_session refl refl refl refl refl refl

-- A new pool with one channel, on which a connection is registered and then reported.
abbrev start : Pool
start = new_ech_pool (codes "wss://server") 1

abbrev asked : Pool
asked = register id_t (codes "host:80") (codes "GET") 7 start

nothing_bound : lookup id_t start.channel_map ≡ none
unfolding new_ech_pool lookup
nothing_bound = refl

one_channel_there : 0 < asked.connection_num
unfolding register new_ech_pool
one_channel_there = omega arith

abbrev run : Reach start (handle_channel client_world 0 11 text (connected_message id_t) asked).0
run =
    next (next here (registered id_t (codes "host:80") (codes "GET") 7 nothing_bound))
      (received client_world 0 11 text (connected_message id_t) one_channel_there)

pool_implements_example : (phase id_t start ≡ unknown) × Move (phase id_t start) (phase id_t asked)
pool_implements_example =
    pool_implements (codes "wss://server") 1 id_t start asked here
      (registered id_t (codes "host:80") (codes "GET") 7 nothing_bound) tt

abbrev reported : Pool
reported = (handle_channel client_world 0 11 text (connected_message id_t) asked).0

abbrev woken : Pool
woken = record reported { connected = insert id_t false reported.connected }

wakes : wait_connected false id_t reported ≡ some (woken, true)
unfolding wait_connected handle_channel handle_text trim_prefix signal register make_signal
    new_ech_pool lookup insert erase bytes_eq
wakes = refl

wait_succeeds-Reported_example : Reported id_t run
wait_succeeds-Reported_example =
    wait_succeeds-Reported (codes "wss://server") 1 reported woken run false id_t wakes
