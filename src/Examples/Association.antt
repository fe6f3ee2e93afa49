-- ===== src/Examples/Association.antt =====
-- The UDP association of socks5.go on one client.
use ech_tunnel.Base.{
  true, false, [], ◌∷◌, none, some, ◌≡◌, refl, Bytes, codes, contains_byte, lookup, bytes_key, ◌++◌,
  bytes_eq,
}
use ech_tunnel.Wire.{text, binary, udp_connect_message, udp_data_message}
use ech_tunnel.Pool
use ech_tunnel.Server
use ech_tunnel.Server.{Session}
use ech_tunnel.Tunnel.{to_server}
use ech_tunnel.Tunnel.Datagrams.{later_target_ignored}
use ech_tunnel.Examples.Tunnel.{server_world}
use ech_tunnel.Pool.{Pool, ws_write}
use ech_tunnel.Pool.Send.{first_ws, bound_ws, ws_at}
use ech_tunnel.Socks5.{
  ok, parse_socks5_udp_packet, build_socks5_udp_packet, packet_host, byte_at, reply_address,
  target_text,
}
use ech_tunnel.Base.{decimal}
use ech_tunnel.Socks5.Association.{
  Association, Env, State, handle_udp_relay, handle_udp_response, of_pool, go_wait, to_client,
}
use ech_tunnel.Socks5.Handshake.{ProxyConfig}
use ech_tunnel.Socks5.Associate
use ech_tunnel.Socks5.Associate.{
  opened, udp_response, listener_address, handle_udp_associate, associated_datagram_forwarded,
}
use ech_tunnel.Socks5.Association.Datagrams.{colon_host_dropped, reply_reaches_client}

abbrev pub client : Bytes
client = codes "10.0.0.2:4000"

abbrev pub fresh : Association
fresh = record { conn_id = codes "u"; client_udp_addr = none; closed = false; receiving = false }

abbrev in_use : Association
in_use = record {
  conn_id = codes "u";
  client_udp_addr = some client;
  closed = false;
  receiving = true;
}

-- Host names are no addresses, and every port is 53.
abbrev pub fine : Env
fine = record {
  pool = record { ws_ok = λ _ _. true; conn_ok = λ _ _. true; now = λ i. i };
  parse_ip = λ _. none;
  scan_port = λ _. 53;
  udp_ok = λ _. true;
}

abbrev pub second_connected : Pool
second_connected = record {
  ws_server_addr = codes "wss://server";
  connection_num = 2;
  ws_conns = none ∷ some 12 ∷ [];
  tcp_map = [];
  udp_map = (codes "u", 5) ∷ [];
  channel_map = [];
  conn_info = [];
  claim_times = [];
  connected = (codes "u", false) ∷ [];
  bound_by_channel = [];
}

-- To `ab:53`, with the payload `!`.
abbrev pub query : Bytes
query = 0 ∷ 0 ∷ 0 ∷ 3 ∷ 2 ∷ b'a' ∷ b'b' ∷ 0 ∷ 53 ∷ b'!' ∷ []

colon_host_dropped_example :
    handle_udp_response fine (codes "2001:db8::1" ++ b':' ∷ codes "53") (codes "!") in_use ≡ []
unfolding contains_byte
colon_host_dropped_example =
    colon_host_dropped fine (codes "2001:db8::1") (codes "53") (codes "!") in_use refl

query_read : parse_socks5_udp_packet query ≡ ok (codes "ab:53", codes "!")
unfolding parse_socks5_udp_packet packet_host byte_at target_text decimal
query_read = refl

reply_reaches_client_example :
    handle_udp_response fine (codes "ab" ++ b':' ∷ codes "53") (codes "!") in_use
    ≡ to_client client query ∷ []
unfolding contains_byte build_socks5_udp_packet reply_address
reply_reaches_client_example =
    reply_reaches_client fine (codes "ab") (codes "53") (codes "!") query client in_use refl refl
      refl refl

abbrev listening : Associate.Env
listening = record {
  split_host = λ s. some s;
  resolve = λ _. some 0;
  listen = λ _. some (127 ∷ 0 ∷ 0 ∷ 1 ∷ [], 4660);
  conn_ok = λ _. true;
}

abbrev local_proxy : ProxyConfig
local_proxy = record { username = []; password = []; host = codes "127.0.0.1" }

heard : listener_address listening local_proxy ≡ some (127 ∷ 0 ∷ 0 ∷ 1 ∷ [], 4660)
unfolding listener_address
heard = refl

associated_datagram_forwarded_example :
    (s : State) × (handle_udp_associate listening local_proxy (codes "u") 5 second_connected
      ≡ (opened s, udp_response (127 ∷ 0 ∷ 0 ∷ 1 ∷ []) 4660 ∷ []))
    × (lookup (codes "u") s.1.udp_map ≡ some 5)
    × ((handle_udp_relay fine client query s).1
        ≡ of_pool (ws_write 12 text (udp_connect_message (codes "u") (codes "ab:53")))
          ∷ go_wait (codes "u")
          ∷ of_pool (ws_write 12 binary (udp_data_message (codes "u") (codes "!")))
          ∷ [])
    × ((handle_udp_relay fine client query s).0.0.client_udp_addr ≡ some client)
unfolding first_ws
associated_datagram_forwarded_example =
    associated_datagram_forwarded listening fine local_proxy (codes "u") 5 second_connected
      (127 ∷ 0 ∷ 0 ∷ 1 ∷ []) 4660 heard refl client query (codes "ab:53") (codes "!") 1 12
      query_read refl refl

-- The association after UDP_CONNECT.
abbrev connected : Pool
connected = record second_connected { channel_map = (codes "u", 1) ∷ [] }

on_channel : bound_ws (codes "u") connected ≡ some (1, 12)
unfolding bound_ws ws_at lookup bytes_eq
on_channel = refl

-- The server's socket, whose target is another one than the query's.
abbrev elsewhere : Session
elsewhere = record {
  conns = [];
  udp_conns = (codes "u", 4) ∷ [];
  udp_targets = (codes "u", 8) ∷ [];
}

later_target_ignored_example :
    (e : Pool.Effect) × ((handle_udp_relay fine client query (in_use, connected)).1
      ≡ of_pool e ∷ [])
    × (to_server server_world 12 (e ∷ []) elsewhere
        ≡ (elsewhere, Server.udp_write 4 (codes "!") 8 ∷ []))
unfolding contains_byte lookup bytes_eq
later_target_ignored_example =
    later_target_ignored fine client query (codes "ab:53") (codes "!") in_use connected 1 12
      query_read refl refl refl on_channel server_world elsewhere 4 8 refl refl refl
