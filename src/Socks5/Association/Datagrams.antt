-- ===== src/Socks5/Association/Datagrams.antt =====
-- Datagrams through an association of socks5.go: to the target, back from it, and after Close.
use ech_tunnel.Base.{
  ℕ, ◌≤◌, true, false, List, [], ◌∷◌, ◌++◌, Option, none, some, ◌≡◌, refl, arith, Bytes, split,
  length-split_two, split-append, contains_byte, length, lookup, insert, bytes_key,
  lookup-insert_self, ◌∙◌, get_elem?, suc, ◌+◌, nat_eq, ap, if◌then◌else◌,
}
use ech_tunnel.Wire.{text, binary, udp_connect_message, udp_data_message}
use ech_tunnel.Pool.{Pool, Ws, ws_write}
use ech_tunnel.Pool.Send.{first_ws, send_udp_connect, send_udp_data, bound_ws, ws_at}
use ech_tunnel.Socks5.{ok, parse_socks5_udp_packet, build_socks5_udp_packet}
use ech_tunnel.Socks5.Association.{
  Association, of_pool, go_wait, Env, State, close, send_data, handle_udp_packet, handle_udp_relay,
  handle_udp_response, respond, forward, connect_first, to_client, signal_done, reply,
}

packet_silent :
    (env : Env) (packet : Bytes) (a : Association) (p : Pool)
    → a.closed ≡ true
    → (handle_udp_packet env packet (a, p)).1 ≡ []
unfolding handle_udp_packet send_data
packet_silent env packet a p h = ground arith

relay_silent :
    (env : Env) (src packet : Bytes) (a : Association) (p : Pool)
    → a.closed ≡ true
    → (handle_udp_relay env src packet (a, p)).1 ≡ []
unfolding handle_udp_relay
relay_silent env src packet a p h = ground (
  arith,
  packet_silent env packet a p h,
  packet_silent env packet (record a { client_udp_addr = some src }) p h,
)

close-closed : (env : Env) (s : State) → (close env s).0.0.closed ≡ true
unfolding close
close-closed env (a, p) = ground arith

close_again :
    (env : Env) (a : Association) (p : Pool) → a.closed ≡ true → close env (a, p) ≡ ((a, p), [])
unfolding close
close_again env a p h = ground arith

-- Whatever the association was: once Close has returned, no datagram of the client, from whatever
-- address, reaches the pool, and a second Close does nothing.
pub closed_is_silent :
    (env later : Env) (src packet : Bytes) (s : State)
    → ((handle_udp_relay later src packet (close env s).0).1 ≡ [])
      × (close later (close env s).0 ≡ ((close env s).0, []))
closed_is_silent env later src packet s =
    let h = close-closed env s in
    let (b, q) = (close env s).0 in
    (
      relay_silent later src packet (close env s).0.0 (close env s).0.1 h,
      close_again later (close env s).0.0 (close env s).0.1 h,
    )

respond_many :
    (env : Env) (parts : List Bytes) (payload : Bytes) (a : Association)
    → 3 ≤ length parts
    → respond env parts payload a ≡ []
unfolding respond
respond_many env [] payload a h = refl
respond_many env (x ∷ []) payload a h = refl
respond_many env (x ∷ y ∷ []) payload a h = absurd (omega arith)
respond_many env (x ∷ y ∷ z ∷ parts) payload a h = refl

-- A reply whose host is written with colons and without brackets, as the server writes an IPv6
-- host, never reaches the client.
pub colon_host_dropped :
    (env : Env) (host port payload : Bytes) (a : Association)
    → contains_byte b':' host ≡ true
    → handle_udp_response env (host ++ b':' ∷ port) payload a ≡ []
unfolding handle_udp_response
colon_host_dropped env host port payload a colon =
    respond_many env (split b':' (host ++ b':' ∷ port)) payload a
      (length-split_two b':' host port colon)

first_ws_lem :
    (i : ℕ) (conns : List (Option Ws)) {c : ℕ} {ws : Ws}
    → first_ws i conns ≡ some (c, ws)
    → (k : ℕ) × (c ≡ i + k) × (get_elem? conns k ≡ some (some ws))
unfolding first_ws
first_ws_lem i [] e = cc
first_ws_lem i (none ∷ conns) e =
    let (k, at, found) = first_ws_lem (suc i) conns e in (suc k, omega (arith, at), found)
first_ws_lem i (some w ∷ conns) {c} {ws} e =
    let index : i ≡ c = cc in
    let found : some w ≡ some ws = cc in (0, omega (arith, index), ap some found)

ws_at-first_ws :
    (conns : List (Option Ws)) {c : ℕ} {ws : Ws}
    → first_ws 0 conns ≡ some (c, ws)
    → ws_at conns c ≡ some ws
unfolding ws_at
ws_at-first_ws conns {c} {ws} e =
    let (k, at, found) = first_ws_lem 0 conns e in
    let same : c ≡ k = omega (arith, at) in rw same (rw (found, ws_at))

module _ (env : Env) (target payload : Bytes) (a : Association) (p : Pool) (c : ℕ) (ws : Ws)
    (first : first_ws 0 p.ws_conns ≡ some (c, ws))
    (sent : env.pool.ws_ok ws (udp_connect_message a.conn_id target) ≡ true) where
  -- The pool once UDP_CONNECT has been sent.
  abbrev connecting : Pool
  connecting = record p {
    channel_map = insert a.conn_id c p.channel_map;
    bound_by_channel = insert c a.conn_id p.bound_by_channel;
  }

  udp_connect_sent :
      send_udp_connect env.pool a.conn_id target p
      ≡ (connecting, none, ws_write ws text (udp_connect_message a.conn_id target) ∷ [])
  unfolding send_udp_connect
  udp_connect_sent = rw (first, send_udp_connect) (rw sent)

  connecting_bound : bound_ws a.conn_id connecting ≡ some (c, ws)
  unfolding bound_ws
  connecting_bound =
      rw (lookup-insert_self a.conn_id c p.channel_map, bound_ws)
        (rw (ws_at-first_ws p.ws_conns first))

  connect_first_lem : connect_first env target payload a p ≡ (
    (record a { receiving = true }, connecting),
    of_pool (ws_write ws text (udp_connect_message a.conn_id target))
        ∷ go_wait a.conn_id
        ∷ of_pool (ws_write ws binary (udp_data_message a.conn_id payload))
        ∷ [],
  )
  unfolding connect_first forward send_udp_data
  connect_first_lem =
      rw (udp_connect_sent, connect_first)
        (rw udp_connect_sent (rw (connecting_bound, forward, send_udp_data)))

relay_first :
    (env : Env) (src packet target payload : Bytes) (a : Association) (p : Pool)
    → parse_socks5_udp_packet packet ≡ ok (target, payload)
    → a.client_udp_addr ≡ none
    → a.closed ≡ false
    → a.receiving ≡ false
    → handle_udp_relay env src packet (a, p)
      ≡ connect_first env target payload (record a { client_udp_addr = some src }) p
unfolding handle_udp_relay handle_udp_packet send_data
relay_first env src packet target payload a p parsed new live fresh =
    rw (new, handle_udp_relay) (rw (parsed, handle_udp_packet) (rw (live, fresh)))

-- The first datagram of an open association that has not sent anything yet: where the pool has a
-- connected channel and UDP_CONNECT can be written, that channel gets UDP_CONNECT with the packet's
-- target and then UDP_DATA with its payload, in this order and nothing else, the wait for
-- UDP_CONNECTED is started in between, and the sender is the association's client from then on.
pub first_datagram_forwarded :
    (env : Env) (src packet target payload : Bytes) (a : Association) (p : Pool) (c : ℕ) (ws : Ws)
    → parse_socks5_udp_packet packet ≡ ok (target, payload)
    → a.client_udp_addr ≡ none
    → a.closed ≡ false
    → a.receiving ≡ false
    → first_ws 0 p.ws_conns ≡ some (c, ws)
    → env.pool.ws_ok ws (udp_connect_message a.conn_id target) ≡ true
    → ((handle_udp_relay env src packet (a, p)).1
        ≡ of_pool (ws_write ws text (udp_connect_message a.conn_id target))
          ∷ go_wait a.conn_id
          ∷ of_pool (ws_write ws binary (udp_data_message a.conn_id payload))
          ∷ [])
      × ((handle_udp_relay env src packet (a, p)).0.0.client_udp_addr ≡ some src)
      × (lookup a.conn_id (handle_udp_relay env src packet (a, p)).0.1.channel_map ≡ some c)
first_datagram_forwarded env src packet target payload a p c ws parsed new live fresh first sent =
    let b : Association = record a { client_udp_addr = some src } in
    let run =
      relay_first env src packet target payload a p parsed new live fresh
      ∙ connect_first_lem env target payload b p c ws first sent in
    rw run (refl, refl, lookup-insert_self a.conn_id c p.channel_map)

-- A reply from a host that is written without colons goes to the association's client, packed by
-- buildSOCKS5UDPPacket with that host and the port that is read from the text behind the colon; if
-- it cannot be sent, the association is told to end.
pub reply_reaches_client :
    (env : Env) (host port payload packet addr : Bytes) (a : Association)
    → contains_byte b':' host ≡ false
    → contains_byte b':' port ≡ false
    → build_socks5_udp_packet env.parse_ip host (env.scan_port port) payload ≡ ok packet
    → a.client_udp_addr ≡ some addr
    → handle_udp_response env (host ++ b':' ∷ port) payload a
      ≡ to_client addr packet ∷ (if env.udp_ok packet then [] else signal_done ∷ [])
unfolding handle_udp_response
reply_reaches_client env host port payload packet addr a plain digits built known =
    rw (split-append b':' host port plain digits)
      (rw (built, respond) (rw (known, reply) (ground arith)))
