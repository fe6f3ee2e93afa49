-- ===== src/Socks5/Association/Talk/Packets.antt =====
-- handleUDPPacket and sendUDPData of socks5.go as part of what an association says.
use ech_tunnel.Base.{
  ℕ, true, false, [], ◌∷◌, Option, none, some, ◌≡◌, refl, arith, Bytes, Bool-cases, Option-cases,
  inl, inr, lookup, bytes_key, insert, nat_eq, ◌⊎◌,
}
use ech_tunnel.Wire.{text, binary, udp_connect_message, udp_data_message}
use ech_tunnel.Pool.{Pool, Ws, ws_write}
use ech_tunnel.Pool.Send.{
  first_ws, bound_ws, send_udp_connect, send_udp_data, write_error, Error, no_ws, write_failed,
}
use ech_tunnel.Socks5.{ok, err, parse_socks5_udp_packet, Parsed, PacketError}
use ech_tunnel.Socks5.Association.{
  Association, Env, of_pool, go_wait, forward, connect_first, send_data, handle_udp_packet,
}
use ech_tunnel.Socks5.Association.Talk.{
  Phase, fresh, opened, ended, silent, connects, sends, beside, Agrees, Talked, Said, unbound_ws,
  nothing_said,
}

module _ (env : Env) (payload : Bytes) (a : Association) (p : Pool) where
  forward_unbound : bound_ws a.conn_id p ≡ none → forward env payload a p ≡ ((a, p), [])
  unfolding forward send_udp_data
  forward_unbound missing = rw (missing, forward, send_udp_data) refl

  forward_found :
      {c : ℕ} {ws : Ws}
      → bound_ws a.conn_id p ≡ some (c, ws)
      → forward env payload a p
        ≡ ((a, p), of_pool (ws_write ws binary (udp_data_message a.conn_id payload)) ∷ [])
  unfolding forward send_udp_data
  forward_found found = rw (found, forward, send_udp_data) refl

  forward_bound : a.receiving ≡ true → Talked a.conn_id opened (forward env payload a p).1 a p
  forward_bound begun = elim (Option-cases (bound_ws a.conn_id p)) [
    | inl missing ↦ rw (forward_unbound missing) (nothing_said opened (refl, begun))
    | inr ((c, ws), found) ↦
        rw (forward_found found)
          (record { after = opened; talk = sends ws payload silent; agrees = (refl, begun) })
  ]

  forward_state : (forward env payload a p).0 ≡ (a, p)
  unfolding forward
  forward_state = refl

  forward_talks :
      (ph : Phase)
      → a.closed ≡ false
      → Agrees ph a.conn_id a p
      → Talked a.conn_id ph (forward env payload a p).1 a p
  forward_talks fresh live (named, unbound) =
      rw (forward_unbound (unbound_ws a.conn_id p unbound)) (nothing_said fresh (refl, unbound))
  forward_talks opened live (named, begun) = forward_bound begun
  forward_talks ended live (named, over) = absurd (ground (arith, live, over))

module _ (env : Env) (target payload : Bytes) (a : Association) (p : Pool) where
  -- The pool behind SendUDPConnect.
  abbrev bound_to : ℕ → Pool
  bound_to c = record p {
    channel_map = insert a.conn_id c p.channel_map;
    bound_by_channel = insert c a.conn_id p.bound_by_channel;
  }

  abbrev begun_one : Association
  begun_one = record a { receiving = true }

  abbrev hello : Bytes
  hello = udp_connect_message a.conn_id target

  no_channel_there :
      first_ws 0 p.ws_conns ≡ none
      → send_udp_connect env.pool a.conn_id target p ≡ (p, some no_ws, [])
  unfolding send_udp_connect
  no_channel_there missing = rw (missing, send_udp_connect)

  connect_failed :
      first_ws 0 p.ws_conns ≡ none → connect_first env target payload a p ≡ ((begun_one, p), [])
  unfolding connect_first
  connect_failed missing =
      rw (no_channel_there missing, connect_first) (rw (no_channel_there missing))

  module _ (c : ℕ) (ws : Ws) (found : first_ws 0 p.ws_conns ≡ some (c, ws)) where
    connect_tried :
        (error : Option Error)
        → write_error (env.pool.ws_ok ws hello) ≡ error
        → send_udp_connect env.pool a.conn_id target p
          ≡ (bound_to c, error, ws_write ws text hello ∷ [])
    unfolding send_udp_connect
    connect_tried error e = rw (found, send_udp_connect) (rw e)

    connect_refused :
        env.pool.ws_ok ws hello ≡ false
        → connect_first env target payload a p
          ≡ ((begun_one, bound_to c), of_pool (ws_write ws text hello) ∷ [])
    unfolding connect_first
    connect_refused lost =
        let tried = connect_tried (some write_failed) (rw lost) in
        rw (tried, connect_first) (rw tried)

    connect_sent :
        env.pool.ws_ok ws hello ≡ true
        → connect_first env target payload a p ≡ (
          (begun_one, bound_to c),
          of_pool (ws_write ws text hello)
              ∷ go_wait a.conn_id
              ∷ (forward env payload begun_one (bound_to c)).1,
        )
    unfolding connect_first forward
    connect_sent sent =
        let tried = connect_tried none (rw sent) in rw (tried, connect_first) (rw tried)

  connect_talks :
      lookup a.conn_id p.channel_map ≡ none
      → Said a.conn_id fresh (connect_first env target payload a p)
  connect_talks unbound = elim (Option-cases (first_ws 0 p.ws_conns)) [
    | inl missing ↦ rw (connect_failed missing) (nothing_said fresh (refl, unbound))
    | inr ((c, ws), found) ↦ elim (Bool-cases (env.pool.ws_ok ws hello)) [
      | inl sent ↦
          let said = forward_bound env payload begun_one (bound_to c) refl in
          rw (connect_sent c ws found sent) (record {
            after = said.after;
            talk = connects ws target (beside tt said.talk);
            agrees = said.agrees;
          })
      | inr lost ↦
          rw (connect_refused c ws found lost)
            (record { after = opened; talk = connects ws target silent; agrees = (refl, refl) })
    ]
  ]

  -- Before the first datagram only the first phase agrees with an association that is open.
  fresh_talks :
      (ph : Phase)
      → a.closed ≡ false
      → a.receiving ≡ false
      → Agrees ph a.conn_id a p
      → Said a.conn_id ph (connect_first env target payload a p)
  fresh_talks fresh live new (named, unbound) = connect_talks unbound
  fresh_talks opened live new (named, begun) = absurd (ground (arith, new, begun))
  fresh_talks ended live new (named, over) = absurd (ground (arith, live, over))

  forward-Said :
      (ph : Phase)
      → a.closed ≡ false
      → Agrees ph a.conn_id a p
      → Said a.conn_id ph (forward env payload a p)
  unfolding forward
  forward-Said = forward_talks env payload a p

  send_closed : a.closed ≡ true → send_data env target payload (a, p) ≡ ((a, p), [])
  unfolding send_data
  send_closed over = ground (arith, over)

  send_begun :
      a.closed ≡ false
      → a.receiving ≡ true
      → send_data env target payload (a, p) ≡ forward env payload a p
  unfolding send_data
  send_begun live begun = ground (arith, live, begun)

  send_new :
      a.closed ≡ false
      → a.receiving ≡ false
      → send_data env target payload (a, p) ≡ connect_first env target payload a p
  unfolding send_data
  send_new live new = ground (arith, live, new)

  send_data_talks :
      (ph : Phase)
      → Agrees ph a.conn_id a p
      → Said a.conn_id ph (send_data env target payload (a, p))
  send_data_talks ph h = elim (Bool-cases a.closed) [
    | inl over ↦ rw (send_closed over) (nothing_said ph h)
    | inr live ↦ elim (Bool-cases a.receiving) [
      | inl begun ↦ rw (send_begun live begun) (forward-Said ph live h)
      | inr new ↦ rw (send_new live new) (fresh_talks ph live new h)
    ]
  ]

pub Packet-cases :
    {A : Type 0} (r : Parsed A) → ((e : PacketError) × (r ≡ err e)) ⊎ ((x : A) × (r ≡ ok x))
Packet-cases (err e) = inl (e, refl)
Packet-cases (ok x) = inr (x, refl)

pub handle_udp_packet_talks :
    (env : Env) (packet : Bytes) (ph : Phase) (a : Association) (p : Pool)
    → Agrees ph a.conn_id a p
    → Said a.conn_id ph (handle_udp_packet env packet (a, p))
unfolding handle_udp_packet
handle_udp_packet_talks env packet ph a p h = elim (Packet-cases (parse_socks5_udp_packet packet)) [
  | inl (e, bad) ↦ rw (bad, handle_udp_packet) (nothing_said ph h)
  | inr ((target, payload), good) ↦
      rw (good, handle_udp_packet) (send_data_talks env target payload a p ph h)
]
