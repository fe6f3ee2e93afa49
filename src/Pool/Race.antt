-- ===== src/Pool/Race.antt =====
-- The race of the channels for a connection: acknowledgements of its claims.
pub mod Claims
use ech_tunnel.Base.{
  ℕ, zero, suc, ◌+◌, ◌<◌, Bool, true, false, List, [], ◌∷◌, ◌++◌, Option, none, some, ◌≡◌, ◌≢◌,
  refl, arith, Bytes, Map, lookup, insert, erase, is_none, is_empty, lookup-insert, lookup-erase,
  bytes_key, nat_eq, bytes_eq_iff, bytes_eq_refl, ==_iff, Bool-cases, Option-cases, inl, inr,
  if◌then◌else◌, lookup-insert_self, lookup-erase_self, lookup-nil, erase-insert_nil, ◌∙◌,
}
use ech_tunnel.Wire.{text, claim_message, tcp_message}
use ech_tunnel.Pool.{
  Conn, Ws, Info, Pool, Env, Effect, ws_write, conn_close, register, claim_channel, claim_loop,
  register_and_claim,
}
use ech_tunnel.Pool.Receive.{Outcome, take_claim, win_claim, forget, close_local, claim_acked}

-- Acknowledgements of one connection as they arrive, each with its channel and WebSocket.
unfoldable pub acks : Env → Bytes → List (ℕ × Ws) → Pool → Outcome
acks env id [] p = (p, [])
acks env id ((c, ws) ∷ rest) p =
    let (q, es) = claim_acked env c ws id p in let (r, fs) = acks env id rest q in (r, es ++ fs)

-- Once the connection has a channel, acknowledgements do nothing.
acks_bound :
    (env : Env) (id : Bytes) (c : ℕ) (arrivals : List (ℕ × Ws)) (p : Pool)
    → lookup id p.channel_map ≡ some c
    → acks env id arrivals p ≡ (p, [])
unfolding acks claim_acked
acks_bound env id c [] p h = refl
acks_bound env id c ((d, ws) ∷ rest) p h = ground (arith, acks_bound env id c rest p)

-- No map for TCP connections mentions the connection, and nothing is bound to the channel.
pub record IsForgotten (id : Bytes) (c : ℕ) (p : Pool) : Type 0 where
  pub tcp : lookup id p.tcp_map ≡ none
  pub channel : lookup id p.channel_map ≡ none
  pub info : lookup id p.conn_info ≡ none
  pub claims : lookup id p.claim_times ≡ none
  pub bound : lookup c p.bound_by_channel ≡ none

module _ (env : Env) (c : ℕ) (ws : Ws) (id : Bytes) (info : Info) (p : Pool)
    (waiting : lookup id p.conn_info ≡ some info) (free : lookup id p.channel_map ≡ none) where
  pub acked_sent :
      env.ws_ok ws (tcp_message id info.target_addr info.first_frame_data) ≡ true
      → claim_acked env c ws id p ≡ (
        win_claim id c p,
        ws_write ws text (tcp_message id info.target_addr info.first_frame_data) ∷ [],
      )
  unfolding claim_acked
  acked_sent sent = rw (free, waiting, sent, claim_acked)

  pub win_claim_lem :
      (lookup id (win_claim id c p).channel_map ≡ some c)
      × (lookup c (win_claim id c p).bound_by_channel ≡ some id)
      × (lookup id (win_claim id c p).conn_info ≡ none)
  unfolding win_claim
  win_claim_lem = (
    lookup-insert_self id c p.channel_map,
    lookup-insert_self c id p.bound_by_channel,
    lookup-erase_self id p.conn_info,
  )

  -- The first acknowledgement of a waiting connection wins: whatever acknowledgements follow, on
  -- whatever channels, the request with the registered target and first frame is sent once, on the
  -- first one's channel. Then the connection is bound to that channel and no longer waits.
  pub acks_first_wins :
      (rest : List (ℕ × Ws))
      → env.ws_ok ws (tcp_message id info.target_addr info.first_frame_data) ≡ true
      → (q : Pool) × (acks env id ((c, ws) ∷ rest) p
          ≡ (q, ws_write ws text (tcp_message id info.target_addr info.first_frame_data) ∷ []))
        × (lookup id q.channel_map ≡ some c)
        × (lookup c q.bound_by_channel ≡ some id)
        × (lookup id q.conn_info ≡ none)
  unfolding acks
  acks_first_wins rest sent =
      let (bound, back, gone) = win_claim_lem in
      (
        win_claim id c p,
        rw (acked_sent sent) (rw (acks_bound env id c rest (win_claim id c p) bound)),
        bound,
        back,
        gone,
      )

  pub acked_lost :
      env.ws_ok ws (tcp_message id info.target_addr info.first_frame_data) ≡ false
      → claim_acked env c ws id p ≡ (
        forget id c (win_claim id c p),
        ws_write ws text (tcp_message id info.target_addr info.first_frame_data) ∷ close_local id p,
      )
  unfolding claim_acked
  acked_lost lost = rw (free, waiting, lost, claim_acked)

  -- If the winner's request cannot be written, the pool forgets the connection in all of its maps
  -- for TCP connections, and the local connection is closed if there is one.
  pub acked_write_fails :
      env.ws_ok ws (tcp_message id info.target_addr info.first_frame_data) ≡ false
      → (q : Pool) × (claim_acked env c ws id p ≡ (
        q,
        ws_write ws text (tcp_message id info.target_addr info.first_frame_data)
            ∷ elim (lookup id p.tcp_map) [ none ↦ [] | some conn ↦ conn_close conn ∷ [] ],
      ))
        × IsForgotten id c q
  unfolding forget close_local win_claim
  acked_write_fails lost =
      let won = win_claim id c p in
      (
        forget id c won,
        acked_lost lost,
        record {
          tcp = lookup-erase_self id p.tcp_map;
          channel = lookup-erase_self id won.channel_map;
          info = lookup-erase_self id won.conn_info;
          claims = lookup-erase_self id won.claim_times;
          bound = lookup-erase_self c won.bound_by_channel;
        },
      )
