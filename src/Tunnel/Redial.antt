-- ===== src/Tunnel/Redial.antt =====
-- A channel that is dialled again: the server's side of the new WebSocket is a new session.
use ech_tunnel.Base.{
  ℕ, zero, suc, true, false, List, [], ◌∷◌, Option, none, some, ◌≡◌, refl, sym, ap, ◌∙◌, arith,
  Bytes, lookup, bytes_key, contains_byte, get_elem?, set, Option-cases, inl, inr,
}
use ech_tunnel.Wire.{data_message}
use ech_tunnel.Pool
use ech_tunnel.Pool.{Pool, Ws, dial_once}
use ech_tunnel.Pool.Send.{ws_at, bound_ws, send_data}
use ech_tunnel.Server
use ech_tunnel.Server.{Session}
use ech_tunnel.Server.Dispatch.{forward_tcp}
use ech_tunnel.Tunnel.{to_server}
use ech_tunnel.Tunnel.Up.{to_server_one}

get_elem?-set :
    (conns : List (Option Ws)) (c : ℕ) (old v : Option Ws)
    → get_elem? conns c ≡ some old
    → get_elem? (set conns c v) c ≡ some v
get_elem?-set [] c old v h = absurd (ground (arith, h))
get_elem?-set (x ∷ conns) zero old v h = refl
get_elem?-set (x ∷ conns) (suc c) old v h = get_elem?-set conns c old v h

ws_at-set :
    (conns : List (Option Ws)) (c : ℕ) (old ws : Ws)
    → ws_at conns c ≡ some old
    → ws_at (set conns c (some ws)) c ≡ some ws
unfolding ws_at
ws_at-set conns c old ws h = elim (Option-cases (get_elem? conns c)) [
  | inl outside ↦ absurd (ground (arith, h, outside))
  | inr (slot, found) ↦ rw (get_elem?-set conns c slot (some ws) found, ws_at) refl
]

-- A bound connection, its channel and the channel's WebSocket.
bound_parts :
    (id : Bytes) (c : ℕ) (old : Ws) (p : Pool)
    → bound_ws id p ≡ some (c, old)
    → (lookup id p.channel_map ≡ some c) × (ws_at p.ws_conns c ≡ some old)
unfolding bound_ws
bound_parts id c old p h = elim (Option-cases (lookup id p.channel_map)) [
  | inl free ↦ absurd (ground (arith, h, free))
  | inr (d, taken) ↦ elim (Option-cases (ws_at p.ws_conns d)) [
    | inl down ↦ absurd (ground (arith, h, taken, down))
    | inr (w, up) ↦
        let whole : some (let x : ℕ × Ws = (d, w) in x) ≡ some (c, old) =
          rw (taken, up, bound_ws) at h in
        let channel : d ≡ c = cc in
        let socket : w ≡ old = cc in (taken ∙ ap some channel, (rw channel at up) ∙ ap some socket)
  ]
]

-- The session of a new WebSocket has no connection.
no_conn : (id : Bytes) → lookup id Server.new_session.conns ≡ none
unfolding lookup
no_conn id = refl

redialled :
    (c : ℕ) (dials : List (Option Ws)) (p q : Pool) (ws : Ws)
    → dial_once c dials p ≡ some (q, ws)
    → q ≡ record p { ws_conns = set p.ws_conns c (some ws) }
unfolding dial_once
redialled c [] p q ws e = absurd (ground (arith, e))
redialled c (none ∷ dials) p q ws e = redialled c dials p q ws e
redialled c (some w ∷ dials) p q ws e =
    let pool : record p { ws_conns = set p.ws_conns c (some w) } ≡ q = cc in
    let socket : w ≡ ws = cc in
    sym pool ∙ ap (λ (x : Ws). record p { ws_conns = set p.ws_conns c (some x) }) socket

module _ (id : Bytes) (c : ℕ) (old ws : Ws) (dials : List (Option Ws)) (p q : Pool)
    (bound : bound_ws id p ≡ some (c, old)) (dialled : dial_once c dials p ≡ some (q, ws)) where
  still_bound : bound_ws id q ≡ some (c, ws)
  unfolding bound_ws
  still_bound =
      let (taken, up) = bound_parts id c old p bound in
      rw (redialled c dials p q ws dialled)
        (rw (taken, bound_ws) (rw (ws_at-set p.ws_conns c old ws up) refl))

  -- A channel that is dialled again keeps the connections that were bound to it, though the server's
  -- session of the new WebSocket knows none of them: what the client sends for such a connection is
  -- written without an error and reaches no target, and the local connection stays registered.
  -- The identifier holds no `|`, and the writes succeed.
  pub redialled_data_lost :
      (penv : Pool.Env) (senv : Server.Env) (b : Bytes)
      → contains_byte b'|' id ≡ false
      → ((msg : Bytes) → penv.ws_ok ws msg ≡ true)
      → ((send_data penv id b q).0 ≡ none)
        × (to_server senv ws (send_data penv id b q).1 Server.new_session
            ≡ (Server.new_session, []))
        × (lookup id q.tcp_map ≡ lookup id p.tcp_map)
  unfolding send_data forward_tcp
  redialled_data_lost penv senv b plain writes = (
    rw (still_bound, send_data) (rw (writes (data_message id b)) refl),
    rw (still_bound, send_data)
        (rw to_server_one (
          rw (Server.Messages.handle-data senv id plain Server.new_session b)
            (rw (no_conn id, forward_tcp) refl))),
    rw (redialled c dials p q ws dialled) refl,
  )
