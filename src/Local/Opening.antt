-- ===== src/Local/Opening.antt =====
-- How a local connection is opened, with the client's pool and the server's session together.
use ech_tunnel.Base.{
  ℕ, zero, suc, ◌+◌, Bool, true, false, List, [], ◌∷◌, ◌++◌, Option, none, some, ◌≡◌, ◌⊎◌, inl, inr,
  refl, ap, ◌∙◌, arith, Bytes, lookup, insert, bytes_key, contains_byte, get_elem?, is_empty,
  lookup-insert_self, is_none, Option-cases, if◌then◌else◌,
}
use ech_tunnel.Wire.{text, claim_message, tcp_message, connected_message}
use ech_tunnel.Pool
use ech_tunnel.Pool.{Pool, Ws, Info, register_and_claim}
use ech_tunnel.Pool.Send.{bound_ws, ws_at}
use ech_tunnel.Pool.Receive.{win_claim, signal}
use ech_tunnel.Pool.Race.Claims.{claims, register_and_claim_lem}
use ech_tunnel.Pool.Delivery.{wait_full}
use ech_tunnel.Server
use ech_tunnel.Server.{Session, Conn}
use ech_tunnel.Server.Tcp.{handle_tcp_connection, serve_tcp, read_loop}
use ech_tunnel.Server.Lifecycle.{taken_lem, first_write, entered}
use ech_tunnel.Tunnel.{to_server, to_client}
use ech_tunnel.Tunnel.Up.{to_server_one, to_client_one, claim_answered, request_sent}
use ech_tunnel.Local.{
  FrontEnd, relaying, refused, refuse_client, success, answer_success, await_connection,
}

-- The claim on a connected channel is among the claims.
claims-channel :
    (id : Bytes) (i k c : ℕ) (conns : List (Option Ws)) (ws : Ws)
    → c ≡ k + i
    → get_elem? conns k ≡ some (some ws)
    → (before after : List Pool.Effect) × (claims id i conns
        ≡ before ++ Pool.ws_write ws text (claim_message id c) ∷ after)
claims-channel id i k c [] ws at_c h = absurd (ground (arith, h))
claims-channel id i zero c (none ∷ conns) ws at_c h = absurd (ground (arith, h))
claims-channel id i zero c (some w ∷ conns) ws at_c h =
    let first : i ≡ c = omega (arith, at_c) in
    let same : w ≡ ws = cc in ([], claims id (suc i) conns, rw (first, same) refl)
claims-channel id i (suc k) c (none ∷ conns) ws at_c h =
    claims-channel id (suc i) k c conns ws (omega (arith, at_c)) h
claims-channel id i (suc k) c (some w ∷ conns) ws at_c h =
    let (before, after, e) = claims-channel id (suc i) k c conns ws (omega (arith, at_c)) h in
    (Pool.ws_write w text (claim_message id i) ∷ before, after, rw e refl)

-- What the handler writes when the connection is open.
abbrev pub greeting : Pool.Conn → Option Bytes → List Pool.Effect
greeting local none = []
greeting local (some msg) = Pool.conn_write local msg ∷ []

greeted :
    (f : FrontEnd) (env : Pool.Env) (local : Pool.Conn)
    → ((b : Bytes) → env.conn_ok local b ≡ true)
    → answer_success f env local ≡ (relaying, greeting local (success f))
unfolding answer_success
greeted f env local writes = elim (Option-cases (success f)) [
  | inl silent ↦ rw (silent, answer_success) refl
  | inr (msg, told) ↦ rw (told, answer_success) (rw (writes msg) refl)
]

await_woken :
    (f : FrontEnd) (env : Pool.Env) (by_timer : Bool) (id : Bytes) (local : Pool.Conn) (p : Pool)
    → lookup id p.connected ≡ some true
    → ((b : Bytes) → env.conn_ok local b ≡ true)
    → await_connection f env by_timer id local p ≡ (
        if by_timer
        then some (refused, p, refuse_client f local)
        else some (
          relaying,
          record p { connected = insert id false p.connected },
          greeting local (success f),
        ))
unfolding await_connection
await_woken f env true id local p full writes = rw (wait_full true id p full, await_connection) refl
await_woken f env false id local p full writes =
    rw (wait_full false id p full, await_connection) (rw (greeted f env local writes) refl)

-- The first part of handleTCPConnection, until the target sends something.
served :
    (env : Server.Env) (id target first : Bytes) (conn : Conn) (s : Session)
    → env.dial target ≡ some conn
    → (is_empty first ≡ true) ⊎ (env.conn_ok conn first ≡ true)
    → handle_tcp_connection env id target first [] s ≡ (
      entered id conn s,
      first_write conn first ++ Server.ws_write text (connected_message id) ∷ [],
    )
unfolding serve_tcp read_loop
served env id target first conn s dialled taken =
    taken_lem env id target first conn [] s dialled taken

-- The client's end sees only the last of these effects.
connected_heard :
    (env : Pool.Env) (c : ℕ) (ws : Ws) (id first : Bytes) (conn : Conn) (p : Pool)
    → to_client env c ws
        (first_write conn first ++ Server.ws_write text (connected_message id) ∷ [])
        p
      ≡ (signal id p, [])
unfolding to_client
connected_heard env c ws id [] conn p =
    to_client_one env c ws text (connected_message id) p
    ∙ Pool.Messages.handle-connected env c ws id p
connected_heard env c ws id (b ∷ first) conn p =
    to_client_one env c ws text (connected_message id) p
    ∙ Pool.Messages.handle-connected env c ws id p

-- The bound channel's WebSocket.
bound_there :
    (id : Bytes) (c : ℕ) (ws : Ws) (p : Pool)
    → lookup id p.channel_map ≡ some c
    → get_elem? p.ws_conns c ≡ some (some ws)
    → bound_ws id p ≡ some (c, ws)
unfolding bound_ws ws_at
bound_there id c ws p bound there = rw (bound, bound_ws) (rw (there, ws_at) refl)

signal_full :
    (id : Bytes) (p : Pool)
    → is_none (lookup id p.connected) ≡ false
    → signal id p ≡ record p { connected = insert id true p.connected }
unfolding signal
signal_full id p known = rw (known, signal) refl

-- What the handler knows once it relays: the channel and its own connection.
pub record IsRelayed (id : Bytes) (c : ℕ) (ws : Ws) (local : Pool.Conn) (q : Pool) : Type 0 where
  pub bound : bound_ws id q ≡ some (c, ws)
  pub kept : lookup id q.tcp_map ≡ some local

module _ (f : FrontEnd) (penv : Pool.Env) (senv : Server.Env) (c : ℕ) (ws : Ws)
    (id target first : Bytes) (local : Pool.Conn) (conn : Conn) (p : Pool) (s : Session)
    (plain_id : contains_byte b'|' id ≡ false) (plain_target : contains_byte b'|' target ≡ false)
    (free : lookup id p.channel_map ≡ none) (there : get_elem? p.ws_conns c ≡ some (some ws))
    (sent : penv.ws_ok ws (tcp_message id target first) ≡ true)
    (writes : (b : Bytes) → penv.conn_ok local b ≡ true) (dialled : senv.dial target ≡ some conn)
    (taken : (is_empty first ≡ true) ⊎ (senv.conn_ok conn first ≡ true)) where
  -- A connection opens: RegisterAndClaim does not panic and claims the channel among others; the
  -- server's answer makes the client send the request, the request makes the server start the
  -- target, and the server's report wakes the handler, which greets its client as its protocol
  -- asks and relays from then on, bound to the channel. Only where the `select` of the wait takes
  -- the case of its timer, which it may do once that has fired, although the report is there too,
  -- the handler refuses its client instead, and the connection stays registered and bound. The
  -- connection is new to the pool, channel and target are there, the writes succeed, and neither
  -- identifier nor target holds a `|`.
  pub connection_opens :
      (by_timer : Bool)
      → (registered : Pool) × (before after : List Pool.Effect) × (relayed late : Pool)
        × (register_and_claim penv id target first local p
            ≡ some (registered, before ++ Pool.ws_write ws text (claim_message id c) ∷ after))
        × (let (s1, ack) = to_server senv ws (Pool.ws_write ws text (claim_message id c) ∷ []) s in
            let (won, request) = to_client penv c ws ack registered in
            let (s2, started) = to_server senv ws request s1 in
            let (s3, answers) = handle_tcp_connection senv id target first [] s2 in
            let (ready, replies) = to_client penv c ws answers won in
            (started ≡ Server.go_tcp id target first ∷ [])
            × (lookup id s3.conns ≡ some conn)
            × (await_connection f penv by_timer id local ready ≡ (
                if by_timer
                then some (refused, late, refuse_client f local)
                else some (relaying, relayed, greeting local (success f)))))
        × IsRelayed id c ws local relayed
        × IsRelayed id c ws local late
  unfolding win_claim
  connection_opens by_timer =
      let (q, e, reg) = register_and_claim_lem penv id target first local p in
      let (before, after, among) = claims-channel id 0 c c p.ws_conns ws (omega arith) there in
      let info : Info = record { target_addr = target; first_frame_data = first } in
      let unbound : lookup id q.channel_map ≡ none = rw reg.channels free in
      let won = win_claim id c q in
      let full : Pool = record won { connected = insert id true won.connected } in
      let relayed : Pool = record full { connected = insert id false full.connected } in
      let asked =
        request_sent penv senv c ws id info q s plain_id plain_target reg.info unbound sent in
      let claimed =
        claim_answered penv senv c ws id info q s plain_id plain_target reg.info unbound sent in
      let started =
        to_server_one senv ws text (tcp_message id target first) s
        ∙ Server.Messages.handle-tcp senv id plain_id s target first plain_target in
      (
        q,
        before,
        after,
        relayed,
        full,
        e ∙ ap (λ (es : List Pool.Effect). some (q, es)) among,
        rw claimed (
            rw asked (
              rw started (
                rw (served senv id target first conn s dialled taken) (
                  refl,
                  lookup-insert_self id conn s.conns,
                  rw (connected_heard penv c ws id first conn won) (
                      rw (signal_full id won reg.signalled) (
                        await_woken f penv by_timer id local full
                          (lookup-insert_self id true won.connected) writes)),
                )))),
        record {
          bound =
              bound_there id c ws relayed (lookup-insert_self id c q.channel_map)
                (rw reg.sockets there);
          kept = reg.tcp;
        },
        record {
          bound =
              bound_there id c ws full (lookup-insert_self id c q.channel_map)
                (rw reg.sockets there);
          kept = reg.tcp;
        },
      )
