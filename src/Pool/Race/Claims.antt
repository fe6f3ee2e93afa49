-- ===== src/Pool/Race/Claims.antt =====
-- RegisterAndClaim: what it does when it runs alone, and when an acknowledgement overtakes it.
use ech_tunnel.Base.{
  ℕ, suc, false, List, [], ◌∷◌, Option, none, some, ◌≡◌, refl, arith, Bytes, Map, lookup, insert,
  is_none, bytes_key, nat_eq, Bool-cases, Option-cases, inl, inr, lookup-insert_self,
  lookup-erase_self, erase-insert_nil, ◌∙◌,
}
use ech_tunnel.Wire.{text, claim_message, tcp_message}
use ech_tunnel.Pool.{
  Conn, Ws, Info, Pool, Env, Effect, ws_write, register, claim_channel, claim_loop,
  register_and_claim,
}
use ech_tunnel.Pool.Receive.{take_claim, win_claim, forget, claim_acked}
use ech_tunnel.Pool.Race.{acked_sent, acked_lost}

-- The claims that the loop sends, for the channels from index `i` on that are connected.
abbrev pub claims : Bytes → ℕ → List (Option Ws) → List Effect
claims id i [] = []
claims id i (none ∷ conns) = claims id (suc i) conns
claims id i (some ws ∷ conns) = ws_write ws text (claim_message id i) ∷ claims id (suc i) conns

-- What the loop of claims leaves alone.
pub record SameButClaims (p q : Pool) : Type 0 where
  pub tcp_map : q.tcp_map ≡ p.tcp_map
  pub channel_map : q.channel_map ≡ p.channel_map
  pub conn_info : q.conn_info ≡ p.conn_info
  pub connected : q.connected ≡ p.connected
  pub ws_conns : q.ws_conns ≡ p.ws_conns

claim_loop_total :
    (env : Env) (id : Bytes) (i : ℕ) (conns : List (Option Ws)) (p : Pool) (times : Map ℕ ℕ)
    → lookup id p.claim_times ≡ some times
    → (q : Pool) × (claim_loop env id i conns p ≡ some (q, claims id i conns)) × SameButClaims p q
unfolding claim_loop claim_channel
claim_loop_total env id i [] p times h = (
  p,
  refl,
  record {
    tcp_map = refl;
    channel_map = refl;
    conn_info = refl;
    connected = refl;
    ws_conns = refl;
  },
)
claim_loop_total env id i (none ∷ conns) p times h = claim_loop_total env id (suc i) conns p times h
claim_loop_total env id i (some ws ∷ conns) p times h =
    let noted = insert i (env.now i) times in
    let (q, e, same) =
      claim_loop_total env id (suc i) conns
        (record p { claim_times = insert id noted p.claim_times }) noted
        (lookup-insert_self id noted p.claim_times) in
    (
      q,
      ground (arith, e),
      record {
        tcp_map = same.tcp_map;
        channel_map = same.channel_map;
        conn_info = same.conn_info;
        connected = same.connected;
        ws_conns = same.ws_conns;
      },
    )

-- The connection, its request and a signal are registered in `q`, whose bindings and WebSockets are
-- those of `p`.
pub record RegisteredFor (id target first : Bytes) (conn : Conn) (p q : Pool) : Type 0 where
  pub tcp : lookup id q.tcp_map ≡ some conn
  pub info :
      lookup id q.conn_info ≡ some (record { target_addr = target; first_frame_data = first })
  pub signalled : is_none (lookup id q.connected) ≡ false
  pub channels : q.channel_map ≡ p.channel_map
  pub sockets : q.ws_conns ≡ p.ws_conns

register_lem :
    (id target first : Bytes) (conn : Conn) (p : Pool)
    → RegisteredFor id target first conn p (register id target first conn p)
unfolding register
register_lem id target first conn p = record {
  tcp = lookup-insert_self id conn p.tcp_map;
  info = lookup-insert_self id _ p.conn_info;
  signalled = ground (arith, lookup-insert_self id false p.connected);
  channels = refl;
  sockets = refl;
}

registered_times :
    (id target first : Bytes) (conn : Conn) (p : Pool)
    → (times : Map ℕ ℕ) × (lookup id (register id target first conn p).claim_times ≡ some times)
unfolding register
registered_times id target first conn p = elim (Option-cases (lookup id p.claim_times)) [
  | inl new ↦ ([], ground (arith, lookup-insert_self id [] p.claim_times))
  | inr (times, old) ↦ (times, ground arith)
]

-- Run with nothing between its critical sections, RegisterAndClaim does not panic: it sends one
-- CLAIM with its index on each connected channel, in order, and leaves the local connection, the
-- request and a signal registered under the identifier, and the bindings and the WebSockets as
-- they were.
pub register_and_claim_lem :
    (env : Env) (id target first : Bytes) (conn : Conn) (p : Pool)
    → (q : Pool) × (register_and_claim env id target first conn p
        ≡ some (q, claims id 0 p.ws_conns))
      × RegisteredFor id target first conn p q
unfolding register_and_claim register
register_and_claim_lem env id target first conn p =
    let r = register id target first conn p in
    let (times, known) = registered_times id target first conn p in
    let (q, e, same) = claim_loop_total env id 0 p.ws_conns r times known in
    let reg = register_lem id target first conn p in
    (
      q,
      e,
      record {
        tcp = rw same.tcp_map reg.tcp;
        info = rw same.conn_info reg.info;
        signalled = rw same.connected reg.signalled;
        channels = same.channel_map ∙ reg.channels;
        sockets = same.ws_conns;
      },
    )

-- After the last noted claim of a connection is acknowledged, its map of claim times is gone.
last_claim_taken :
    (id : Bytes) (i now : ℕ) (m : Map Bytes (Map ℕ ℕ))
    → lookup id (take_claim id i (insert id (insert i now []) m)) ≡ none
unfolding take_claim
last_claim_taken id i now m =
    rw (lookup-insert_self id (insert i now []) m, take_claim)
      (rw (lookup-insert_self i now []) (rw (erase-insert_nil i now) (lookup-erase_self id _)))

claim_channel_noted :
    (env : Env) (id : Bytes) (i : ℕ) (ws : Ws) (p : Pool) (times : Map ℕ ℕ)
    → lookup id p.claim_times ≡ some times
    → claim_channel env id i ws p
      ≡ some (
        record p { claim_times = insert id (insert i (env.now i) times) p.claim_times },
        ws_write ws text (claim_message id i) ∷ [],
      )
unfolding claim_channel
claim_channel_noted env id i ws p times h = rw (h, claim_channel)

claim_channel_panics :
    (env : Env) (id : Bytes) (i : ℕ) (ws : Ws) (p : Pool)
    → lookup id p.claim_times ≡ none
    → claim_channel env id i ws p ≡ none
unfolding claim_channel
claim_channel_panics env id i ws p h = rw (h, claim_channel)

-- The acknowledgement takes the last claim, whether its request can be written or not.
acked_takes_claim :
    (env : Env) (i : ℕ) (ws : Ws) (id : Bytes) (info : Info) (p : Pool)
    → lookup id p.conn_info ≡ some info
    → lookup id p.channel_map ≡ none
    → lookup id (take_claim id i p.claim_times) ≡ none
    → lookup id (claim_acked env i ws id p).0.claim_times ≡ none
unfolding forget win_claim
acked_takes_claim env i ws id info p waiting free taken =
    elim (Bool-cases (env.ws_ok ws (tcp_message id info.target_addr info.first_frame_data))) [
      | inl sent ↦ rw (acked_sent env i ws id info p waiting free sent) taken
      | inr lost ↦
          rw (acked_lost env i ws id info p waiting free lost)
            (lookup-erase_self id (take_claim id i p.claim_times))
    ]

registered_new_times :
    (id target first : Bytes) (conn : Conn) (p : Pool)
    → lookup id p.claim_times ≡ none
    → lookup id (register id target first conn p).claim_times ≡ some []
unfolding register
registered_new_times id target first conn p new =
    ground (arith, lookup-insert_self id [] p.claim_times)

registered_claims :
    (id target first : Bytes) (conn : Conn) (p : Pool)
    → lookup id p.claim_times ≡ none
    → (register id target first conn p).claim_times ≡ insert id [] p.claim_times
unfolding register
registered_claims id target first conn p new = ground arith

-- The loop of RegisterAndClaim can be overtaken. Let a new connection be registered and its claim
-- be sent on channel `i`. If the acknowledgement is handled before the loop claims on a further
-- channel `j`, then that claim panics, by an assignment to an entry of a nil map.
pub overtaken_claim_panics :
    (env later : Env) (id target first : Bytes) (conn : Conn) (i j : ℕ) (ws next_ws : Ws) (p : Pool)
    → lookup id p.claim_times ≡ none
    → lookup id p.channel_map ≡ none
    → (q : Pool) × (claim_channel env id i ws (register id target first conn p)
        ≡ some (q, ws_write ws text (claim_message id i) ∷ []))
      × (claim_channel later id j next_ws (claim_acked env i ws id q).0 ≡ none)
overtaken_claim_panics env later id target first conn i j ws next_ws p new free =
    let r = register id target first conn p in
    let reg = register_lem id target first conn p in
    let q : Pool = record r { claim_times = insert id (insert i (env.now i) []) r.claim_times } in
    (
      q,
      claim_channel_noted env id i ws r [] (registered_new_times id target first conn p new),
      claim_channel_panics later id j next_ws (claim_acked env i ws id q).0 (
          acked_takes_claim env i ws id _ q reg.info (rw reg.channels free)
            (last_claim_taken id i (env.now i) r.claim_times)),
    )
