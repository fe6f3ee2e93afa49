-- ===== src/Pool/Valid.antt =====
-- The invariant of the connection pool, and the operations of pool.go against it.
pub mod Below
pub mod Operations
pub mod Received
use ech_tunnel.Base.{
  ℕ, ◌+◌, ◌<◌, Bool, List, [], ◌∷◌, Option, none, some, ◌≡◌, refl, arith, Bytes, lookup, insert,
  erase, lookup-insert, lookup-erase, bytes_key, nat_eq, bytes_eq_iff, length, length-set,
  length-replicate, Option-cases, inl, inr, suc,
}
use ech_tunnel.Pool.{
  Conn, AssocId, Ws, Pool, Env, Effect, new_ech_pool, dial_once, register, claim_channel,
  register_udp,
}
use ech_tunnel.Pool.Send.{first_ws, send_udp_connect, bound_ws, send_udp_close, wait_connected}
use Below.{ClaimsBelow, ClaimsBelow-insert, ClaimsBelow-touch, Below-nil, Below-insert}

-- The pool keeps one slot for each channel; a connection is bound to a channel that exists, and
-- then its request no longer waits; claims are noted for channels that exist.
pub record IsValid (p : Pool) : Type 0 where
  pub width : length p.ws_conns ≡ p.connection_num
  pub bound_below : (id : Bytes) (c : ℕ) → lookup id p.channel_map ≡ some c → c < p.connection_num
  pub settled :
      (id : Bytes) (c : ℕ) → lookup id p.channel_map ≡ some c → lookup id p.conn_info ≡ none
  pub claims_below : ClaimsBelow p.connection_num p.claim_times

pub new-IsValid : (addr : Bytes) (n : ℕ) → IsValid (new_ech_pool addr n)
unfolding new_ech_pool lookup
new-IsValid addr n = record {
  width = length-replicate n none;
  bound_below = λ id c h. cc;
  settled = λ id c h. cc;
  claims_below = λ id times h. cc;
}

pub dial-IsValid :
    (index : ℕ) (dials : List (Option Ws)) (p q : Pool) (ws : Ws)
    → dial_once index dials p ≡ some (q, ws)
    → IsValid p
    → IsValid q
unfolding dial_once
dial-IsValid index [] p q ws e v = cc
dial-IsValid index (none ∷ dials) p q ws e v = dial-IsValid index dials p q ws e v
dial-IsValid index (some w ∷ dials) p q ws e v = record {
  width = ground (arith, v.width, length-set p.ws_conns index (some w));
  bound_below = λ id c h. ground (arith, v.bound_below id c);
  settled = λ id c h. ground (arith, v.settled id c);
  claims_below = λ id times h. ground (arith, v.claims_below id times);
}

pub register-IsValid :
    (id target first : Bytes) (conn : Conn) (p : Pool)
    → lookup id p.channel_map ≡ none
    → IsValid p
    → IsValid (register id target first conn p)
unfolding register
register-IsValid id target first conn p fresh v = record {
  width = v.width;
  bound_below = v.bound_below;
  settled = λ j c h. ground (
    arith,
    v.settled j c,
    lookup-insert id j (record { target_addr = target; first_frame_data = first }) p.conn_info,
    bytes_eq_iff id j,
  );
  claims_below = ClaimsBelow-touch p.claim_times id v.claims_below;
}

pub claim_channel-IsValid :
    (env : Env) (id : Bytes) (i : ℕ) (ws : Ws) (p q : Pool) {es : List Effect}
    → claim_channel env id i ws p ≡ some (q, es)
    → i < p.connection_num
    → IsValid p
    → IsValid q
unfolding claim_channel
claim_channel-IsValid env id i ws p q e h v = elim (Option-cases (lookup id p.claim_times)) [
  | inl missing ↦ ground arith
  | inr (times, known) ↦
      let grown =
        ClaimsBelow-insert p.claim_times id v.claims_below _
          (Below-insert times i (env.now i) h (v.claims_below id times known)) in
      record {
        width = ground (arith, v.width);
        bound_below = λ j c k. ground (arith, v.bound_below j c);
        settled = λ j c k. ground (arith, v.settled j c);
        claims_below = λ j later k. ground (arith, grown j later);
      }
]

pub register_udp-IsValid :
    (id : Bytes) (assoc : AssocId) (p : Pool) → IsValid p → IsValid (register_udp id assoc p)
unfolding register_udp
register_udp-IsValid id assoc p v = record {
  width = v.width;
  bound_below = v.bound_below;
  settled = v.settled;
  claims_below = v.claims_below;
}

first_ws-lt :
    (i : ℕ) (conns : List (Option Ws)) (c : ℕ) (ws : Ws)
    → first_ws i conns ≡ some (c, ws)
    → c < i + length conns
unfolding first_ws
first_ws-lt i [] c ws e = cc
first_ws-lt i (none ∷ conns) c ws e = omega (arith, first_ws-lt (suc i) conns c ws e)
first_ws-lt i (some w ∷ conns) c ws e = ground arith

pub send_udp_connect-IsValid :
    (env : Env) (id target : Bytes) (p : Pool)
    → lookup id p.conn_info ≡ none
    → IsValid p
    → IsValid (send_udp_connect env id target p).0
unfolding send_udp_connect
send_udp_connect-IsValid env id target p idle v = elim (Option-cases (first_ws 0 p.ws_conns)) [
  | inl missing ↦ rw (missing, send_udp_connect) v
  | inr ((c, ws), found) ↦
      rw (found, send_udp_connect)
        (record {
          width = v.width;
          bound_below = λ j k h. ground (
            arith,
            v.width,
            v.bound_below j k,
            lookup-insert id j c p.channel_map,
            first_ws-lt 0 p.ws_conns c ws found,
          );
          settled = λ j k h.
              ground (arith, v.settled j k, lookup-insert id j c p.channel_map, bytes_eq_iff id j);
          claims_below = v.claims_below;
        })
]

pub send_udp_close-IsValid :
    (env : Env) (id : Bytes) (p : Pool) → IsValid p → IsValid (send_udp_close env id p).0
unfolding send_udp_close
send_udp_close-IsValid env id p v = elim (Option-cases (bound_ws id p)) [
  | inl missing ↦ rw (missing, send_udp_close) v
  | inr ((c, ws), found) ↦
      rw (found, send_udp_close)
        (record {
          width = v.width;
          bound_below = λ j k h. ground (arith, v.bound_below j k, lookup-erase id j p.channel_map);
          settled = λ j k h. ground (arith, v.settled j k, lookup-erase id j p.channel_map);
          claims_below = v.claims_below;
        })
]

pub wait_connected-IsValid :
    (by_timer : Bool) (id : Bytes) (p q : Pool) (b : Bool)
    → wait_connected by_timer id p ≡ some (q, b)
    → IsValid p
    → IsValid q
unfolding wait_connected
wait_connected-IsValid by_timer id p q b e v = record {
  width = ground (arith, v.width);
  bound_below = λ j c k. ground (arith, v.bound_below j c);
  settled = λ j c k. ground (arith, v.settled j c);
  claims_below = λ j times k. ground (arith, v.claims_below j times);
}
