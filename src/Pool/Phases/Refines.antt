-- ===== src/Pool/Phases/Refines.antt =====
-- The steps of a pool as moves of every connection.
use ech_tunnel.Base.{
  ℕ, Bool, false, List, [], ◌∷◌, Option, none, some, ◌≡◌, inl, inr, refl, arith, Bytes, lookup,
  lookup-insert, lookup-erase, bytes_key, nat_eq, bytes_eq, bytes_eq_iff, Bool-cases, Option-cases,
}
use ech_tunnel.Pool.{
  Pool, Ws, Info, Env, Effect, new_ech_pool, dial_once, claim_channel, register_udp,
}
use ech_tunnel.Pool.Send.{send_udp_connect, send_udp_close, wait_connected, first_ws, bound_ws}
use ech_tunnel.Pool.Valid.{IsValid, new-IsValid}
use ech_tunnel.Pool.Steps.{
  Step, Reach, dialled, registered, claimed, udp_registered, udp_connected, udp_closed, waited,
  received, dropped, drop_tunnel, Reach-IsValid,
}
use ech_tunnel.Pool.Phases.{unknown, bound, Move, stay, end_phase, phase_of, phase}
use ech_tunnel.Pool.Phases.Received.{Move-same, register_moves, handle_channel-IsMove}

-- The step does not connect the connection as an association.
abbrev pub IsTcp : (id : Bytes) {p q : Pool} → Step p q → Type 0
IsTcp id (udp_connected env j target idle) = bytes_eq j id ≡ false
IsTcp id _ = Unit

claim_channel-moves :
    (env : Env) (id : Bytes) (i : ℕ) (ws : Ws) (p q : Pool) (es : List Effect) (j : Bytes)
    → claim_channel env id i ws p ≡ some (q, es)
    → Move (phase j p) (phase j q)
unfolding claim_channel
claim_channel-moves env id i ws p q es j e = elim (Option-cases (lookup id p.claim_times)) [
  | inl missing ↦ absurd (ground (arith, e, missing))
  | inr (times, found) ↦ Move-same j p q (ground (arith, e, found)) (ground (arith, e, found))
]

dial_once-moves :
    (index : ℕ) (dials : List (Option Ws)) (p q : Pool) (ws : Ws) (j : Bytes)
    → dial_once index dials p ≡ some (q, ws)
    → Move (phase j p) (phase j q)
unfolding dial_once
dial_once-moves index [] p q ws j e = absurd (ground (arith, e))
dial_once-moves index (none ∷ dials) p q ws j e = dial_once-moves index dials p q ws j e
dial_once-moves index (some w ∷ dials) p q ws j e =
    Move-same j p q (ground (arith, e)) (ground (arith, e))

wait-moves :
    (by_timer : Bool) (id : Bytes) (p q : Pool) (b : Bool) (j : Bytes)
    → wait_connected by_timer id p ≡ some (q, b)
    → Move (phase j p) (phase j q)
unfolding wait_connected
wait-moves by_timer id p q b j e = Move-same j p q (ground (arith, e)) (ground (arith, e))

udp_connect-moves :
    (env : Env) (id target : Bytes) (p : Pool) (j : Bytes)
    → bytes_eq id j ≡ false
    → Move (phase j p) (phase j (send_udp_connect env id target p).0)
unfolding send_udp_connect
udp_connect-moves env id target p j other = elim (Option-cases (first_ws 0 p.ws_conns)) [
  | inl missing ↦ rw (missing, send_udp_connect) (stay (phase j p))
  | inr ((c, ws), found) ↦
      rw (found, send_udp_connect)
        (rw (lookup-insert id j c p.channel_map) (rw other (stay (phase j p))))
]

unbind_moves :
    (c : Option ℕ) (i : Option Info)
    → ((d : ℕ) → c ≡ some d → i ≡ none)
    → Move (phase_of c i) (phase_of none i)
unbind_moves none i settled = stay (phase_of none i)
unbind_moves (some d) i settled = rw (settled d refl) (end_phase (bound d))

udp_close-moves :
    (env : Env) (id : Bytes) (p : Pool) (j : Bytes)
    → IsValid p
    → Move (phase j p) (phase j (send_udp_close env id p).0)
unfolding send_udp_close
udp_close-moves env id p j v = elim (Option-cases (bound_ws id p)) [
  | inl missing ↦ rw (missing, send_udp_close) (stay (phase j p))
  | inr ((c, ws), found) ↦
      rw (found, send_udp_close)
        (rw (lookup-erase id j p.channel_map) (elim (Bool-cases (bytes_eq id j)) [
          | inl same ↦
              let e : id ≡ j = (bytes_eq_iff id j).0 same in
              let settled = λ (d : ℕ). v.settled j d in
              rw same (unbind_moves (lookup j p.channel_map) (lookup j p.conn_info) settled)
          | inr other ↦ rw other (stay (phase j p))
        ]))
]

pub step-Move :
    {p q : Pool} (id : Bytes) (s : Step p q)
    → IsValid p
    → IsTcp id s
    → Move (phase id p) (phase id q)
unfolding register_udp drop_tunnel
step-Move {p} {q} id (dialled index dials ws e) v tcp = dial_once-moves index dials p q ws id e
step-Move {p} id (registered j target first conn fresh) v tcp =
    register_moves p j target first conn id fresh
step-Move {p} {q} id (claimed env j i ws es below e) v tcp =
    claim_channel-moves env j i ws p q es id e
step-Move {p} id (udp_registered j assoc) v tcp = stay (phase id p)
step-Move {p} id (udp_connected env j target idle) v tcp = udp_connect-moves env j target p id tcp
step-Move {p} id (udp_closed env j) v tcp = udp_close-moves env j p id v
step-Move {p} {q} id (waited by_timer j b e) v tcp = wait-moves by_timer j p q b id e
step-Move {p} id (received env c ws m msg below) v tcp =
    (handle_channel-IsMove p env c ws m msg).move id
step-Move {p} id (dropped j) v tcp = stay (phase id p)

new-unknown : (addr : Bytes) (n : ℕ) (id : Bytes) → phase id (new_ech_pool addr n) ≡ unknown
unfolding new_ech_pool lookup
new-unknown addr n id = refl

-- The pool implements the contract of a connection: in a new pool the connection is unknown, and
-- every step from a pool that can be reached either leaves the phase of the connection or moves it as
-- the contract allows, whatever else happens in the pool, unless the step connects this very
-- identifier as an association. So a bound connection keeps its channel until it is forgotten, and
-- it is bound only when its request waited.
pub pool_implements :
    (addr : Bytes) (n : ℕ) (id : Bytes) (p q : Pool)
    → Reach (new_ech_pool addr n) p
    → (s : Step p q) → IsTcp id s
    → (phase id (new_ech_pool addr n) ≡ unknown) × Move (phase id p) (phase id q)
pool_implements addr n id p q r s tcp =
    (new-unknown addr n id, step-Move id s (Reach-IsValid (new-IsValid addr n) r) tcp)
