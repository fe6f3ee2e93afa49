-- ===== src/Server/Paired.antt =====
-- The keys of the two UDP maps of a session of websocket_server.go.
use ech_tunnel.Base.{
  ℕ, Bool, true, false, List, [], ◌∷◌, ◌≡◌, arith, Bytes, Map, lookup, insert, erase, is_none,
  lookup-insert, lookup-erase, bytes_key, Option-cases, inl, inr, if◌then◌else◌,
}
use ech_tunnel.Wire.{MsgType, text, binary}
use ech_tunnel.Server.{Session, Effect, Env, Outcome, UdpConn, UdpAddr}
use ech_tunnel.Server.Dispatch.{
  forward_udp, udp_data_received, forward_tcp, data_received, open_udp, udp_connect_received,
  udp_close_received, claim_received, tcp_received, close_received, handle_binary, handle_text,
  handle_web_socket,
}

-- A connection has a socket exactly when it has a target.
abbrev pub SameKeys : Map Bytes UdpConn → Map Bytes UdpAddr → Type 0
SameKeys m n = (id : Bytes) → is_none (lookup id m) ≡ is_none (lookup id n)

pub record IsPaired (s : Session) : Type 0 where
  pub same : SameKeys s.udp_conns s.udp_targets

SameKeys-insert :
    (m : Map Bytes UdpConn) (n : Map Bytes UdpAddr) (id : Bytes) (uc : UdpConn) (addr : UdpAddr)
    → SameKeys m n
    → SameKeys (insert id uc m) (insert id addr n)
SameKeys-insert m n id uc addr h j =
    ground (arith, h j, lookup-insert id j uc m, lookup-insert id j addr n)

pub SameKeys-erase :
    (m : Map Bytes UdpConn) (n : Map Bytes UdpAddr) (id : Bytes)
    → SameKeys m n
    → SameKeys (erase id m) (erase id n)
SameKeys-erase m n id h j = ground (arith, h j, lookup-erase id j m, lookup-erase id j n)

pub record KeepsPaired (o : Outcome) : Type 0 where
  pub session : IsPaired o.0

KeepsPaired-if :
    (b : Bool) (x y : Outcome) → KeepsPaired x → KeepsPaired y → KeepsPaired (if b then x else y)
KeepsPaired-if true x y vx vy = vx
KeepsPaired-if false x y vx vy = vy

-- The part of a session that the property reads.
with_conns :
    (s : Session) (m : Map Bytes ℕ) (es : List Effect)
    → IsPaired s
    → KeepsPaired (record s { conns = m }, es)
with_conns s m es v = record { session = record { same = v.same } }

module _ (s : Session) (v : IsPaired s) where
  KeepsPaired-same : (es : List Effect) → KeepsPaired (s, es)
  KeepsPaired-same es = record { session = v }

  KeepsPaired-udp_data : (parts : List Bytes) → KeepsPaired (udp_data_received parts s)
  unfolding udp_data_received forward_udp
  KeepsPaired-udp_data (id ∷ payload ∷ []) = elim (Option-cases (lookup id s.udp_conns)) [
    | inl missing ↦ rw (missing, forward_udp) (KeepsPaired-same [])
    | inr (uc, found) ↦ elim (Option-cases (lookup id s.udp_targets)) [
      | inl missing ↦ rw (found, forward_udp) (rw (missing, forward_udp) (KeepsPaired-same []))
      | inr (addr, known) ↦ rw (found, forward_udp) (rw (known, forward_udp) (KeepsPaired-same _))
    ]
  ]
  KeepsPaired-udp_data _ = KeepsPaired-same []

  KeepsPaired-data : (parts : List Bytes) → KeepsPaired (data_received parts s)
  unfolding data_received forward_tcp
  KeepsPaired-data (id ∷ payload ∷ []) = elim (Option-cases (lookup id s.conns)) [
    | inl missing ↦ rw (missing, forward_tcp) (KeepsPaired-same [])
    | inr (c, found) ↦ rw (found, forward_tcp) (KeepsPaired-same _)
  ]
  KeepsPaired-data _ = KeepsPaired-same []

  KeepsPaired-udp_connect :
      (env : Env) (parts : List Bytes) → KeepsPaired (udp_connect_received env parts s)
  unfolding udp_connect_received open_udp
  KeepsPaired-udp_connect env (id ∷ target ∷ []) = elim (Option-cases (env.resolve target)) [
    | inl missing ↦ rw (missing, open_udp) (KeepsPaired-same _)
    | inr (addr, found) ↦ elim (Option-cases env.listen_udp) [
      | inl missing ↦ rw (found, open_udp) (rw (missing, open_udp) (KeepsPaired-same _))
      | inr (uc, opened) ↦
          rw (found, open_udp)
            (rw (opened, open_udp)
              (record {
                session = record {
                  same = SameKeys-insert s.udp_conns s.udp_targets id uc addr v.same;
                };
              }))
    ]
  ]
  KeepsPaired-udp_connect env _ = KeepsPaired-same []

  KeepsPaired-udp_close : (id : Bytes) → KeepsPaired (udp_close_received id s)
  unfolding udp_close_received
  KeepsPaired-udp_close id = elim (Option-cases (lookup id s.udp_conns)) [
    | inl missing ↦ rw (missing, udp_close_received) (KeepsPaired-same [])
    | inr (uc, found) ↦
        rw (found, udp_close_received)
          (record {
            session = record { same = SameKeys-erase s.udp_conns s.udp_targets id v.same };
          })
  ]

  KeepsPaired-claim : (parts : List Bytes) → KeepsPaired (claim_received parts s)
  unfolding claim_received
  KeepsPaired-claim (id ∷ channel ∷ []) = KeepsPaired-same _
  KeepsPaired-claim _ = KeepsPaired-same []

  KeepsPaired-tcp : (parts : List Bytes) → KeepsPaired (tcp_received parts s)
  unfolding tcp_received
  KeepsPaired-tcp (id ∷ target ∷ []) = KeepsPaired-same _
  KeepsPaired-tcp (id ∷ target ∷ first ∷ []) = KeepsPaired-same _
  KeepsPaired-tcp _ = KeepsPaired-same []

  KeepsPaired-close : (id : Bytes) → KeepsPaired (close_received id s)
  unfolding close_received
  KeepsPaired-close id = elim (Option-cases (lookup id s.conns)) [
    | inl missing ↦ rw (missing, close_received) (KeepsPaired-same [])
    | inr (c, found) ↦ rw (found, close_received) (with_conns s _ _ v)
  ]

ruleset paired_rules = (
  KeepsPaired-if, KeepsPaired-same, KeepsPaired-udp_data, KeepsPaired-data, KeepsPaired-udp_connect,
  KeepsPaired-udp_close, KeepsPaired-claim, KeepsPaired-tcp, KeepsPaired-close,
)

module _ (s : Session) (v : IsPaired s) where
  handle_binary-KeepsPaired : (msg : Bytes) → KeepsPaired (handle_binary msg s)
  unfolding handle_binary
  handle_binary-KeepsPaired msg = search paired_rules

  handle_text-KeepsPaired : (env : Env) (msg : Bytes) → KeepsPaired (handle_text env msg s)
  unfolding handle_text
  handle_text-KeepsPaired env msg = search paired_rules depth 9

  pub handle_web_socket-IsPaired :
      (env : Env) (m : MsgType) (msg : Bytes) → IsPaired (handle_web_socket env m msg s).0
  unfolding handle_web_socket
  handle_web_socket-IsPaired env binary msg = (handle_binary-KeepsPaired msg).session
  handle_web_socket-IsPaired env text msg = (handle_text-KeepsPaired env msg).session
