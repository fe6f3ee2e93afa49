-- ===== src/Server/Steps.antt =====
-- What can happen to a session, in any order: messages of the client and the goroutines that the
-- messages start.
use ech_tunnel.Base.{
  false, List, [], ◌∷◌, some, ◌≡◌, refl, arith, Bytes, lookup, insert, bytes_key, contains_byte,
  Option-cases, Bool-cases, inl, inr,
}
use ech_tunnel.Wire.{MsgType, binary, udp_data_message}
use ech_tunnel.Server.{Session, udp_write, Env, Conn, UdpConn, UdpAddr, new_session}
use ech_tunnel.Server.Dispatch.{forward_udp, handle_web_socket}
use ech_tunnel.Server.Tcp.{end_tcp}
use ech_tunnel.Server.Udp.{UdpEvent, receive_loop, receive_udp}
use ech_tunnel.Server.Messages.{handle-udp_data}
use ech_tunnel.Server.Paired.{IsPaired, SameKeys-erase, handle_web_socket-IsPaired}

pub data Step (s : Session) : Session → Type 0 where
  message : (env : Env) (m : MsgType) (msg : Bytes) → Step s (handle_web_socket env m msg s).0
  tcp_opened : (id : Bytes) (c : Conn) → Step s (record s { conns = insert id c s.conns })
  tcp_ended : (id : Bytes) (c : Conn) → Step s (end_tcp id c s).0
  udp_run :
      (id : Bytes) (uc : UdpConn) (events : List UdpEvent) → Step s (receive_udp id uc events s).0

pub data Reach : Session → Type 0 where
  start : Reach new_session
  next : {s t : Session} → Reach s → Step s t → Reach t

receive_udp-IsPaired :
    (id : Bytes) (uc : UdpConn) (events : List UdpEvent) (s : Session)
    → IsPaired s
    → IsPaired (receive_udp id uc events s).0
unfolding receive_udp
receive_udp-IsPaired id uc events s v = elim (Bool-cases (receive_loop id events).0) [
  | inl ended ↦ rw ended (record { same = SameKeys-erase s.udp_conns s.udp_targets id v.same })
  | inr running ↦ rw running v
]

Step-IsPaired : {s t : Session} → Step s t → IsPaired s → IsPaired t
unfolding end_tcp
Step-IsPaired {s} (message env m msg) v = handle_web_socket-IsPaired s v env m msg
Step-IsPaired (tcp_opened id c) v = record { same = v.same }
Step-IsPaired (tcp_ended id c) v = record { same = v.same }
Step-IsPaired {s} (udp_run id uc events) v = receive_udp-IsPaired id uc events s v

-- Whatever messages came and whatever goroutines ended, a connection of the session has a UDP
-- socket exactly when it has a UDP target.
pub reachable-IsPaired : (s : Session) → Reach s → IsPaired s
reachable-IsPaired _ start = record { same = λ id. refl }
reachable-IsPaired t (next r st) = Step-IsPaired st (reachable-IsPaired _ r)

-- So in a session that can be reached, a datagram of the client for a connection with a socket is
-- always written to that socket, once and whole, and towards the connection's target. The
-- connection's identifier holds no `|`.
pub datagram_forwarded :
    (env : Env) (s : Session) (id b : Bytes) (uc : UdpConn)
    → Reach s
    → contains_byte b'|' id ≡ false
    → lookup id s.udp_conns ≡ some uc
    → (addr : UdpAddr) × (lookup id s.udp_targets ≡ some addr)
      × (handle_web_socket env binary (udp_data_message id b) s ≡ (s, udp_write uc b addr ∷ []))
unfolding forward_udp
datagram_forwarded env s id b uc r plain known = elim (Option-cases (lookup id s.udp_targets)) [
  | inl missing ↦ let same = (reachable-IsPaired s r).same id in absurd (ground (arith, same))
  | inr (addr, found) ↦ (
    addr,
    found,
    rw (handle-udp_data env id plain s b) (rw (known, forward_udp) (rw (found, forward_udp))),
  )
]
