-- ===== src/Socks5/Association/Talk/Beside.antt =====
-- Replies to the client are no part of what an association says to the server.
use ech_tunnel.Base.{List, [], ◌∷◌, Bytes, Bool-cases, Option-cases, inl, inr, bytes_key}
use ech_tunnel.Socks5.Association.{
  Association, Effect, Env, of_pool, to_client, signal_done, respond, reply, go_wait,
  listener_close,
}
use ech_tunnel.Socks5.Association.Talk.{Phase, Talk, silent, beside}
use ech_tunnel.Socks5.Association.Talk.Packets.{Packet-cases}
use ech_tunnel.Socks5.{build_socks5_udp_packet}

-- Effects that are none of the pool.
abbrev pub AllBeside : List Effect → Type 0
AllBeside [] = Unit
AllBeside (of_pool e ∷ es) = ⊥
AllBeside (e ∷ es) = AllBeside es

reply-AllBeside : (env : Env) (packet : Bytes) (a : Association) → AllBeside (reply env packet a)
unfolding reply
reply-AllBeside env packet a = elim (Option-cases a.client_udp_addr) [
  | inl unknown ↦ rw (unknown, reply) tt
  | inr (addr, known) ↦ elim (Bool-cases (env.udp_ok packet)) [
    | inl sent ↦ rw (known, reply) (rw sent tt)
    | inr lost ↦ rw (known, reply) (rw lost tt)
  ]
]

pub respond-AllBeside :
    (env : Env) (parts : List Bytes) (payload : Bytes) (a : Association)
    → AllBeside (respond env parts payload a)
unfolding respond
respond-AllBeside env [] payload a = tt
respond-AllBeside env (host ∷ []) payload a = tt
respond-AllBeside env (host ∷ port ∷ []) payload a =
    elim (Packet-cases (build_socks5_udp_packet env.parse_ip host (env.scan_port port) payload)) [
      | inl (e, bad) ↦ rw (bad, respond) tt
      | inr (packet, good) ↦ rw (good, respond) (reply-AllBeside env packet a)
    ]
respond-AllBeside env (x ∷ y ∷ z ∷ parts) payload a = tt

pub said_beside : {id : Bytes} {ph : Phase} (es : List Effect) → AllBeside es → Talk id ph es ph
said_beside [] h = silent
said_beside (of_pool e ∷ es) h = absurd h
said_beside (to_client addr b ∷ es) h = beside tt (said_beside es h)
said_beside (go_wait i ∷ es) h = beside tt (said_beside es h)
said_beside (listener_close ∷ es) h = beside tt (said_beside es h)
said_beside (signal_done ∷ es) h = beside tt (said_beside es h)
